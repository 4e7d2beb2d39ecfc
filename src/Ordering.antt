-- ===== src/Ordering.antt =====
-- apps/api/src/learning/ordering/sparse-ordering.service.ts, the arithmetic of positions.
-- `null` is `none`. `sort_order` is a natural number: the tables check that it is not negative.
pub mod Bounds
pub mod Rows
pub mod Rebalance
pub mod Placement
pub mod Keys
mod InsertionSort
mod Examples
use edupay_academico.Prelude.{
  ℕ, ◌+◌, ◌-◌, ◌/◌, Bool, true, false, Option, none, some, ltb, leb, if◌then◌else◌,
}

abbrev pub sparse_order_step : ℕ
sparse_order_step = 1024

abbrev pub min_gap_for_insert : ℕ
min_gap_for_insert = 1

abbrev pub or_zero : Option ℕ → ℕ
or_zero none = 0
or_zero (some n) = n

unfoldable pub compute_next_end_position : Option ℕ → ℕ
compute_next_end_position highest = or_zero highest + sparse_order_step

pub record Midpoint : Type 0 where
  pub position : ℕ
  pub needs_rebalance : Bool

unfoldable pub compute_midpoint : Option ℕ → Option ℕ → Midpoint
compute_midpoint none none = record { position = sparse_order_step; needs_rebalance = false }
compute_midpoint none (some next) =
    if ltb 1 next
    then record { position = next / 2; needs_rebalance = ltb (next / 2) 1 }
    else record { position = 1; needs_rebalance = true }
compute_midpoint (some prev) none = record {
  position = prev + sparse_order_step;
  needs_rebalance = false;
}
compute_midpoint (some prev) (some next) =
    if leb next prev
    then record { position = prev + 1; needs_rebalance = true }
    else if leb (next - prev) min_gap_for_insert
    then record { position = prev + 1; needs_rebalance = true }
    else record { position = (prev + next) / 2; needs_rebalance = false }
