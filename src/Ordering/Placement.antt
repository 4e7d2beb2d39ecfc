-- ===== src/Ordering/Placement.antt =====
-- apps/api/src/learning/ordering/sparse-ordering.service.ts, where an item is put.
-- A placement is `{ relativeToId?, position? }`; an absent field is `none`.
pub mod Lands
pub mod Target
pub mod SameUnit
use mathlib.Core.Option
use edupay_academico.Prelude.{
  ℕ, ◌+◌, ◌-◌, ◌*◌, max, Bool, true, false, Option, none, some, List, [], ◌∷◌, ◌&&◌, ltb, length,
  get_elem?, last?, filter, if◌then◌else◌,
}
use edupay_academico.Ordering.{
  sparse_order_step, compute_next_end_position, Midpoint, compute_midpoint,
}
use edupay_academico.Ordering.Rows.{Row, OrderBy, in_parent, not_excluded, place}
use edupay_academico.Ordering.Rebalance.{rebalance_unit_items}

pub data Position : Type 0 where
  before after : Position

pub record ItemPlacement : Type 0 where
  pub relative_to_id : Option ℕ
  pub position : Option Position

-- `findFirst({ orderBy: { sortOrder: 'desc' }, select: { sortOrder } })`
abbrev pub highest : List Row → Option ℕ
highest [] = none
highest (r ∷ rs) = elim (highest rs) [
  | none ↦ some r.sort_order
  | some n ↦ some (max r.sort_order n)
]

-- The rows that the two queries select.
unfoldable pub siblings : ℕ → ℕ → Option ℕ → List Row → List Row
siblings tenant target exclude = filter (λ r. in_parent tenant target r && not_excluded exclude r)

module _ (db : OrderBy) (tenant target : ℕ) where
  -- The midpoint, or the one after a rebalance between the neighbours' new positions.
  pub midpoint_or_rebalance : List Row → (prev next new_prev new_next : Option ℕ) → List Row × ℕ
  midpoint_or_rebalance table prev next new_prev new_next =
      let midpoint = compute_midpoint prev next in
      if midpoint.needs_rebalance
      then (
        (rebalance_unit_items db tenant target table).0,
        (compute_midpoint new_prev new_next).position,
      )
      else (table, midpoint.position)

  pub place_before : List Row → List Row → ℕ → List Row × ℕ
  unfolding midpoint_or_rebalance
  place_before table items k = elim (get_elem? items k) [
    | none ↦ (table, sparse_order_step)
    | some next_item ↦
        midpoint_or_rebalance table
          (if ltb 0 k then Option.map (λ r. r.sort_order) (get_elem? items (k - 1)) else none)
          (some next_item.sort_order) (if ltb 0 k then some (k * sparse_order_step) else none)
          (some ((k + 1) * sparse_order_step))
  ]

  pub place_after : List Row → List Row → ℕ → List Row × ℕ
  unfolding midpoint_or_rebalance
  place_after table items k = elim (get_elem? items k) [
    | none ↦ (table, sparse_order_step)
    | some prev_item ↦
        midpoint_or_rebalance table (some prev_item.sort_order)
          (if ltb k (length items - 1)
            then Option.map (λ r. r.sort_order) (get_elem? items (k + 1))
            else none)
          (some ((k + 1) * sparse_order_step))
          (if ltb k (length items - 1) then some ((k + 2) * sparse_order_step) else none)
  ]

  pub place_beside : Option Position → List Row → List Row → ℕ → List Row × ℕ
  unfolding place_before place_after
  place_beside (some before) table items k = place_before table items k
  place_beside (some after) table items k = place_after table items k
  place_beside none table items k = place_after table items k

  append_last : Option ℕ → List Row → List Row × ℕ
  append_last exclude table =
      (table, compute_next_end_position (highest (siblings tenant target exclude table)))

  place_relative : Option Position → ℕ → Option ℕ → List Row → List Row × ℕ
  unfolding place_beside
  place_relative position relative_to_id exclude table =
      let items = db.sort (siblings tenant target exclude table) in
      elim (place relative_to_id items) [
        | none ↦ (table, compute_next_end_position (Option.map (λ r. r.sort_order) (last? items)))
        | some k ↦ place_beside position table items k
      ]

  -- The items after the call, and the position.
  unfoldable pub determine_item_placement_position :
      Option ItemPlacement → Option ℕ → List Row → List Row × ℕ
  unfolding place_relative append_last
  determine_item_placement_position none exclude table = append_last exclude table
  determine_item_placement_position (some placement) exclude table = elim placement.relative_to_id [
    | none ↦ append_last exclude table
    | some id ↦ place_relative placement.position id exclude table
  ]
