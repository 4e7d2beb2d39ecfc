-- ===== src/Ordering/Placement/Lands.antt =====
-- The place that an item lands on.
use edupay_academico.Prelude.{
  ℕ, ◌+◌, ◌*◌, ◌≤◌, ◌<◌, ◌≡◌, sym, subst, true, false, Option, some, List, get_elem?, All, All-imp,
  All-map, arith, Bool-cases, Option-cases, inl, inr,
}
use edupay_academico.Ordering.{compute_midpoint}
use edupay_academico.Ordering.Bounds.{midpoint_between, lt_of_Above, lt_of_Under}
use edupay_academico.Ordering.Rows.{Row, OrderBy, HasKeys, in_parent, place}
use edupay_academico.Ordering.Rebalance.{find_many}
use edupay_academico.Ordering.Rebalance.Table.{rebalance_unit_items_lem, find_many-Listed}
use edupay_academico.Ordering.Rebalance.Respaced.{respaced}
use edupay_academico.Ordering.Placement.{midpoint_or_rebalance}

-- In the table `result.0`, the rows of the unit with a place before `gap` in the listing have a
-- sort order below `result.1`, and those with a place from `gap` on have one above it.
abbrev pub Beside : List Row → ℕ → ℕ → Row → Type 0
Beside items gap position r =
    (j : ℕ) × (place r.id items ≡ some j)
    × (j < gap → r.sort_order < position)
    × (gap ≤ j → position < r.sort_order)

abbrev pub Lands : ℕ → ℕ → List Row → ℕ → List Row × ℕ → Type 0
Lands tenant target items gap result =
    All (λ r. in_parent tenant target r ≡ true → Beside items gap result.1 r) result.0

-- The neighbours of a gap bound the values of the rows on either side.
abbrev pub Covers : List Row → (ℕ → Row → ℕ) → ℕ → Option ℕ → Option ℕ → Type 0
Covers items value gap prev next =
    (j : ℕ) (r : Row)
    → get_elem? items j ≡ some r
    → (j < gap → (p : ℕ) × (prev ≡ some p) × (value j r ≤ p))
      × (gap ≤ j → (n : ℕ) × (next ≡ some n) × (n ≤ value j r))

-- Then a midpoint of the neighbours separates the two sides.
Covers-midpoint :
    (items : List Row) (value : ℕ → Row → ℕ) (gap : ℕ) (prev next : Option ℕ)
    → Covers items value gap prev next
    → (compute_midpoint prev next).needs_rebalance ≡ false
    → (j : ℕ) (r : Row) → get_elem? items j ≡ some r
    → (j < gap → value j r < (compute_midpoint prev next).position)
      × (gap ≤ j → (compute_midpoint prev next).position < value j r)
Covers-midpoint items value gap prev next covers room j r at_j =
    let (above, under, _) = midpoint_between prev next room in
    (
      λ lt.
          let (p, e, le) = (covers j r at_j).0 lt in
          omega (arith, lt_of_Above prev p (compute_midpoint prev next).position e above),
      λ le.
          let (n, e, ge) = (covers j r at_j).1 le in
          omega (arith, lt_of_Under next n (compute_midpoint prev next).position e under),
    )

-- Renumbering keeps a row in its unit, and gives it its place.
respaced-in_parent :
    (tenant target : ℕ) (items : List Row) (r : Row)
    → in_parent tenant target (respaced tenant 0 items r) ≡ true
    → in_parent tenant target r ≡ true
respaced-in_parent tenant target items r u = elim (Option-cases (place r.id items)) [
  | inl e ↦ ground (arith, e)
  | inr (j, e) ↦ ground (arith, e)
]

respaced-at :
    (tenant target : ℕ) (items : List Row) (r : Row) (j : ℕ)
    → in_parent tenant target r ≡ true
    → place r.id items ≡ some j
    → respaced tenant 0 items r ≡ record r { sort_order = (j + 1) * 1024 }
respaced-at tenant target items r j u e = ground (arith, e)

module _ (db : OrderBy) (tenant target : ℕ) (table : List Row) (keys : HasKeys table) where
  pub midpoint_or_rebalance-Lands :
      (gap : ℕ) (prev next new_prev new_next : Option ℕ)
      → Covers (find_many db tenant target table) (λ j r. r.sort_order) gap prev next
      → Covers (find_many db tenant target table) (λ j r. (j + 1) * 1024) gap new_prev new_next
      → (compute_midpoint new_prev new_next).needs_rebalance ≡ false
      → Lands tenant target
          (find_many db tenant target table)
          gap
          (midpoint_or_rebalance db tenant target table prev next new_prev new_next)
  unfolding midpoint_or_rebalance
  midpoint_or_rebalance-Lands gap prev next new_prev new_next old new room =
      elim (Bool-cases (compute_midpoint prev next).needs_rebalance) [
        | inl full ↦
            rw (full, rebalance_unit_items_lem db tenant target table keys)
              (All-map _ (respaced tenant 0 (find_many db tenant target table)) table (
                All-imp
                  (λ r listed u.
                    let v = respaced-in_parent tenant target _ r u in
                    let (j, at, get) = listed v in
                    let c =
                      Covers-midpoint _ (λ j _. (j + 1) * 1024) gap new_prev new_next new room j r
                        get in
                    subst
                      (Beside (find_many db tenant target table) gap
                        (compute_midpoint new_prev new_next).position)
                      (sym (respaced-at tenant target _ r j v at)) (j, at, c.0, c.1))
                  table (find_many-Listed db tenant target table keys)))
        | inr free ↦ rw free (
            All-imp
              (λ r listed u.
                let (j, at, get) = listed u in
                let c = Covers-midpoint _ (λ _ s. s.sort_order) gap prev next old free j r get in
                (j, at, c.0, c.1))
              table (find_many-Listed db tenant target table keys))
      ]
