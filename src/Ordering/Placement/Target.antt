-- ===== src/Ordering/Placement/Target.antt =====
-- Every placement relative to an item lands on its target.
use edupay_academico.Prelude.{
  ℕ, zero, suc, ◌+◌, ◌-◌, ◌*◌, ◌≤◌, ◌≡◌, refl, ap, true, false, Option, none, some, List, [], ◌∷◌,
  filter, get_elem?, get_elem?-below, get_elem?-lt, get_elem?-some, All, arith, Bool-cases,
  Option-cases, inl, inr, ltb, length, ◌==◌,
}
use edupay_academico.Ordering.{compute_midpoint}
use edupay_academico.Ordering.Rows.{Row, OrderBy, HasKeys, IsSorted, in_parent, not_excluded, place}
use edupay_academico.Ordering.Keys.{sorted_le}
use edupay_academico.Ordering.Rebalance.{find_many}
use edupay_academico.Ordering.Placement.{
  Position, before, after, ItemPlacement, siblings, place_before, place_after, place_beside,
  place_relative, midpoint_or_rebalance, determine_item_placement_position,
}
use edupay_academico.Ordering.Placement.Lands.{Lands, midpoint_or_rebalance-Lands}

-- The new neighbours after a rebalance leave room.
room_between :
    (k : ℕ) → (compute_midpoint (some (k * 1024)) (some ((k + 1) * 1024))).needs_rebalance ≡ false
unfolding compute_midpoint
room_between k = ground arith

room_first : (compute_midpoint none (some ((0 + 1) * 1024))).needs_rebalance ≡ false
unfolding compute_midpoint
room_first = ground arith

room_after :
    (k : ℕ)
    → (compute_midpoint (some ((k + 1) * 1024)) (some ((k + 2) * 1024))).needs_rebalance ≡ false
unfolding compute_midpoint
room_after k = ground arith

room_last : (k : ℕ) → (compute_midpoint (some k) none).needs_rebalance ≡ false
unfolding compute_midpoint
room_last k = refl

-- What the two branches pass on, by the neighbours that they find.
module _ (db : OrderBy) (tenant target : ℕ) (table items : List Row) (k : ℕ) where
  pub place_before-eq :
      (p r : Row)
      → get_elem? items k ≡ some p
      → get_elem? items (suc k) ≡ some r
      → place_before db tenant target table items (suc k)
        ≡ midpoint_or_rebalance db tenant target table
            (some p.sort_order)
            (some r.sort_order)
            (some (suc k * 1024))
            (some ((suc k + 1) * 1024))
  unfolding place_before
  place_before-eq p r at_k e =
      let e' : suc k - 1 ≡ k = omega arith in
      let t : ltb 0 (suc k) ≡ true = ground arith in rw (e, e', t, at_k, place_before)

  place_after-eq :
      (r q : Row)
      → get_elem? items k ≡ some r
      → get_elem? items (k + 1) ≡ some q
      → place_after db tenant target table items k
        ≡ midpoint_or_rebalance db tenant target table
            (some r.sort_order)
            (some q.sort_order)
            (some ((k + 1) * 1024))
            (some ((k + 2) * 1024))
  unfolding place_after
  place_after-eq r q e at_next =
      let inside : ltb k (length items - 1) ≡ true =
        ground (arith, get_elem?-lt items (k + 1) at_next) in
      rw (e, inside, at_next, place_after)

  place_after-last :
      (r : Row)
      → get_elem? items k ≡ some r
      → get_elem? items (k + 1) ≡ none
      → place_after db tenant target table items k
        ≡ midpoint_or_rebalance db tenant target table
            (some r.sort_order)
            none
            (some ((k + 1) * 1024))
            none
  unfolding place_after
  place_after-last r e at_end =
      let outside : ltb k (length items - 1) ≡ false =
        elim (Bool-cases (ltb k (length items - 1))) [
          | inl t ↦ let (q, at_q) = get_elem?-some items (k + 1) (ground arith) in cc
          | inr f ↦ f
        ] in
      rw (e, outside, place_after)

module _ (db : OrderBy) (tenant target : ℕ) (table : List Row) (keys : HasKeys table) where
  items : List Row
  items = find_many db tenant target table

  items-IsSorted : IsSorted items
  unfolding items
  items-IsSorted = db.sort-IsSorted _

  place_before-Lands :
      (k : ℕ) (r : Row)
      → get_elem? items k ≡ some r
      → Lands tenant target items k (place_before db tenant target table items k)
  unfolding place_before items
  place_before-Lands zero r e =
      rw (e, place_before)
        (midpoint_or_rebalance-Lands db tenant target table keys 0 none (some r.sort_order) none
          (some ((0 + 1) * 1024))
          (λ j s at. (
            λ lt. absurd (omega arith),
            λ le. (r.sort_order, refl, sorted_le items 0 j r s items-IsSorted e at le),
          ))
          (λ j s at. (λ lt. absurd (omega arith), λ le. ((0 + 1) * 1024, refl, omega arith)))
          room_first)
  place_before-Lands (suc k) r e =
      let (p, at_k) = get_elem?-below items k (suc k) e (omega arith) in
      rw (place_before-eq db tenant target table items k p r at_k e) (
        midpoint_or_rebalance-Lands db tenant target table keys (suc k) (some p.sort_order)
          (some r.sort_order) (some (suc k * 1024)) (some ((suc k + 1) * 1024))
          (λ j s at. (
            λ lt.
                (p.sort_order, refl, sorted_le items j k s p items-IsSorted at at_k (omega arith)),
            λ le. (r.sort_order, refl, sorted_le items (suc k) j r s items-IsSorted e at le),
          ))
          (λ j s at. (
            λ lt. (suc k * 1024, refl, omega arith),
            λ le. ((suc k + 1) * 1024, refl, omega arith),
          ))
          (room_between (suc k)))

  place_after-Lands :
      (k : ℕ) (r : Row)
      → get_elem? items k ≡ some r
      → Lands tenant target items (k + 1) (place_after db tenant target table items k)
  unfolding items
  place_after-Lands k r e = elim (Option-cases (get_elem? items (k + 1))) [
    | inl last ↦ rw (place_after-last db tenant target table items k r e last) (
        midpoint_or_rebalance-Lands db tenant target table keys (k + 1) (some r.sort_order) none
          (some ((k + 1) * 1024)) none
          (λ j s at. (
            λ lt. (r.sort_order, refl, sorted_le items j k s r items-IsSorted at e (omega arith)),
            λ le. absurd (beyond j s at last le),
          ))
          (λ j s at.
            (λ lt. ((k + 1) * 1024, refl, omega arith), λ le. absurd (beyond j s at last le)))
          (room_last ((k + 1) * 1024)))
    | inr (q, at_next) ↦ rw (place_after-eq db tenant target table items k r q e at_next) (
        midpoint_or_rebalance-Lands db tenant target table keys (k + 1) (some r.sort_order)
          (some q.sort_order) (some ((k + 1) * 1024)) (some ((k + 2) * 1024))
          (λ j s at. (
            λ lt. (r.sort_order, refl, sorted_le items j k s r items-IsSorted at e (omega arith)),
            λ le. (q.sort_order, refl, sorted_le items (k + 1) j q s items-IsSorted at_next at le),
          ))
          (λ j s at.
            (λ lt. ((k + 1) * 1024, refl, omega arith), λ le. ((k + 2) * 1024, refl, omega arith)))
          (room_after k))
  ]
    where
      beyond :
          (j : ℕ) (s : Row)
          → get_elem? items j ≡ some s
          → get_elem? items (k + 1) ≡ none
          → k + 1 ≤ j
          → ⊥
      beyond j s at last le = let (b, at_b) = get_elem?-below items (k + 1) j at le in cc

-- The number of the listed rows that stand before the new place.
abbrev pub gap_of : Option Position → ℕ → ℕ
gap_of (some before) k = k
gap_of (some after) k = k + 1
gap_of none k = k + 1

-- Where the excluded item is not in the target unit, the queries with and without it agree.
siblings-eq :
    (tenant target : ℕ) (exclude : Option ℕ) (table : List Row)
    → All (λ r. in_parent tenant target r ≡ true → not_excluded exclude r ≡ true) table
    → siblings tenant target exclude table ≡ filter (in_parent tenant target) table
unfolding siblings
siblings-eq tenant target exclude [] h = refl
siblings-eq tenant target exclude (r ∷ table) (h, hs) =
    elim (Bool-cases (in_parent tenant target r)) [
      | inl e ↦ rw (e, h e) (ap (◌∷◌ r) (siblings-eq tenant target exclude table hs))
      | inr e ↦ rw e (siblings-eq tenant target exclude table hs)
    ]

place-get_elem? :
    (id : ℕ) (items : List Row) (k : ℕ)
    → place id items ≡ some k
    → (r : Row) × (get_elem? items k ≡ some r)
place-get_elem? id [] k e = cc
place-get_elem? id (r ∷ items) k e = elim (Bool-cases (r.id == id)) [
  | inl here ↦ (r, ground (arith, here))
  | inr there ↦ elim (Option-cases (place id items)) [
    | inl absent ↦ ground (arith, there, absent)
    | inr (j, at_j) ↦
        let (s, at_s) = place-get_elem? id items j at_j in (s, ground (arith, there, at_j, at_s))
  ]
]

module _ (db : OrderBy) (tenant target : ℕ) (table : List Row) (keys : HasKeys table) where
  place_beside-Lands :
      (position : Option Position) (k : ℕ) (r : Row)
      → get_elem? (find_many db tenant target table) k ≡ some r
      → Lands tenant target
          (find_many db tenant target table)
          (gap_of position k)
          (place_beside db tenant target position table (find_many db tenant target table) k)
  unfolding place_beside items
  place_beside-Lands (some before) k r e = place_before-Lands db tenant target table keys k r e
  place_beside-Lands (some after) k r e = place_after-Lands db tenant target table keys k r e
  place_beside-Lands none k r e = place_after-Lands db tenant target table keys k r e

  -- A placement beside a listed item, where the item that is placed is not in the target unit yet:
  -- in the resulting table, the rows of the unit that stand before the target in the listing have
  -- a smaller sort order than the new position, and all others of the unit have a greater one.
  -- The target is just before the related item for BEFORE, and just after it otherwise.
  pub determine-Lands :
      (placement : ItemPlacement) (id k : ℕ) (exclude : Option ℕ)
      → placement.relative_to_id ≡ some id
      → All (λ r. in_parent tenant target r ≡ true → not_excluded exclude r ≡ true) table
      → place id (find_many db tenant target table) ≡ some k
      → Lands tenant target
          (find_many db tenant target table)
          (gap_of placement.position k)
          (determine_item_placement_position db tenant target (some placement) exclude table)
  unfolding determine_item_placement_position place_relative
  determine-Lands placement id k exclude e outside at_k =
      let (r, at_r) = place-get_elem? id (find_many db tenant target table) k at_k in
      let same = siblings-eq tenant target exclude table outside in
      let at_k' : place id (db.sort (siblings tenant target exclude table)) ≡ some k =
        rw same at_k in
      rw (e, at_k', determine_item_placement_position, place_relative)
        (rw same (place_beside-Lands placement.position k r at_r))
