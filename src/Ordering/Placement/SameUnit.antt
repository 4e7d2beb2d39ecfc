-- ===== src/Ordering/Placement/SameUnit.antt =====
-- A move within one unit: the listing that the new neighbours are counted in leaves the moved item
-- out, and the rebalance renumbers it.
use edupay_academico.Prelude.{
  ℕ, suc, ◌+◌, ◌*◌, ◌<◌, ◌≡◌, true, some, List, get_elem?, All, for_each, All-map, arith,
  Option-cases, inl, inr,
}
use edupay_academico.Ordering.{compute_midpoint}
use edupay_academico.Ordering.Rows.{Row, OrderBy, HasKeys, place}
use edupay_academico.Ordering.Rebalance.{find_many}
use edupay_academico.Ordering.Rebalance.Respaced.{respaced}
use edupay_academico.Ordering.Rebalance.Table.{rebalance_unit_items_lem}
use edupay_academico.Ordering.Placement.{
  before, ItemPlacement, siblings, midpoint_or_rebalance, place_beside, place_relative,
  determine_item_placement_position,
}
use edupay_academico.Ordering.Placement.Target.{place_before-eq}

new_position :
    (k : ℕ)
    → (compute_midpoint (some (suc k * 1024)) (some ((suc k + 1) * 1024))).position
      < (suc k + 1) * 1024
unfolding compute_midpoint
new_position k = ground arith

renumbered :
    (tenant id j : ℕ) (items : List Row) (s : Row)
    → place id items ≡ some j
    → (respaced tenant 0 items s).tenant_id ≡ tenant
    → (respaced tenant 0 items s).id ≡ id
    → (respaced tenant 0 items s).sort_order ≡ (j + 1) * 1024
renumbered tenant id j items s at own same = elim (Option-cases (place s.id items)) [
  | inl e ↦ ground (arith, e)
  | inr (i, e) ↦ ground (arith, e)
]

module _ (db : OrderBy) (tenant target : ℕ) (table : List Row) (keys : HasKeys table) where
  abbrev full : List Row
  full = find_many db tenant target table

  -- The moved item is in the target unit, the related item is at place k + 1 of the listing without
  -- it, its predecessor there, p, has a place j > k in the listing of the whole unit, as is the
  -- case when the moved item stands before p, and the two leave no room. Then the call for BEFORE
  -- returns a position below the sort order that p has in the resulting table: the item lands
  -- before p, and not between p and the related item.
  pub same_unit_move_misplaced :
      (placement : ItemPlacement) (id moved k j : ℕ) (p r : Row)
      → placement.relative_to_id ≡ some id
      → placement.position ≡ some before
      → place id (db.sort (siblings tenant target (some moved) table)) ≡ some (suc k)
      → get_elem? (db.sort (siblings tenant target (some moved) table)) k ≡ some p
      → get_elem? (db.sort (siblings tenant target (some moved) table)) (suc k) ≡ some r
      → place p.id (find_many db tenant target table) ≡ some j
      → k < j
      → (compute_midpoint (some p.sort_order) (some r.sort_order)).needs_rebalance ≡ true
      → All
          (λ s.
            s.tenant_id ≡ tenant
            → s.id ≡ p.id
            → (determine_item_placement_position db tenant target
                (some placement)
                (some moved)
                table).1
              < s.sort_order)
          (determine_item_placement_position db tenant target (some placement) (some moved) table).0
  unfolding determine_item_placement_position place_relative place_beside midpoint_or_rebalance
  same_unit_move_misplaced placement id moved k j p r e b at_id at_p at_r at_j lt full_gap =
      let items = db.sort (siblings tenant target (some moved) table) in
      rw
        (
          e,
          at_id,
          b,
          place_before-eq db tenant target table items k p r at_p at_r,
          full_gap,
          rebalance_unit_items_lem db tenant target table keys,
          determine_item_placement_position,
          place_relative,
          place_beside,
          midpoint_or_rebalance,
        )
        (All-map _ (respaced tenant 0 full) table (
          for_each
            (λ s own same.
              omega (arith, renumbered tenant p.id j full s at_j own same, new_position k))
            table))
