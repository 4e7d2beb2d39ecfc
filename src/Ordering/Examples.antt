-- ===== src/Ordering/Examples.antt =====
-- Tests of the ordering service, and its theorems at concrete tables.
use edupay_academico.Prelude.{
  ◌<◌, ◌≤◌, ℕ, ◌≡◌, ◌↔◌, refl, true, some, none, List, [], ◌∷◌, map, All, arith,
}
use edupay_academico.Ordering.{compute_midpoint, compute_next_end_position}
use edupay_academico.Ordering.Bounds.{Above, Under, midpoint_between, needs_rebalance_iff}
use edupay_academico.Ordering.Rows.{Row, HasKeys}
use edupay_academico.Ordering.Rebalance.{rebalance_from, find_many, rebalance_unit_items}
use edupay_academico.Ordering.Rebalance.Respaced.{respaced}
use edupay_academico.Ordering.Rebalance.Table.{numbered, rebalance_unit_items_lem}
use edupay_academico.Ordering.Placement.{
  before, siblings, ItemPlacement, determine_item_placement_position,
}
use edupay_academico.Ordering.Placement.Lands.{Lands}
use edupay_academico.Ordering.Placement.Target.{determine-Lands}
use edupay_academico.Ordering.Placement.SameUnit.{same_unit_move_misplaced}
use edupay_academico.Ordering.InsertionSort.{sorting_database}

-- Tenant 1 has the items 11, 12, 13 in unit 5, without room between 12 and 13, and the item 14 in
-- unit 6; tenant 2 has an item of its own with the id 12.
abbrev item : ℕ → ℕ → ℕ → ℕ → Row
item tenant id unit position = record {
  tenant_id = tenant;
  id = id;
  parent_id = unit;
  sort_order = position;
}

abbrev table : List Row
table = item 1 13 5 8 ∷ item 1 11 5 3 ∷ item 2 12 5 7 ∷ item 1 12 5 7 ∷ item 1 14 6 9 ∷ []

table-HasKeys : HasKeys table
table-HasKeys = ground arith

abbrev beside : ℕ → ItemPlacement
beside id = record { relative_to_id = some id; position = some before }

abbrev crowded : List Row × ℕ
crowded = determine_item_placement_position sorting_database 1 5 (some (beside 13)) (some 14) table

ordering : Unit {0}
unfolding determine_item_placement_position siblings rebalance_unit_items rebalance_from
    compute_midpoint
ordering = tt

crowded_test : crowded ≡ (
  item 1 13 5 3072 ∷ item 1 11 5 1024 ∷ item 2 12 5 7 ∷ item 1 12 5 2048 ∷ item 1 14 6 9 ∷ [],
  2560,
)
unfolding ordering
crowded_test = refl

midpoint_tests :
    ((compute_midpoint none (some 2)).position ≡ 1) × (compute_next_end_position (some 500) ≡ 1524)
unfolding compute_midpoint compute_next_end_position
midpoint_tests = (refl, refl)

midpoint_between_example :
    Above (some 1024) (compute_midpoint (some 1024) (some 2048)).position
    × Under (compute_midpoint (some 1024) (some 2048)).position (some 2048)
    × (1 ≤ (compute_midpoint (some 1024) (some 2048)).position)
unfolding compute_midpoint
midpoint_between_example = midpoint_between (some 1024) (some 2048) refl

needs_rebalance_iff_example :
    ((compute_midpoint (some 100) (some 101)).needs_rebalance ≡ true)
    ↔ ((p : ℕ) → 1 ≤ p → Above (some 100) p → Under p (some 101) → ⊥)
needs_rebalance_iff_example = needs_rebalance_iff (some 100) (some 101)

rebalance_unit_items_example : rebalance_unit_items sorting_database 1 5 table ≡ (
  map (respaced 1 0 (find_many sorting_database 1 5 table)) table,
  numbered 0 (find_many sorting_database 1 5 table),
)
rebalance_unit_items_example = rebalance_unit_items_lem sorting_database 1 5 table table-HasKeys

determine-Lands_example : Lands 1 5 (find_many sorting_database 1 5 table) 2 crowded
determine-Lands_example =
    determine-Lands sorting_database 1 5 table table-HasKeys (beside 13) 13 2 (some 14) refl
      (ground arith) refl

-- Moving 11 before 13 returns 1536, while 12 goes from 7 to 2048: 11 stays before 12.
same_unit_move_misplaced_example :
    All
      (λ s.
        s.tenant_id ≡ 1
        → s.id ≡ 12
        → (determine_item_placement_position sorting_database 1 5
            (some (beside 13))
            (some 11)
            table).1
          < s.sort_order)
      (determine_item_placement_position sorting_database 1 5 (some (beside 13)) (some 11) table).0
unfolding ordering
same_unit_move_misplaced_example =
    same_unit_move_misplaced sorting_database 1 5 table table-HasKeys (beside 13) 13 11 0 1
      (item 1 12 5 7) (item 1 13 5 8) refl refl refl refl refl refl (omega arith) refl
