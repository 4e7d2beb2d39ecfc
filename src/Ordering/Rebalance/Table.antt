-- ===== src/Ordering/Rebalance/Table.antt =====
-- A rebalance of a unit's items, or of a course subject's units, as one map over the table.
use edupay_academico.Prelude.{
  ℕ, ◌+◌, ◌*◌, ◌≡◌, refl, ap, ap₂, sym, ◌∙◌, true, List, [], ◌∷◌, map, All, All-imp, All-filter,
  All-filter_inv, arith,
}
use edupay_academico.Ordering.Rows.{Row, OrderBy, HasKeys, IsDistinct, in_parent}
use edupay_academico.Ordering.Keys.{
  HasKeys-agree, SameKeySameOrder, filter-IsDistinct, Listed, Listed-self,
}
use edupay_academico.Ordering.Rebalance.{
  find_many, rebalance_from, rebalance_unit_items, rebalance_course_subject_units,
}
use edupay_academico.Ordering.Rebalance.Respaced.{respaced, Agrees, rebalance_from_lem}

-- The ids of a listing with the new positions, from the row number `index` on.
abbrev pub numbered : ℕ → List Row → List (ℕ × ℕ)
numbered index [] = []
numbered index (item ∷ items) = (item.id, (index + 1) * 1024) ∷ numbered (index + 1) items

positions-eq :
    (tenant index : ℕ) (items table : List Row)
    → (rebalance_from tenant index items table).1 ≡ numbered index items
unfolding rebalance_from
positions-eq tenant index [] table = refl
positions-eq tenant index (item ∷ items) table =
    ap (◌∷◌ (item.id, (index + 1) * 1024)) (positions-eq tenant (index + 1) items _)

module _ (db : OrderBy) (tenant parent : ℕ) (table : List Row) (keys : HasKeys table) where
  own : (r : Row) → in_parent tenant parent r ≡ true → r.tenant_id ≡ tenant
  own r h = ground arith

  find_many-IsDistinct : IsDistinct (find_many db tenant parent table)
  find_many-IsDistinct =
      db.sort-IsDistinct _ (filter-IsDistinct tenant (in_parent tenant parent) table own keys)

  -- Every row of the unit is in the listing, at the place of its id.
  pub find_many-Listed :
      All
        (λ r. in_parent tenant parent r ≡ true → Listed (find_many db tenant parent table) r)
        table
  find_many-Listed = All-filter_inv _ (in_parent tenant parent) table (
      db.All-sort (Listed (find_many db tenant parent table)) _
        (Listed-self _ find_many-IsDistinct))

  find_many-Agrees : All (Agrees tenant (find_many db tenant parent table)) table
  find_many-Agrees =
      All-imp {P = λ r. All (SameKeySameOrder r) table}
        (λ r same. db.sort-All _ _ (
          All-imp {P = λ s. SameKeySameOrder r s × (in_parent tenant parent s ≡ true)}
            (λ s both t e. both.0 (own s both.1 ∙ sym t) e) _
            (All-filter (SameKeySameOrder r) (in_parent tenant parent) table same)))
        table (HasKeys-agree table keys)

  -- A rebalance gives every row of the unit, at place j from 0 of the listing, the sort order
  -- (j + 1) * 1024, changes nothing else in the table, and returns these positions.
  pub rebalance_unit_items_lem : rebalance_unit_items db tenant parent table ≡ (
    map (respaced tenant 0 (find_many db tenant parent table)) table,
    numbered 0 (find_many db tenant parent table),
  )
  unfolding rebalance_unit_items
  rebalance_unit_items_lem =
      ap₂ (λ a b. (a, b))
        (rebalance_from_lem tenant 0 _ table find_many-IsDistinct find_many-Agrees)
        (positions-eq tenant 0 _ table)

  -- The units of a course subject are renumbered in the same way.
  pub rebalance_course_subject_units_lem : rebalance_course_subject_units db tenant parent table ≡ (
    map (respaced tenant 0 (find_many db tenant parent table)) table,
    numbered 0 (find_many db tenant parent table),
  )
  unfolding rebalance_course_subject_units
  rebalance_course_subject_units_lem =
      ap₂ (λ a b. (a, b))
        (rebalance_from_lem tenant 0 _ table find_many-IsDistinct find_many-Agrees)
        (positions-eq tenant 0 _ table)
