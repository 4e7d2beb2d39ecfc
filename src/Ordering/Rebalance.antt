-- ===== src/Ordering/Rebalance.antt =====
-- apps/api/src/learning/ordering/sparse-ordering.service.ts, the two rebalances.
pub mod Respaced
pub mod Table
use edupay_academico.Prelude.{ℕ, ◌+◌, ◌*◌, ◌≡◌, List, [], ◌∷◌, ◌!=◌, filter, if◌then◌else◌}
use edupay_academico.Ordering.{sparse_order_step}
use edupay_academico.Ordering.Rows.{Row, OrderBy, in_parent, update}

module _ (db : OrderBy) where
  -- `findMany({ where: { tenantId, learningUnitId }, orderBy: … })`
  abbrev pub find_many : ℕ → ℕ → List Row → List Row
  find_many tenant parent table = db.sort (filter (in_parent tenant parent) table)

-- The loop over the listing, from its row number `index` on: the table after it, and the pairs
-- put into `positions`.
unfoldable pub rebalance_from : ℕ → ℕ → List Row → List Row → List Row × List (ℕ × ℕ)
rebalance_from tenant index [] table = (table, [])
rebalance_from tenant index (item ∷ items) table =
    let new_sort_order = (index + 1) * sparse_order_step in
    let written =
      if item.sort_order != new_sort_order
      then update tenant item.id new_sort_order table
      else table in
    let (table', positions) = rebalance_from tenant (index + 1) items written in
    (table', (item.id, new_sort_order) ∷ positions)

module _ (db : OrderBy) where
  unfoldable pub rebalance_unit_items : ℕ → ℕ → List Row → List Row × List (ℕ × ℕ)
  rebalance_unit_items tenant learning_unit_id items =
      rebalance_from tenant 0 (find_many db tenant learning_unit_id items) items

  unfoldable pub rebalance_course_subject_units : ℕ → ℕ → List Row → List Row × List (ℕ × ℕ)
  rebalance_course_subject_units tenant course_subject_id units =
      rebalance_from tenant 0 (find_many db tenant course_subject_id units) units
