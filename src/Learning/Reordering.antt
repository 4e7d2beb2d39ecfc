-- ===== src/Learning/Reordering.antt =====
-- `reorderItems` of apps/api/src/learning/learning.service.ts.
use edupay_academico.Prelude.{
  ℕ, ◌+◌, ◌*◌, Bool, not, Option, List, [], ◌∷◌, map, Text, text_eq, ◌&&◌, ◌||◌, ◌==◌, ◌!=◌, find,
  any, filter, length, includes, Result, ok, err, ◌>>=◌, ◌>>◌, require, require_some, if◌then◌else◌,
}
use edupay_academico.Ordering.{sparse_order_step}
use edupay_academico.Learning.{
  LearningItem, State, Refusal, not_found, stale_revision, RequestContext, manager_scope,
  require_course_subject_for_mutation, reordered,
}
use edupay_academico.Learning.Writes.{is_unit, version_fits, bump_unit, update_recorded}
use edupay_academico.Learning.Commands.{School, actor_of}

unfoldable pub require_exact_set : (actual requested : List ℕ) → Result Refusal (Unit {0})
require_exact_set actual requested =
    if length actual != length requested || any (λ id. not (includes requested id)) actual
    then err not_found
    else ok tt

module _ {C : Type 0} where
  abbrev pub at_position : ℕ → LearningItem C → LearningItem C
  at_position index i = record i { sort_order = (index + 1) * sparse_order_step }

  -- The loop over `orderedIds.entries()`, from an index on
  unfoldable pub place_from :
      (actor tenant_id : Text) → (index : ℕ) → List ℕ → State C → Result Refusal (State C)
  unfolding update_recorded
  place_from actor tenant_id index [] s = ok s
  place_from actor tenant_id index (id ∷ ids) s = do
    updated ← update_recorded reordered actor tenant_id id (at_position index) s
    place_from actor tenant_id (index + 1) ids updated.1

  abbrev pub in_unit : Text → ℕ → LearningItem C → Bool
  in_unit tenant_id unit_id i = text_eq i.tenant_id tenant_id && i.learning_unit_id == unit_id

  abbrev pub ids_of_unit : Text → ℕ → State C → List ℕ
  ids_of_unit tenant_id unit_id s = map LearningItem.id (filter (in_unit tenant_id unit_id) s.items)

  unfoldable pub reorder_action :
      (actor tenant_id : Text)
      → (unit_id : ℕ) → Option ℕ
      → (ordered_ids : List ℕ) → State C
      → Result Refusal (State C)
  unfolding bump_unit require_exact_set place_from
  reorder_action actor tenant_id unit_id expected ordered_ids s = do
    gated ← bump_unit tenant_id unit_id expected s
    require_exact_set (ids_of_unit tenant_id unit_id gated) ordered_ids
    place_from actor tenant_id 0 ordered_ids gated

  -- `order_by` is the sorting of the items that are returned.
  unfoldable pub reorder_items :
      School
      → RequestContext
      → (meanwhile : State C → State C) → (order_by : List (LearningItem C) → List (LearningItem C))
      → (unit_id : ℕ) → (expected_order_revision : Option ℕ) → (ordered_ids : List ℕ) → State C
      → Result Refusal (List (LearningItem C) × State C)
  unfolding reorder_action
  reorder_items school context meanwhile order_by unit_id expected ordered_ids s = do
    tenant_id ← manager_scope context
    unit ← require_some not_found (find (is_unit tenant_id unit_id) s.units)
    require_course_subject_for_mutation school.academic context tenant_id unit.course_subject_id
        school.subjects
    require stale_revision (version_fits expected unit.version)
    done ← reorder_action (actor_of context) tenant_id unit_id expected ordered_ids (meanwhile s)
    ok (order_by (filter (in_unit tenant_id unit_id) done.items), done)
