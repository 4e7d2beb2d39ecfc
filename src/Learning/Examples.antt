-- ===== src/Learning/Examples.antt =====
-- Tests of the commands on learning items, and the theorems for two items of one unit.
use edupay_academico.Prelude.{
  ℕ, ◌+◌, ◌*◌, ◌≡◌, refl, true, none, some, List, [], ◌∷◌, Text, map, ok, err, get_elem?, arith,
}
use mathlib.Core.List.{Perm}
use edupay_academico.Access.{tenant_admin, require_capability, require_trusted_tenant}
use edupay_academico.Visibility.{PublicationStatus}
use edupay_academico.Preparation.{YearStatus}
use edupay_academico.Ordering.{sparse_order_step}
use edupay_academico.Submissions.Query.{assignment}
use edupay_academico.Learning.{
  LearningItem, ContentRevision, UnitStatus, State, RequestContext, CourseStatus, conflict,
  stale_revision, not_found, reordered, manager_scope, require_course_subject_for_mutation,
  require_course_subject_read, require_academic_year_mutable,
}
use edupay_academico.Learning.Writes.{
  revision_of, update_item_row, apply_versioned_item_update, bump_unit, record_revision,
  update_recorded,
}
use edupay_academico.Learning.Commands.{
  School, require_item, schedule_item, publish_item, publish_action, notify_published, archive_item,
}
use edupay_academico.Learning.Reordering.{
  require_exact_set, place_from, reorder_action, ids_of_unit,
}
use edupay_academico.Learning.Stale.{KeepsKey, HasKeys, same, apply_versioned_item_update-stale}
use edupay_academico.Learning.Chronicle.{Settles, Chronicled}
use edupay_academico.Learning.Kept.{publish, archive, execute, execute-Chronicled}
use edupay_academico.Learning.Positions.{StandsAt, reorder_action-positions}

abbrev item : LearningItem ℕ
item = record {
  tenant_id = b't' ∷ [];
  id = 1;
  course_subject_id = 5;
  learning_unit_id = 7;
  type = assignment;
  content = 0;
  sort_order = 1024;
  publication_status = PublicationStatus.draft;
  publish_at = none;
  published_at = none;
  published_by = none;
  version = 1;
}

abbrev second : LearningItem ℕ
second = record item { id = 2; sort_order = 2048 }

abbrev one : State ℕ
one = record {
  items = item ∷ second ∷ [];
  units =
      (record {
        tenant_id = b't' ∷ [];
        id = 7;
        course_subject_id = 5;
        status = UnitStatus.active;
        version = 1;
      })
      ∷ [];
  drafts = [];
  revisions = [];
  intents = [];
}

abbrev school : School
school = record {
  academic = record {
    students = [];
    teachers = [];
    items = [];
    course_subjects = [];
    assignments = [];
  };
  subjects =
      (record {
        tenant_id = b't' ∷ [];
        id = 5;
        is_active = true;
        course_status = CourseStatus.active;
        academic_year_status = YearStatus.active;
      })
      ∷ [];
}

abbrev admin : RequestContext
admin = record {
  principal = record {
    identity_user_id = b'u' ∷ [];
    session_id = b's' ∷ [];
    tenant_id = some (b't' ∷ []);
    membership_id = some (b'm' ∷ []);
    roles = tenant_admin ∷ [];
  };
  tenant = record {
    identity_user_id = b'u' ∷ [];
    tenant_id = b't' ∷ [];
    membership_id = b'm' ∷ [];
    roles = tenant_admin ∷ [];
    session_id = b's' ∷ [];
  };
}

one-HasKeys : HasKeys one
one-HasKeys t id = (λ h. (ground (arith, h), tt), (λ h. tt, tt))

one-Chronicled : Chronicled one
one-Chronicled = record { keys = one-HasKeys; covered = tt }

abbrev alone : State ℕ → State ℕ
alone s = s

-- The item is published by the time of an archiving that was checked before.
abbrev intrude : State ℕ → State ℕ
intrude s = record s {
  items =
      record item { version = 2; publication_status = PublicationStatus.published } ∷ second ∷ [];
}

abbrev changed : LearningItem ℕ
changed = record item { content = 9; version = 2 }

abbrev write : ℕ → LearningItem ℕ → LearningItem ℕ
write n i = record i { content = n }

abbrev two : State ℕ
two = record one { items = changed ∷ second ∷ [] }

writes : apply_versioned_item_update (b't' ∷ []) 1 (some 1) (write 9) one ≡ ok (changed, two)
unfolding apply_versioned_item_update
writes = refl

write-KeepsKey : (n : ℕ) → KeepsKey (write n)
write-KeepsKey n = record { tenant_id = λ i. refl; id = λ i. refl }

apply_versioned_item_update-stale_example :
    apply_versioned_item_update (b't' ∷ []) 1 (some 1) (write 4) two ≡ err stale_revision
apply_versioned_item_update-stale_example =
    apply_versioned_item_update-stale (b't' ∷ []) 1 1 (write 9) (write 4) one two two changed
      one-HasKeys (write-KeepsKey 9) writes same

abbrev by_id : List (LearningItem ℕ) → List (LearningItem ℕ)
by_id items = items

execute-Chronicled_example :
    Settles Chronicled (execute school admin alone by_id 100 (publish 1) one)
execute-Chronicled_example =
    execute-Chronicled school admin alone by_id 100 (publish 1) one (λ u h. h) one-Chronicled

-- Published: version 2, with the intent and the revision.
publishes :
    (r : State ℕ) × (execute school admin alone by_id 100 (publish 1) one ≡ ok r)
    × (map LearningItem.version r.items ≡ 2 ∷ 1 ∷ [])
    × (map ContentRevision.revision_number r.revisions ≡ 2 ∷ [])
unfolding publish_item require_item manager_scope require_capability require_trusted_tenant
    require_course_subject_for_mutation require_course_subject_read require_academic_year_mutable
    publish_action update_item_row notify_published record_revision
publishes = (_, refl, refl, refl)

-- What came between is not checked again: the item is archived as published.
archives_published :
    (r : State ℕ) × (execute school admin intrude by_id 100 (archive 1) one ≡ ok r)
    × (map LearningItem.version r.items ≡ 3 ∷ 1 ∷ [])
unfolding archive_item require_item manager_scope require_capability require_trusted_tenant
    require_course_subject_for_mutation require_course_subject_read require_academic_year_mutable
    update_recorded update_item_row record_revision
archives_published = (_, refl, refl)

-- The item is archived by the time of a publication that was checked before.
abbrev archive_first : State ℕ → State ℕ
archive_first s = record s {
  items =
      record item { version = 2; publication_status = PublicationStatus.archived } ∷ second ∷ [];
}

-- The archived item becomes published.
publishes_archived :
    (r : State ℕ) × (execute school admin archive_first by_id 100 (publish 1) one ≡ ok r)
    × (map LearningItem.publication_status r.items
        ≡ PublicationStatus.published ∷ PublicationStatus.draft ∷ [])
unfolding publish_item require_item manager_scope require_capability require_trusted_tenant
    require_course_subject_for_mutation require_course_subject_read require_academic_year_mutable
    publish_action update_item_row notify_published record_revision
publishes_archived = (_, refl, refl)

-- A moment that has come is refused.
too_late : schedule_item school admin alone 1 100 100 none true one ≡ err conflict
unfolding schedule_item require_item manager_scope require_capability require_trusted_tenant
    require_course_subject_for_mutation require_course_subject_read require_academic_year_mutable
too_late = refl

abbrev actor : Text
actor = b'u' ∷ []

abbrev swapped : State ℕ
swapped = record one {
  items =
      record item { sort_order = 2048; version = 2 }
      ∷ record second { sort_order = 1024; version = 2 }
      ∷ [];
  units =
      (record {
        tenant_id = b't' ∷ [];
        id = 7;
        course_subject_id = 5;
        status = UnitStatus.active;
        version = 2;
      })
      ∷ [];
  revisions =
      revision_of reordered actor (record item { sort_order = 2048; version = 2 })
      ∷ revision_of reordered actor (record second { sort_order = 1024; version = 2 })
      ∷ [];
}

swaps : reorder_action actor (b't' ∷ []) 7 (some 1) (2 ∷ 1 ∷ []) one ≡ ok swapped
unfolding reorder_action bump_unit require_exact_set place_from update_recorded update_item_row
    record_revision
swaps = refl

reorder_action-positions_example :
    Perm (2 ∷ 1 ∷ []) (ids_of_unit (b't' ∷ []) 7 one)
    × ((k id : ℕ)
        → get_elem? (2 ∷ 1 ∷ []) k ≡ some id
        → StandsAt (b't' ∷ []) id ((k + 1) * sparse_order_step) swapped)
reorder_action-positions_example =
    reorder_action-positions actor (b't' ∷ []) 7 (some 1) (2 ∷ 1 ∷ []) one swapped one-HasKeys swaps

stale_order : reorder_action actor (b't' ∷ []) 7 (some 1) (2 ∷ 1 ∷ []) swapped ≡ err stale_revision
unfolding reorder_action bump_unit
stale_order = refl

incomplete : reorder_action actor (b't' ∷ []) 7 none (2 ∷ []) one ≡ err not_found
unfolding reorder_action bump_unit require_exact_set
incomplete = refl
