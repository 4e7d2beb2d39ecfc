-- ===== src/Learning/Commands.antt =====
-- The commands on one item of apps/api/src/learning/learning.service.ts. A command checks the item
-- as it was read, then runs its action in the transaction of the command service; what others have
-- written in between is `meanwhile`. Audit lines are left out.
use edupay_academico.Prelude.{
  ℕ, Bool, true, false, not, Option, none, some, List, ◌∷◌, Text, text_eq, ◌&&◌, ◌||◌, ◌==◌, leb,
  find, any, filter, Result, ok, ◌>>=◌, ◌>>◌, require, require_some, if◌then◌else◌,
}
use edupay_academico.Visibility.{PublicationStatus, is_archived, is_published, is_scheduled}
use edupay_academico.Submissions.Query.{Academic, ItemType, material}
use edupay_academico.Learning.{
  LearningItem, LearningItemDraft, State, Refusal, not_found, conflict, CourseSubjectStatus,
  RequestContext, manager_scope, require_course_subject_for_mutation, scheduled, published,
  unpublished, archived, draft_discarded, restored,
}
use edupay_academico.Learning.Writes.{
  is_item, update_item_row, record_revision, update_recorded, update_versioned,
}

-- What a command knows of the school: its academic rows and the subjects' status.
pub record School : Type 0 where
  pub academic : Academic
  pub subjects : List CourseSubjectStatus

abbrev pub is_draft : PublicationStatus → Bool
is_draft PublicationStatus.draft = true
is_draft _ = false

abbrev pub is_material : ItemType → Bool
is_material material = true
is_material _ = false

-- `!current.publishAt || current.publishAt.getTime() !== publishAt.getTime()`
abbrev pub moves_to : ℕ → Option ℕ → Bool
moves_to publish_at none = true
moves_to publish_at (some at) = not (at == publish_at)

abbrev pub actor_of : RequestContext → Text
actor_of context = context.principal.identity_user_id

module _ {C : Type 0} where
  -- The item that a command is about, where the actor may change it.
  unfoldable pub require_item :
      School → RequestContext → ℕ → State C → Result Refusal (Text × LearningItem C)
  require_item school context id s = do
    tenant_id ← manager_scope context
    current ← require_some not_found (find (is_item tenant_id id) s.items)
    require_course_subject_for_mutation school.academic context tenant_id current.course_subject_id
        school.subjects
    ok (tenant_id, current)

  abbrev pub to_scheduled : ℕ → LearningItem C → LearningItem C
  to_scheduled publish_at i = record i {
    publication_status = PublicationStatus.scheduled;
    publish_at = some publish_at;
    published_at = none;
    published_by = none;
  }

  abbrev pub to_published : ℕ → Text → LearningItem C → LearningItem C
  to_published now actor i = record i {
    publication_status = PublicationStatus.published;
    publish_at = none;
    published_at = some now;
    published_by = some actor;
  }

  abbrev pub to_archived : LearningItem C → LearningItem C
  to_archived i = record i { publication_status = PublicationStatus.archived }

  abbrev pub to_restored : LearningItem C → LearningItem C
  to_restored i = record i { publication_status = PublicationStatus.draft; publish_at = none }

  abbrev pub to_unpublished : LearningItem C → LearningItem C
  to_unpublished i = record i {
    publication_status = PublicationStatus.draft;
    publish_at = none;
    published_at = none;
    published_by = none;
  }

module _ {C : Type 0} (school : School) (context : RequestContext)
    (meanwhile : State C → State C) where
  unfoldable pub schedule_item :
      (id publish_at now : ℕ) (expected_revision : Option ℕ) (confirmed : Bool)
      → State C
      → Result Refusal (LearningItem C × State C)
  unfolding require_item update_versioned
  schedule_item id publish_at now expected confirmed s = do
    found ← require_item school context id s
    let current = found.1
    require conflict (not (is_archived current.publication_status))
    require conflict (not (is_published current.publication_status))
    require conflict (not (leb publish_at now))
    require conflict (
        not (is_scheduled current.publication_status && moves_to publish_at current.publish_at)
        || confirmed)
    update_versioned scheduled (actor_of context) found.0 id expected (to_scheduled publish_at)
        (meanwhile s)

  -- The intent of notifying the students; material is published silently.
  unfoldable pub notify_published : ℕ → LearningItem C → State C → State C
  notify_published now i s = if is_material i.type then s else record s {
    intents =
        record {
          tenant_id = i.tenant_id;
          learning_item_id = i.id;
          type = i.type;
          occurred_at = now;
        }
        ∷ s.intents;
  }

  unfoldable pub publish_action :
      (tenant_id : Text) (id now : ℕ) → State C → Result Refusal (LearningItem C × State C)
  unfolding update_item_row notify_published record_revision
  publish_action tenant_id id now s = do
    updated ← update_item_row tenant_id id (to_published now (actor_of context)) s
    recorded ←
        record_revision
          (record {
            tenant_id = updated.0.tenant_id;
            entity_id = updated.0.id;
            revision_number = updated.0.version;
            operation = published;
            snapshot = some updated.0;
            actor = actor_of context;
          })
          (notify_published now updated.0 updated.1)
    ok (updated.0, recorded)

  unfoldable pub publish_item : (id now : ℕ) → State C → Result Refusal (LearningItem C × State C)
  unfolding require_item publish_action
  publish_item id now s = do
    found ← require_item school context id s
    require conflict (not (is_archived found.1.publication_status))
    if is_published found.1.publication_status
        then ok (found.1, s)
        else publish_action found.0 id now (meanwhile s)

  unfoldable pub archive_item : ℕ → State C → Result Refusal (LearningItem C × State C)
  unfolding require_item update_recorded
  archive_item id s = do
    found ← require_item school context id s
    if is_archived found.1.publication_status
        then ok (found.1, s)
        else update_recorded archived (actor_of context) found.0 id to_archived (meanwhile s)

  unfoldable pub restore_archived_item : ℕ → State C → Result Refusal (LearningItem C × State C)
  unfolding require_item update_recorded
  restore_archived_item id s = do
    found ← require_item school context id s
    if not (is_archived found.1.publication_status)
        then ok (found.1, s)
        else update_recorded restored (actor_of context) found.0 id to_restored (meanwhile s)

  unfoldable pub unpublish_item : ℕ → State C → Result Refusal (LearningItem C × State C)
  unfolding require_item update_recorded
  unpublish_item id s = do
    found ← require_item school context id s
    require conflict (not (is_archived found.1.publication_status))
    if is_draft found.1.publication_status
        then ok (found.1, s)
        else update_recorded unpublished (actor_of context) found.0 id to_unpublished (meanwhile s)

  abbrev pub is_draft_of : Text → ℕ → LearningItemDraft C → Bool
  is_draft_of tenant_id id d = text_eq d.tenant_id tenant_id && d.learning_item_id == id

  unfoldable pub discard_action : (tenant_id : Text) (id : ℕ) → State C → Result Refusal (State C)
  unfolding update_item_row record_revision
  discard_action tenant_id id s = if not (any (is_draft_of tenant_id id) s.drafts) then ok s else do
    updated ←
        update_item_row tenant_id id (λ i. i)
          (record s { drafts = filter (λ d. not (is_draft_of tenant_id id d)) s.drafts })
    record_revision
        (record {
          tenant_id = tenant_id;
          entity_id = id;
          revision_number = updated.0.version;
          operation = draft_discarded;
          snapshot = none;
          actor = actor_of context;
        })
        updated.1

  unfoldable pub discard_draft : ℕ → State C → Result Refusal (State C)
  unfolding require_item discard_action
  discard_draft id s = do
    found ← require_item school context id s
    discard_action found.0 id (meanwhile s)

  -- `work` counts the submissions to the item.
  unfoldable pub delete_item : (id work : ℕ) → State C → Result Refusal (State C)
  unfolding require_item
  delete_item id work s = do
    found ← require_item school context id s
    require conflict (work == 0)
    let s' = meanwhile s
    i ← require_some not_found (find (is_item found.0 id) s'.items)
    ok (record s' {
      drafts = filter (λ d. not (is_draft_of found.0 id d)) s'.drafts;
      items = filter (λ i. not (is_item found.0 id i)) s'.items;
    })
