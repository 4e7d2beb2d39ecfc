-- ===== src/Learning/Kept.antt =====
-- Every command on items of apps/api/src/learning/learning.service.ts keeps the history.
use edupay_academico.Prelude.{
  ℕ, ◌+◌, ◌==◌, refl, ap, ◌∙◌, Bool, not, Option, List, [], ◌∷◌, All-imp, Text, find, filter,
  Result, ok, ◌>>=◌, update_first,
}
use edupay_academico.Learning.{
  LearningItem, State, Refusal, stale_revision, not_found, RequestContext, published, reordered,
  archived, restored, unpublished, scheduled, conflict, LearningItemDraft,
}
use edupay_academico.Learning.Writes.{is_item, bump_unit, unit_fits, version_fits, is_unit}
use edupay_academico.Learning.Commands.{
  School, actor_of, schedule_item, to_scheduled, publish_action, publish_item, to_published,
  to_archived, to_restored, to_unpublished, notify_published, archive_item, restore_archived_item,
  unpublish_item, is_draft_of, discard_action, discard_draft, delete_item,
}
use edupay_academico.Learning.Reordering.{
  require_exact_set, at_position, place_from, reorder_action, reorder_items,
}
use edupay_academico.Prelude.Keys.{AtMostOne-filter, All-filter}
use edupay_academico.Learning.Stale.{update_item_row-eq-ok}
use edupay_academico.Learning.Chronicle.{
  Settles, settled, refused, bind-Settles, if-Settles, Chronicled, Covers, record_revision-Settles,
  revision_of-Settles, then-Settles, require-Settles, require_some-Settles, not_found_apart,
  conflict_apart, stale_revision_apart,
}
use edupay_academico.Learning.History.{
  require_item-Settles, manager_scope-Settles, require_course_subject_for_mutation-Settles,
  update_recorded-Settles, update_versioned-Settles, update_item_row_self, notify_published-keeps,
  keeping,
}

module _ {C : Type 0} (school : School) (c : RequestContext) (meanwhile : State C → State C) where
  publish_action-Settles :
      (t : Text) (id now : ℕ) (s : State C)
      → Chronicled s
      → Settles (λ u. Chronicled u.1) (publish_action school c meanwhile t id now s)
  unfolding publish_action
  publish_action-Settles t id now s h =
      bind-Settles (update_item_row_self t id (to_published now (actor_of c)) s) λ u e.
        let (i, there, u_eq, s_eq) =
          update_item_row-eq-ok t id (to_published now (actor_of c)) s e in
        let (items, revisions) = notify_published-keeps school c meanwhile now u.0 u.1 in
        bind-Settles
          (revision_of-Settles (to_published now (actor_of c))
            (record { tenant_id = λ i. refl; id = λ i. refl }) t id (is_item t id) (λ y k. k)
            published (actor_of c) i u.0 s (notify_published school c meanwhile now u.0 u.1) there
            u_eq (items ∙ ap State.items s_eq) (revisions ∙ ap State.revisions s_eq) h)
          (λ s' k. settled k)

  discard_action-Settles :
      (t : Text) (id : ℕ) (s : State C)
      → Chronicled s
      → Settles Chronicled (discard_action school c meanwhile t id s)
  unfolding discard_action
  discard_action-Settles t id s h = if-Settles _ (settled h) (
      bind-Settles (update_item_row_self t id (λ i. i) kept) λ u e.
        let (i, there, u_eq, s_eq) = update_item_row-eq-ok t id (λ i. i) kept e in
        record_revision-Settles (λ i. i) keeping t id (is_item t id) (λ y k. k) i _ s u.1 there
          (ap State.items s_eq) (ap State.revisions s_eq) refl refl (ap LearningItem.version u_eq)
          h)
    where
      kept : State C
      kept = record s {
        drafts = filter (λ d. not (is_draft_of school c meanwhile t id d)) s.drafts;
      }

require_exact_set-Settles :
    (actual requested : List ℕ) → Settles (λ _. Unit {0}) (require_exact_set actual requested)
unfolding require_exact_set
require_exact_set-Settles actual requested = if-Settles _ (refused not_found_apart) (settled tt)

module _ {C : Type 0} where
  place_from-Settles :
      (actor t : Text) (index : ℕ) (ids : List ℕ) (s : State C)
      → Chronicled s
      → Settles Chronicled (place_from actor t index ids s)
  unfolding place_from
  place_from-Settles actor t index [] s h = settled h
  place_from-Settles actor t index (id ∷ ids) s h =
      bind-Settles
        (update_recorded-Settles reordered actor t id (at_position index) s
          (record { tenant_id = λ i. refl; id = λ i. refl }) h)
        (λ u k. place_from-Settles actor t (index + 1) ids u.1 k)

  bump_unit-Settles :
      (t : Text) (unit_id : ℕ) (expected : Option ℕ) (s : State C)
      → Chronicled s
      → Settles Chronicled (bump_unit t unit_id expected s)
  unfolding bump_unit
  bump_unit-Settles t unit_id expected s h =
      bind-Settles
        {f = λ u. ok (record s {
          units =
              update_first (unit_fits t unit_id expected)
                (λ u. record u { version = u.version + 1 }) s.units;
        })}
        (require_some-Settles stale_revision (find (unit_fits t unit_id expected) s.units)
          stale_revision_apart)
        λ u e. settled (record { keys = h.keys; covered = h.covered })

  reorder_action-Settles :
      (actor t : Text) (unit_id : ℕ) (expected : Option ℕ) (ids : List ℕ) (s : State C)
      → Chronicled s
      → Settles Chronicled (reorder_action actor t unit_id expected ids s)
  unfolding reorder_action
  reorder_action-Settles actor t unit_id expected ids s h =
      bind-Settles (bump_unit-Settles t unit_id expected s h) λ gated k.
        bind-Settles (require_exact_set-Settles _ ids)
          λ _ _. place_from-Settles actor t 0 ids gated k

filtered :
    {C : Type 0} (q : LearningItem C → Bool) (s : State C) {drafts : List (LearningItemDraft C)}
    → Chronicled s
    → Chronicled (record s { drafts = drafts; items = filter q s.items })
filtered q s h = record {
  keys = λ t id. AtMostOne-filter (is_item t id) q s.items (h.keys t id);
  covered = All-imp (λ r k. All-filter (Covers r) q s.items k) s.revisions h.covered;
}

-- The commands on items, as the routes of the service take them.
pub data Command : Type 0 where
  schedule : (id publish_at : ℕ) → Option ℕ → (confirmed : Bool) → Command
  publish archive restore unpublish discard : ℕ → Command
  delete : (id work : ℕ) → Command
  reorder : (unit_id : ℕ) → Option ℕ → List ℕ → Command

abbrev pub execute :
    {C : Type 0}
    → School
    → RequestContext
    → (meanwhile : State C → State C) → (order_by : List (LearningItem C) → List (LearningItem C))
    → (now : ℕ) → Command
    → State C
    → Result Refusal (State C)
execute school c others order_by now (schedule id at expected confirmed) s = do
  r ← schedule_item school c others id at now expected confirmed s
  ok r.1
execute school c others order_by now (publish id) s = do
  r ← publish_item school c others id now s
  ok r.1
execute school c others order_by now (archive id) s = do
  r ← archive_item school c others id s
  ok r.1
execute school c others order_by now (restore id) s = do
  r ← restore_archived_item school c others id s
  ok r.1
execute school c others order_by now (unpublish id) s = do
  r ← unpublish_item school c others id s
  ok r.1
execute school c others order_by now (discard id) s = discard_draft school c others id s
execute school c others order_by now (delete id work) s = delete_item school c others id work s
execute school c others order_by now (reorder unit_id expected ids) s = do
  r ← reorder_items school c others order_by unit_id expected ids s
  ok r.1

-- Whatever the command, whoever asks and whatever history-keeping writes come between its check and
-- its action: where items have unique keys and no revision of an item has a number past the item's
-- version, a command that succeeds leaves that so, and none fails on the unique key of the revisions.
pub execute-Chronicled :
    {C : Type 0} (school : School) (c : RequestContext) (meanwhile : State C → State C)
    (order_by : List (LearningItem C) → List (LearningItem C)) (now : ℕ) (command : Command)
    (s : State C)
    → ((u : State C) → Chronicled u → Chronicled (meanwhile u))
    → Chronicled s
    → Settles Chronicled (execute school c meanwhile order_by now command s)
unfolding schedule_item publish_item archive_item restore_archived_item unpublish_item discard_draft
    delete_item reorder_items
execute-Chronicled school c m order_by now (schedule id at expected confirmed) s others h =
    bind-Settles
      (bind-Settles (require_item-Settles school c id s) λ found _.
        let kept =
          update_versioned-Settles scheduled (actor_of c) found.0 id expected (to_scheduled at)
            (m s) (record { tenant_id = λ i. refl; id = λ i. refl }) (others s h) in
        search (then-Settles, conflict_apart, kept) depth 10)
      (λ r k. settled k)
execute-Chronicled school c m order_by now (publish id) s others h =
    bind-Settles
      (bind-Settles (require_item-Settles school c id s) λ found _.
        let kept = publish_action-Settles school c m found.0 id now (m s) (others s h) in
        search (then-Settles, conflict_apart, if-Settles, settled, kept, h))
      (λ r k. settled k)
execute-Chronicled school c m order_by now (archive id) s others h =
    bind-Settles
      (bind-Settles (require_item-Settles school c id s) λ found _. if-Settles _ (settled h) (
        update_recorded-Settles archived (actor_of c) found.0 id to_archived (m s)
          (record { tenant_id = λ i. refl; id = λ i. refl }) (others s h)))
      (λ r k. settled k)
execute-Chronicled school c m order_by now (restore id) s others h =
    bind-Settles
      (bind-Settles (require_item-Settles school c id s) λ found _. if-Settles _ (settled h) (
        update_recorded-Settles restored (actor_of c) found.0 id to_restored (m s)
          (record { tenant_id = λ i. refl; id = λ i. refl }) (others s h)))
      (λ r k. settled k)
execute-Chronicled school c m order_by now (unpublish id) s others h =
    bind-Settles
      (bind-Settles (require_item-Settles school c id s) λ found _.
        let kept =
          update_recorded-Settles unpublished (actor_of c) found.0 id to_unpublished (m s)
            (record { tenant_id = λ i. refl; id = λ i. refl }) (others s h) in
        search (then-Settles, conflict_apart, if-Settles, settled, kept, h))
      (λ r k. settled k)
execute-Chronicled school c m order_by now (discard id) s others h =
    bind-Settles (require_item-Settles school c id s)
      λ found _. discard_action-Settles school c m found.0 id (m s) (others s h)
execute-Chronicled school c m order_by now (delete id work) s others h =
    bind-Settles (require_item-Settles school c id s) λ found _.
      bind-Settles (require-Settles conflict (work == 0) conflict_apart) λ _ _.
        bind-Settles
          (require_some-Settles not_found (find (is_item found.0 id) (m s).items) not_found_apart)
          λ i _. settled (filtered (λ i. not (is_item found.0 id i)) (m s) (others s h))
execute-Chronicled {C} school c m order_by now (reorder unit_id expected ids) s others h =
    bind-Settles {P = λ (r : List (LearningItem C) × State C). Chronicled r.1}
      (bind-Settles (manager_scope-Settles c) λ t _.
        bind-Settles
          (require_some-Settles not_found (find (is_unit t unit_id) s.units) not_found_apart)
          λ unit _.
            bind-Settles
              (require_course_subject_for_mutation-Settles school.academic c t
                unit.course_subject_id school.subjects)
              λ _ _.
                bind-Settles
                  (require-Settles stale_revision (version_fits expected unit.version)
                    stale_revision_apart)
                  λ _ _.
                    bind-Settles
                      (reorder_action-Settles (actor_of c) t unit_id expected ids (m s)
                        (others s h))
                      λ done k. settled k)
      (λ r k. settled k)
