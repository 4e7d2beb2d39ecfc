-- ===== src/Die/Entries.antt =====
-- The rows of the journal of apps/api/src/die/die.service.ts and what the commands write to them. The time of an event is its minutes of the day.
use edupay_academico.Prelude.{
  ℕ, ◌+◌, Bool, true, false, not, Option, none, some, ◌∷◌, Text, text_eq, ◌&&◌, ◌==◌, is_empty,
  find, any, Result, ok, err, ◌>>=◌, ◌>>◌, require, require_some, if◌then◌else◌, update_first,
}
use edupay_academico.Learning.{RequestContext}
use edupay_academico.TenantProfile.{ProfileError, require_time_zone}
use edupay_academico.Die.{
  Member, EntryStatus, current, voided, JournalEntry, JournalRevision, School, State, Refusal,
  not_found, conflict, bad_request, unavailable, unique_violation, is_absent, is_episode, is_entry,
}
use edupay_academico.Die.Actor.{DieAccess, require_coordinator}
use edupay_academico.Die.Support.{capture_academic_context}
use edupay_academico.Die.Actions.{is_filled}

abbrev pub is_voided : EntryStatus → Bool
is_voided current = false
is_voided voided = true

abbrev pub label_of : Option Member → (user : Text) → Text
label_of none user = user
label_of (some m) user = m.display_label_snapshot

abbrev pub of_profile : {A : Type 0} → Result ProfileError A → Result Refusal A
of_profile (ok a) = ok a
of_profile (err e) = err conflict

-- The zone of a new event, where it has a time
unfoldable pub event_zone : School → Text → Option ℕ → Result Refusal (Option Text)
event_zone school tenant_id none = ok none
event_zone school tenant_id (some minutes) = do
  zone ← of_profile (require_time_zone tenant_id school.profiles)
  ok (some zone)

abbrev pub same_time : ℕ → Option ℕ → Bool
same_time minutes none = false
same_time minutes (some m) = minutes == m

abbrev pub given_zone : Option Text → Bool
given_zone none = false
given_zone (some z) = not (is_empty z)

-- A correction that keeps the time keeps its zone.
unfoldable pub corrected_zone :
    School
    → Text
    → Option ℕ
    → (time : Option ℕ) → (zone : Option Text) → Result Refusal (Option Text)
unfolding event_zone
corrected_zone school tenant_id none old_time old_zone = ok none
corrected_zone school tenant_id (some minutes) old_time old_zone =
    if same_time minutes old_time && given_zone old_zone
    then ok old_zone
    else event_zone school tenant_id (some minutes)

abbrev pub is_journal_revision : Text → ℕ → ℕ → {C : Type 0} → JournalRevision C → Bool
is_journal_revision tenant_id entry_id number r =
    text_eq r.tenant_id tenant_id && r.journal_entry_id == entry_id && r.revision_number == number

abbrev pub is_current_entry : Text → ℕ → JournalEntry → Bool
is_current_entry tenant_id id e = is_entry tenant_id id e && not (is_voided e.status)

abbrev pub to_number : ℕ → JournalEntry → JournalEntry
to_number number e = record e { current_revision_number = number }

abbrev pub to_voided : (reason actor : Text) → ℕ → JournalEntry → JournalEntry
to_voided reason actor now e = record e {
  status = voided;
  void_reason = some reason;
  voided_by = some actor;
  voided_at = some now;
}

-- Another's entry is corrected by a coordinator who says why.
unfoldable pub require_author :
    RequestContext → DieAccess → JournalEntry → Option Text → Result Refusal (Unit {0})
unfolding require_coordinator is_filled
require_author c access entry reason =
    if text_eq entry.original_author c.principal.identity_user_id
    then ok tt
    else (require_coordinator access >> require bad_request (is_filled reason))

-- The row of a new entry
abbrev pub new_entry :
    RequestContext → DieAccess → (new_id student_id episode_id : ℕ) → JournalEntry
new_entry c access new_id student_id episode_id = record {
  tenant_id = c.tenant.tenant_id;
  id = new_id;
  student_id = student_id;
  support_episode_id = episode_id;
  original_author = c.principal.identity_user_id;
  original_author_label = label_of access.member c.principal.identity_user_id;
  current_revision_number = 1;
  status = current;
  void_reason = none;
  voided_by = none;
  voided_at = none;
}

-- `revisionData` of a new entry, and of a correction before it has its number
abbrev pub first_revision :
    {C : Type 0}
    → RequestContext
    → School
    → DieAccess
    → (new_id student_id : ℕ) → (event_time : Option ℕ) → (zone : Option Text) → (content : C)
    → JournalRevision C
first_revision c school access new_id student_id event_time zone content = record {
  tenant_id = c.tenant.tenant_id;
  journal_entry_id = new_id;
  revision_number = 1;
  event_time = event_time;
  event_time_zone = zone;
  content = content;
  academic = capture_academic_context school c.tenant.tenant_id student_id;
  corrected_by = c.principal.identity_user_id;
  corrected_by_label = label_of access.member c.principal.identity_user_id;
  correction_reason = none;
}

abbrev pub correction :
    {C : Type 0}
    → RequestContext
    → DieAccess
    → (id : ℕ) → (event_time : Option ℕ) → (zone : Option Text) → (content : C)
    → (previous : JournalRevision C) → (reason : Option Text) → JournalRevision C
correction c access id event_time zone content previous reason = record {
  tenant_id = c.tenant.tenant_id;
  journal_entry_id = id;
  revision_number = 0;
  event_time = event_time;
  event_time_zone = zone;
  content = content;
  academic = previous.academic;
  corrected_by = c.principal.identity_user_id;
  corrected_by_label = label_of access.member c.principal.identity_user_id;
  correction_reason = reason;
}

module _ {C : Type 0} where
  unfoldable pub create_entry : JournalEntry → State C → Result Refusal (State C)
  create_entry new s = do
    require unique_violation (not (any (is_entry new.tenant_id new.id) s.entries))
    ok (record s { entries = new ∷ s.entries })

  unfoldable pub create_revision : JournalRevision C → State C → Result Refusal (State C)
  create_revision new s = do
    require unique_violation (
        not (
          any (λ r. is_journal_revision new.tenant_id new.journal_entry_id new.revision_number r)
            s.revisions))
    ok (record s { revisions = new ∷ s.revisions })

  -- An episode of the student that has not ended
  unfoldable pub require_episode : Text → (id student_id : ℕ) → State C → Result Refusal (Unit {0})
  require_episode tenant_id id student_id s = do
    e ← require_some not_found (find (is_episode tenant_id id) s.episodes)
    require not_found (e.student_id == student_id)
    require conflict (is_absent e.ended_at)

  -- The transaction of `correctJournalEntry`
  unfoldable pub correct_action :
      (t : Text) → (id : ℕ) → JournalRevision C → State C → Result Refusal (State C)
  unfolding create_revision
  correct_action t id draft s = do
    now ← require_some unavailable (find (is_entry t id) s.entries)
    s' ← create_revision (record draft { revision_number = now.current_revision_number + 1 }) s
    ok (record s' {
      entries =
          update_first (is_entry t id) (to_number (now.current_revision_number + 1)) s'.entries;
    })
