-- ===== src/Die/Journal.antt =====
-- The journal of the department: `createJournalEntry`, `correctJournalEntry` and `voidJournalEntry` of
-- apps/api/src/die/die.service.ts.
use edupay_academico.Prelude.{
  ℕ, not, Option, Text, find, Result, ok, ◌>>=◌, ◌>>◌, require, require_some, update_first,
}
use edupay_academico.Learning.{RequestContext}
use edupay_academico.Die.{School, State, Refusal, not_found, conflict, is_entry}
use edupay_academico.Die.Actor.{Identity, require_access, require_coordinator}
use edupay_academico.Die.Duties.{as_conflict}
use edupay_academico.Die.Entries.{
  is_voided, event_zone, corrected_zone, is_journal_revision, is_current_entry, to_voided,
  require_author, new_entry, first_revision, correction, create_entry, create_revision,
  require_episode, correct_action,
}

module _ {C : Type 0} (identity : Identity) (c : RequestContext)
    (meanwhile : State C → State C) where
  unfoldable pub create_journal_entry :
      School
      → (new_id student_id episode_id : ℕ) → (event_time : Option ℕ) → (content : C) → State C
      → Result Refusal (State C)
  unfolding require_access require_episode event_zone create_entry create_revision
  create_journal_entry school new_id student_id episode_id event_time content s = do
    access ← require_access identity c s
    require_episode c.tenant.tenant_id episode_id student_id s
    zone ← event_zone school c.tenant.tenant_id event_time
    require_episode c.tenant.tenant_id episode_id student_id (meanwhile s)
    s' ← create_entry (new_entry c access new_id student_id episode_id) (meanwhile s)
    create_revision (first_revision c school access new_id student_id event_time zone content) s'

  unfoldable pub correct_journal_entry :
      School
      → (id : ℕ) → (event_time : Option ℕ) → (content : C) → (reason : Option Text) → State C
      → Result Refusal (State C)
  unfolding require_access require_author corrected_zone correct_action
  correct_journal_entry school id event_time content reason s = do
    access ← require_access identity c s
    entry ← require_some not_found (find (is_entry c.tenant.tenant_id id) s.entries)
    require conflict (not (is_voided entry.status))
    require_author c access entry reason
    previous ← require_some conflict (
        find (λ r. is_journal_revision c.tenant.tenant_id entry.id entry.current_revision_number r)
          s.revisions)
    zone ←
        corrected_zone school c.tenant.tenant_id event_time previous.event_time
          previous.event_time_zone
    as_conflict (
        correct_action c.tenant.tenant_id entry.id
          (correction c access entry.id event_time zone content previous reason) (meanwhile s))

  unfoldable pub void_journal_entry :
      (id now : ℕ) → (reason : Text) → State C → Result Refusal (State C)
  unfolding require_access require_coordinator
  void_journal_entry id now reason s = do
    access ← require_access identity c s
    require_coordinator access
    entry ← require_some not_found (find (is_entry c.tenant.tenant_id id) s.entries)
    require conflict (not (is_voided entry.status))
    changed ←
        require_some conflict
          (find (is_current_entry c.tenant.tenant_id entry.id) (meanwhile s).entries)
    ok (record (meanwhile s) {
      entries =
          update_first (is_current_entry c.tenant.tenant_id entry.id)
            (to_voided reason c.principal.identity_user_id now) (meanwhile s).entries;
    })
