-- ===== src/Die/Journaled.antt =====
-- The commands on the journal of apps/api/src/die/die.service.ts keep its revisions numbered.
use edupay_academico.Prelude.{
  ℕ, refl, not, Option, Text, find, Result, require, require_some, IfOk, if_ok, bind-IfOk,
}
use edupay_academico.Learning.{RequestContext}
use edupay_academico.Die.{School, State, Refusal, not_found, conflict, is_entry}
use edupay_academico.Die.Actor.{Identity, require_access, require_coordinator}
use edupay_academico.Die.Entries.{
  new_entry, first_revision, correction, is_voided, is_journal_revision, is_current_entry,
  require_author, event_zone, corrected_zone, require_episode,
}
use edupay_academico.Die.Journal.{create_journal_entry, correct_journal_entry, void_journal_entry}
use edupay_academico.Die.Writes.{as_conflict-IfOk}
use edupay_academico.Die.Numbered.{Numbered}
use edupay_academico.Die.Corrected.{correct_action-Numbered, create-Numbered, voided-Numbered}

-- The commands on the journal
pub data JournalCommand (C : Type 0) : Type 0 where
  write :
      (new_id student_id episode_id : ℕ)
      → (event_time : Option ℕ) → (content : C) → JournalCommand C
  correct :
      (id : ℕ) → (event_time : Option ℕ) → (content : C) → (reason : Option Text) → JournalCommand C
  cancel : (id now : ℕ) → (reason : Text) → JournalCommand C

module _ {C : Type 0} (identity : Identity) (c : RequestContext) (meanwhile : State C → State C)
    (school : School) where
  abbrev pub execute_journal : JournalCommand C → State C → Result Refusal (State C)
  execute_journal (write new_id student_id episode_id event_time content) s =
      create_journal_entry identity c meanwhile school new_id student_id episode_id event_time
        content s
  execute_journal (correct id event_time content reason) s =
      correct_journal_entry identity c meanwhile school id event_time content reason s
  execute_journal (cancel id now reason) s = void_journal_entry identity c meanwhile id now reason s

  -- Whatever the command on the journal, whoever asks and whatever numbered writes come between its
  -- checks and its transaction: where entries have unique keys and their current revision, and every
  -- revision is of an entry that is there and has no number past the entry's current one, a command
  -- that succeeds leaves that so.
  pub execute_journal-Numbered :
      (command : JournalCommand C) (s : State C)
      → ((u : State C) → Numbered u → Numbered (meanwhile u))
      → Numbered s
      → IfOk Numbered (execute_journal command s)
  unfolding create_journal_entry correct_journal_entry void_journal_entry
  execute_journal-Numbered (write new_id student_id episode_id event_time content) s others h =
      bind-IfOk (require_access identity c s) λ access _.
        bind-IfOk (require_episode c.tenant.tenant_id episode_id student_id s) λ _ _.
          bind-IfOk (event_zone school c.tenant.tenant_id event_time) λ zone _.
            bind-IfOk (require_episode c.tenant.tenant_id episode_id student_id (meanwhile s))
              λ _ _.
                create-Numbered (new_entry c access new_id student_id episode_id)
                  (first_revision c school access new_id student_id event_time zone content)
                  (meanwhile s) refl refl refl (others s h)
  execute_journal-Numbered (correct id event_time content reason) s others h =
      bind-IfOk (require_access identity c s) λ access _.
        bind-IfOk (require_some not_found (find (is_entry c.tenant.tenant_id id) s.entries))
          λ entry _. bind-IfOk (require conflict (not (is_voided entry.status))) λ _ _.
            bind-IfOk (require_author c access entry reason) λ _ _.
              bind-IfOk
                (require_some conflict (
                  find
                    (λ r.
                      is_journal_revision c.tenant.tenant_id entry.id entry.current_revision_number
                        r)
                    s.revisions))
                λ previous _.
                  bind-IfOk
                    (corrected_zone school c.tenant.tenant_id event_time previous.event_time
                      previous.event_time_zone)
                    λ zone _. as_conflict-IfOk _ (
                      correct_action-Numbered
                        (correction c access entry.id event_time zone content previous reason)
                        (meanwhile s) (others s h))
  execute_journal-Numbered (cancel id now reason) s others h =
      bind-IfOk (require_access identity c s) λ access _.
        bind-IfOk (require_coordinator access) λ _ _.
          bind-IfOk (require_some not_found (find (is_entry c.tenant.tenant_id id) s.entries))
            λ entry _. bind-IfOk (require conflict (not (is_voided entry.status))) λ _ _.
              bind-IfOk
                (require_some conflict
                  (find (is_current_entry c.tenant.tenant_id entry.id) (meanwhile s).entries))
                λ _ _. if_ok (
                  voided-Numbered (is_current_entry c.tenant.tenant_id entry.id) reason
                    c.principal.identity_user_id now (meanwhile s) (others s h))
