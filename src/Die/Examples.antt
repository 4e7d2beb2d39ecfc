-- ===== src/Die/Examples.antt =====
-- Tests of the department of inclusion, and its theorems for two members, an episode, an action and an
-- entry of the journal.
use edupay_academico.Die.Removed.{remove_member-succeeds}
use edupay_academico.Die.Actions.{require_closing, is_filled, UpdateDieAction, update_action}
use edupay_academico.Die.Entries.{
  to_voided, require_author, corrected_zone, create_revision, correct_action,
}
use edupay_academico.Die.Journal.{correct_journal_entry}
use edupay_academico.Prelude.{
  trim, trim_start, ℕ, ◌≡◌, refl, true, false, none, some, [], ◌∷◌, find, ok, err, IfOk,
  update_first,
}
use edupay_academico.Die.{
  JournalRevision, pending, in_progress, completed, Action, State, conflict, bad_request, is_action,
  is_open, is_member,
}
use edupay_academico.Die.Actor.{
  require_access, require_coordinator, require_tenant_admin, require_eligible, active_member,
  DieAccess,
}
use edupay_academico.Die.Duties.{
  hand_over, reassign_each, reassign, create_assignment, removal_note,
}
use edupay_academico.Die.Members.{
  remove_member, require_removable, verify_replacement, remove_action, relieve, require_replacement,
  to_removed,
}
use edupay_academico.Die.Staffed.{Staffed, staffs}
use edupay_academico.Die.Kept.{execute, remove, execute-Staffed}
use edupay_academico.Die.Late.{LeftOpen, update_action-late, update_action-unstaffed}
use edupay_academico.Die.Numbered.{Numbered, numbered}
use edupay_academico.Die.Corrected.{correct_action-Appends}
use edupay_academico.Die.Journaled.{correct, execute_journal, execute_journal-Numbered}
use edupay_academico.Die.Office.{
  action, admin, alone, assignment, entry, episode, first, identity, office, office-Numbered,
  office-Staffed, revision, school, second,
}

-- A member leaves, and the work passes to the other.
remove_first :
    remove_member identity admin alone 1 (b'x' ∷ []) (some 2) 50 office
    ≡ ok (record office {
      members =
          record first {
            removed_at = some 50;
            removed_by = some (b'u' ∷ []);
            removal_reason = some (b'x' ∷ []);
          }
          ∷ second
          ∷ [];
      episodes = record episode { responsible = some 2 } ∷ [];
      actions = record action { assignee = 2 } ∷ [];
      assignments =
          record assignment { member_id = 2; reason = some removal_note }
          ∷ record assignment { unassigned_at = some 50 }
          ∷ [];
    })
unfolding remove_member require_access require_eligible require_coordinator require_tenant_admin
    active_member require_removable verify_replacement remove_action relieve require_replacement
    hand_over reassign_each reassign create_assignment
remove_first = refl

remove_unassigned : remove_member identity admin alone 1 (b'x' ∷ []) none 50 office ≡ err conflict
unfolding remove_member require_access require_eligible require_coordinator require_tenant_admin
    active_member require_removable verify_replacement remove_action relieve require_replacement
remove_unassigned = refl

remove_to_self :
    remove_member identity admin alone 1 (b'x' ∷ []) (some 1) 50 office ≡ err bad_request
unfolding remove_member require_access require_eligible require_coordinator require_tenant_admin
    active_member require_removable verify_replacement remove_action relieve require_replacement
remove_to_self = refl

execute-Staffed_example :
    IfOk Staffed (execute identity admin alone school (remove 1 (b'x' ∷ []) (some 2) 50) office)
execute-Staffed_example =
    execute-Staffed identity admin alone school (remove 1 (b'x' ∷ []) (some 2) 50) office (λ u h. h)
      office-Staffed

execute_journal-Numbered_example :
    IfOk Numbered (execute_journal identity admin alone school (correct 7 none 41 none) office)
execute_journal-Numbered_example =
    execute_journal-Numbered identity admin alone school (correct 7 none 41 none) office (λ u h. h)
      office-Numbered

abbrev draft : JournalRevision ℕ
draft = record revision { revision_number = 0; content = 41 }

correct_action-Appends_example :
    (s' : State ℕ) × (correct_action (b't' ∷ []) 7 draft office ≡ ok s')
    × (s'.revisions ≡ numbered 2 draft ∷ revision ∷ [])
    × Numbered s'
correct_action-Appends_example = correct_action-Appends draft entry office refl office-Numbered

-- Another title for the action
abbrev retitle : UpdateDieAction
retitle = record {
  title = some (b'a' ∷ []);
  description = none;
  due_date = none;
  status = none;
  result = none;
  cancellation_reason = none;
}

abbrev finished : Action
finished = record action {
  status = completed;
  result = some (b'r' ∷ []);
  closed_at = some 60;
  closed_by = some (b'v' ∷ []);
}

-- Someone completes the action.
abbrev completes : State ℕ → State ℕ
completes s = record s { actions = finished ∷ [] }

granted :
    require_access identity admin office ≡ ok (record { is_tenant_admin = true; member = none })
unfolding require_access require_eligible
granted = refl

update_action-late_example :
    LeftOpen admin 5 pending finished
      (completes office)
      (update_action identity admin completes 5 retitle 70 office)
update_action-late_example =
    update_action-late identity admin completes 5 70 retitle
      (record { is_tenant_admin = true; member = none }) action finished office granted refl refl
      refl (record { result = refl; cancellation_reason = refl }) refl

-- A completed action of a member who has left
abbrev left : State ℕ
left = record office {
  members = record first { removed_at = some 50 } ∷ second ∷ [];
  episodes = [];
  actions = finished ∷ [];
}

abbrev reopen : UpdateDieAction
reopen = record retitle { title = none; status = some in_progress }

granted_left :
    require_access identity admin left ≡ ok (record { is_tenant_admin = true; member = none })
unfolding require_access require_eligible
granted_left = refl

update_action-unstaffed_example :
    (written : State ℕ) × (b : Action) × (update_action identity admin alone 5 reopen 70 left
      ≡ ok written)
    × (find (is_action (b't' ∷ []) 5) written.actions ≡ some b)
    × (is_open b.status ≡ true)
    × (staffs written.members (b't' ∷ []) b.assignee ≡ false)
update_action-unstaffed_example =
    update_action-unstaffed identity admin alone 5 70 reopen
      (record { is_tenant_admin = true; member = none }) finished finished in_progress left
      granted_left refl refl refl (record { result = refl; cancellation_reason = refl }) refl refl

-- An empty result takes the place of the one that the completed action had.
erased_result :
    update_action identity admin alone 5 (record retitle { title = none; result = some [] }) 70 left
    ≡ ok (record left {
      actions = record finished { result = some []; closed_by = some (b'u' ∷ []) } ∷ [];
    })
unfolding update_action require_access require_eligible require_closing is_filled trim trim_start
erased_result = refl

-- Someone voids the entry.
abbrev voids : State ℕ → State ℕ
voids s = record s { entries = to_voided [] (b'v' ∷ []) 60 entry ∷ [] }

-- The entry is corrected all the same.
corrected_voided :
    correct_journal_entry identity admin voids school 7 none 41 none office
    ≡ ok (record office {
      entries = record (to_voided [] (b'v' ∷ []) 60 entry) { current_revision_number = 2 } ∷ [];
      revisions = record draft { revision_number = 2 } ∷ revision ∷ [];
    })
unfolding correct_journal_entry require_access require_eligible require_author corrected_zone
    correct_action create_revision
corrected_voided = refl

abbrev access : DieAccess
access = record { is_tenant_admin = true; member = none }

leads_access : require_coordinator access ≡ ok tt
unfolding require_coordinator
leads_access = refl

first_active : active_member (b't' ∷ []) 1 office.members ≡ ok first
unfolding active_member
first_active = refl

first_removable : require_removable admin access first ≡ ok tt
unfolding require_removable require_tenant_admin
first_removable = refl

second_verified : verify_replacement identity admin (some 2) office ≡ ok (some 2)
unfolding verify_replacement active_member
second_verified = refl

second_accepted : require_replacement admin (some 2) (some 2) 1 office ≡ ok second
unfolding require_replacement active_member
second_accepted = refl

remove_member-succeeds_example :
    (s' : State ℕ) × (remove_member identity admin alone 1 (b'x' ∷ []) (some 2) 50 office ≡ ok s')
    × (s'.members
        ≡ update_first
            (is_member (b't' ∷ []) 1)
            (to_removed 50 (b'u' ∷ []) (b'x' ∷ []))
            office.members)
remove_member-succeeds_example =
    remove_member-succeeds admin identity alone 1 50 (b'x' ∷ []) (some 2) (some 2) access first
      first second office granted leads_access first_active first_removable second_verified
      first_active first_removable second_accepted
