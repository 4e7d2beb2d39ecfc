-- ===== src/Die/Actions.antt =====
-- The actions of the department: `createAction`, `updateAction` and `reassignAction` of
-- apps/api/src/die/die.service.ts.
use edupay_academico.Prelude.{
  ℕ, Bool, true, false, not, Option, none, some, ◌∷◌, Text, ◌||◌, ◌==◌, is_empty, trim, find, any,
  Result, ok, ◌>>=◌, ◌>>◌, require, require_some, update_first,
}
use edupay_academico.Learning.{RequestContext}
use edupay_academico.Die.{
  ActionStatus, pending, completed, cancelled, Action, ActionAssignment, School, State, Refusal,
  not_found, conflict, bad_request, unavailable, unique_violation, is_open, is_action, is_entry,
}
use edupay_academico.Die.Actor.{Identity, require_access, active_member}
use edupay_academico.Die.Duties.{create_assignment, reassign}
use edupay_academico.Die.Support.{is_student}

-- What the request may change of an action; the inner `none` is an explicit null.
pub record UpdateDieAction : Type 0 where
  pub title : Option Text
  pub description : Option (Option Text)
  pub due_date : Option (Option ℕ)
  pub status : Option ActionStatus
  pub result : Option Text
  pub cancellation_reason : Option Text

-- `a ?? b`
abbrev pub or_else {ℓ} : {A : Type ℓ} → Option A → A → A
or_else none b = b
or_else (some a) b = a

abbrev pub or_old {ℓ} : {A : Type ℓ} → Option A → Option A → Option A
or_old none b = b
or_old (some a) b = some a

-- A text that counts as true
abbrev pub is_given : Option Text → Bool
is_given none = false
is_given (some t) = not (is_empty t)

-- `!!text?.trim()`
unfoldable pub is_filled : Option Text → Bool
unfolding trim
is_filled none = false
is_filled (some t) = not (is_empty (trim t))

abbrev pub is_completed : ActionStatus → Bool
is_completed completed = true
is_completed _ = false

abbrev pub is_cancelled : ActionStatus → Bool
is_cancelled cancelled = true
is_cancelled _ = false

-- The status and its closing text fit together.
unfoldable pub require_closing : UpdateDieAction → Action → ActionStatus → Result Refusal (Unit {0})
unfolding is_filled
require_closing input a status = do
  require bad_request (not (is_completed status) || is_filled input.result || is_given a.result)
  require bad_request (
      not (is_cancelled status)
      || is_filled input.cancellation_reason
      || is_given a.cancellation_reason)
  require bad_request (is_completed status || not (is_given input.result))
  require bad_request (is_cancelled status || not (is_given input.cancellation_reason))

abbrev pub only_if {ℓ} : {A : Type ℓ} → Bool → Option A → Option A
only_if true a = a
only_if false a = none

-- The row as it is written: `a` is the action as it was read before the transaction, `row` the one
-- that is there.
abbrev pub update_row : UpdateDieAction → Action → (now : ℕ) → (actor : Text) → Action → Action
update_row input a now actor row =
    let status = or_else input.status a.status in
    let closed = is_completed status || is_cancelled status in
    record row {
      title = or_else input.title row.title;
      description = or_else input.description row.description;
      due_date = or_else input.due_date row.due_date;
      status = status;
      result = only_if (is_completed status) (or_old input.result a.result);
      cancellation_reason =
          only_if (is_cancelled status) (or_old input.cancellation_reason a.cancellation_reason);
      closed_at = only_if closed (some (or_else a.closed_at now));
      closed_by = only_if closed (some actor);
    }

-- The row of a new action, and of its first assignment
abbrev pub new_action :
    RequestContext
    → (new_id student_id : ℕ) → (journal_entry_id : Option ℕ) → (title : Text)
    → (description : Option Text) → (assignee : ℕ) → (due_date : Option ℕ) → Action
new_action c new_id student_id journal_entry_id title description assignee due_date = record {
  tenant_id = c.tenant.tenant_id;
  id = new_id;
  student_id = student_id;
  journal_entry_id = journal_entry_id;
  title = title;
  description = description;
  assignee = assignee;
  due_date = due_date;
  created_by = c.principal.identity_user_id;
  status = pending;
  result = none;
  cancellation_reason = none;
  closed_at = none;
  closed_by = none;
}

abbrev pub first_assignment : RequestContext → (action_id member_id : ℕ) → ActionAssignment
first_assignment c action_id member_id = record {
  tenant_id = c.tenant.tenant_id;
  action_id = action_id;
  member_id = member_id;
  assigned_by = c.principal.identity_user_id;
  reason = none;
  unassigned_at = none;
}

module _ {C : Type 0} where
  -- The entry that the action answers to, where one is named, is of the student.
  unfoldable pub require_entry :
      Text → (student_id : ℕ) → Option ℕ → State C → Result Refusal (Unit {0})
  require_entry tenant_id student_id none s = ok tt
  require_entry tenant_id student_id (some id) s = do
    entry ← require_some not_found (find (is_entry tenant_id id) s.entries)
    require not_found (entry.student_id == student_id)

  unfoldable pub create_row : Action → State C → Result Refusal (State C)
  create_row new s = do
    require unique_violation (not (any (is_action new.tenant_id new.id) s.actions))
    ok (record s { actions = new ∷ s.actions })

module _ {C : Type 0} (identity : Identity) (c : RequestContext)
    (meanwhile : State C → State C) where
  unfoldable pub create_action :
      School
      → (new_id student_id : ℕ) → (journal_entry_id : Option ℕ) → (title : Text)
      → (description : Option Text) → (assignee : ℕ) → (due_date : Option ℕ) → State C
      → Result Refusal (State C)
  unfolding require_access require_entry active_member create_row create_assignment
  create_action school new_id student_id journal_entry_id title description assignee due_date s = do
    access ← require_access identity c s
    student ←
        require_some not_found (find (is_student c.tenant.tenant_id student_id) school.students)
    require_entry c.tenant.tenant_id student_id journal_entry_id s
    m ← active_member c.tenant.tenant_id assignee (meanwhile s).members
    s' ←
        create_row (new_action c new_id student_id journal_entry_id title description m.id due_date)
          (meanwhile s)
    create_assignment (first_assignment c new_id m.id) s'

  unfoldable pub update_action :
      (id : ℕ) → UpdateDieAction → (now : ℕ) → State C → Result Refusal (State C)
  unfolding require_access require_closing
  update_action id input now s = do
    access ← require_access identity c s
    a ← require_some not_found (find (is_action c.tenant.tenant_id id) s.actions)
    require_closing input a (or_else input.status a.status)
    row ← require_some unavailable (find (is_action c.tenant.tenant_id a.id) (meanwhile s).actions)
    ok (record (meanwhile s) {
      actions =
          update_first (is_action c.tenant.tenant_id a.id)
            (update_row input a now c.principal.identity_user_id) (meanwhile s).actions;
    })

  unfoldable pub reassign_action :
      (id assignee now : ℕ) → (reason : Text) → State C → Result Refusal (State C)
  unfolding require_access active_member reassign
  reassign_action id assignee now reason s = do
    access ← require_access identity c s
    a ← require_some not_found (find (is_action c.tenant.tenant_id id) s.actions)
    require conflict (is_open a.status)
    current ←
        require_some not_found (find (is_action c.tenant.tenant_id a.id) (meanwhile s).actions)
    require conflict (is_open current.status)
    m ← active_member c.tenant.tenant_id assignee (meanwhile s).members
    require bad_request (not (m.id == current.assignee))
    reassign c.tenant.tenant_id a.id m.id now c.principal.identity_user_id reason (meanwhile s)
