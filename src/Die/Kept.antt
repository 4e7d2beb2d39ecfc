-- ===== src/Die/Kept.antt =====
-- Every command of apps/api/src/die/die.service.ts but the update of an action keeps the department
-- staffed.
use edupay_academico.Prelude.{
  ℕ, refl, not, Option, Text, ◌==◌, any, find, ltb, Result, require, require_some, IfOk, if_ok,
  bind-IfOk, then-IfOk, IfOk-imp,
}
use edupay_academico.Learning.{RequestContext}
use edupay_academico.Die.{
  MemberRole, School, State, Refusal, not_found, conflict, bad_request, unavailable, is_member,
  is_action, is_episode, is_absent, is_open,
}
use edupay_academico.Die.Actor.{
  Identity, active_member, require_access, require_coordinator, require_tenant_admin,
}
use edupay_academico.Die.Duties.{is_active_user}
use edupay_academico.Die.Members.{
  new_member, add_member, update_member_role, remove_member, require_removable, verify_replacement,
}
use edupay_academico.Die.Support.{
  is_student, new_episode, is_unfinished, start_support, finish_support,
}
use edupay_academico.Die.Actions.{
  new_action, first_assignment, require_entry, create_action, reassign_action,
}
use edupay_academico.Die.Staffed.{Staffed, active_member-staffs}
use edupay_academico.Die.Handing.{create_assignment-Rows, reassign-Rows}
use edupay_academico.Die.Writes.{
  as_conflict-IfOk, create_member-Staffed, role-Staffed, remove_action-Staffed,
  require_responsible-HasResponsible, create_episode-Staffed, finish-Staffed, create_row-Staffed,
  Rows-Staffed,
}

-- The commands on the members, the episodes and the actions, without the update of an action.
pub data Command : Type 0 where
  add : (new_id : ℕ) → (username : Text) → Command
  change_role : (id : ℕ) → MemberRole → Command
  remove : (id : ℕ) → (reason : Text) → (to : Option ℕ) → (now : ℕ) → Command
  start : (new_id student_id start_date : ℕ) → (reason : Text) → (responsible : Option ℕ) → Command
  end : (id end_date : ℕ) → (reason : Text) → Command
  plan :
      (new_id student_id : ℕ)
      → (entry : Option ℕ) → (title : Text) → (description : Option Text) → (assignee : ℕ)
      → (due_date : Option ℕ) → Command
  give : (id assignee now : ℕ) → (reason : Text) → Command

module _ {C : Type 0} (identity : Identity) (c : RequestContext) (meanwhile : State C → State C)
    (school : School) where
  abbrev pub execute : Command → State C → Result Refusal (State C)
  execute (add new_id username) s = add_member identity c meanwhile school new_id username s
  execute (change_role id role) s = update_member_role identity c meanwhile id role s
  execute (remove id reason to now) s = remove_member identity c meanwhile id reason to now s
  execute (start new_id student_id start_date reason responsible) s =
      start_support identity c meanwhile school new_id student_id start_date reason responsible s
  execute (end id end_date reason) s = finish_support identity c meanwhile id end_date reason s
  execute (plan new_id student_id entry title description assignee due_date) s =
      create_action identity c meanwhile school new_id student_id entry title description assignee
        due_date s
  execute (give id assignee now reason) s =
      reassign_action identity c meanwhile id assignee now reason s

  -- Whatever the command among these, whoever asks, whatever Identity answers and whatever
  -- staff-keeping writes come between its checks and its transaction: where actions have unique keys and
  -- every open action and every active episode with someone responsible is with an active member,
  -- a command that succeeds leaves that so.
  pub execute-Staffed :
      (command : Command) (s : State C)
      → ((u : State C) → Staffed u → Staffed (meanwhile u))
      → Staffed s
      → IfOk Staffed (execute command s)
  unfolding add_member update_member_role remove_member start_support finish_support create_action
      reassign_action
  execute-Staffed (add new_id username) s others h =
      bind-IfOk (require_access identity c s) λ access _.
        bind-IfOk (identity.resolve c username) λ verified _.
          bind-IfOk
            (require conflict
              (not (any (is_active_user c.tenant.tenant_id verified.identity_user_id) s.members)))
            λ _ _. as_conflict-IfOk _ (
              create_member-Staffed (new_member c school new_id verified) (meanwhile s)
                (others s h))
  execute-Staffed (change_role id role) s others h =
      bind-IfOk (require_access identity c s) λ access _.
        bind-IfOk (require_tenant_admin access) λ _ _.
          bind-IfOk (active_member c.tenant.tenant_id id s.members) λ m _.
            bind-IfOk
              (require_some unavailable
                (find (is_member c.tenant.tenant_id m.id) (meanwhile s).members))
              λ _ _. if_ok (role-Staffed c.tenant.tenant_id m.id role (meanwhile s) (others s h))
  execute-Staffed (remove id reason to now) s others h =
      bind-IfOk (require_access identity c s) λ actor _.
        bind-IfOk (require_coordinator actor) λ _ _.
          bind-IfOk (active_member c.tenant.tenant_id id s.members) λ m _.
            bind-IfOk (require_removable c actor m) λ _ _.
              bind-IfOk (verify_replacement identity c to s) λ verified _.
                remove_action-Staffed c actor m.id reason to verified now (meanwhile s) (others s h)
  execute-Staffed (start new_id student_id start_date reason responsible) s others h =
      bind-IfOk (require_access identity c s) λ access _.
        bind-IfOk
          (require_some not_found (find (is_student c.tenant.tenant_id student_id) school.students))
          λ student _. bind-IfOk (require not_found student.is_active) λ _ _. as_conflict-IfOk _ (
            then-IfOk
              (require_responsible-HasResponsible c.tenant.tenant_id responsible (meanwhile s))
              λ _ known.
                create_episode-Staffed
                  (new_episode c school new_id student_id start_date reason responsible)
                  (meanwhile s)
                  (known (new_episode c school new_id student_id start_date reason responsible) refl
                    refl)
                  (others s h))
  execute-Staffed (end id end_date reason) s others h =
      bind-IfOk (require_access identity c s) λ access _.
        bind-IfOk (require_some not_found (find (is_episode c.tenant.tenant_id id) s.episodes))
          λ e _. bind-IfOk (require conflict (is_absent e.ended_at)) λ _ _.
            bind-IfOk (require bad_request (not (ltb end_date e.start_date))) λ _ _.
              bind-IfOk
                (require_some conflict
                  (find (is_unfinished c.tenant.tenant_id e.id) (meanwhile s).episodes))
                λ _ _. if_ok (
                  finish-Staffed (is_unfinished c.tenant.tenant_id e.id) end_date reason
                    c.principal.identity_user_id (meanwhile s) (others s h))
  execute-Staffed (plan new_id student_id entry title description assignee due_date) s others h =
      bind-IfOk (require_access identity c s) λ access _.
        bind-IfOk
          (require_some not_found (find (is_student c.tenant.tenant_id student_id) school.students))
          λ student _. bind-IfOk (require_entry c.tenant.tenant_id student_id entry s) λ _ _.
            bind-IfOk (active_member c.tenant.tenant_id assignee (meanwhile s).members) λ m found.
              let (there, id_eq) =
                active_member-staffs c.tenant.tenant_id assignee (meanwhile s).members m found in
              then-IfOk
                (create_row-Staffed
                  (new_action c new_id student_id entry title description m.id due_date)
                  (meanwhile s) (rw id_eq there) (others s h))
                λ s' (_, k).
                  IfOk-imp
                    (λ s'' same. record {
                      keys = rw (same.2) k.keys;
                      actions = rw (same.0, same.2) k.actions;
                      episodes = rw (same.0, same.1) k.episodes;
                    })
                    (create_assignment-Rows (first_assignment c new_id m.id) s')
  execute-Staffed (give id assignee now reason) s others h =
      bind-IfOk (require_access identity c s) λ access _.
        bind-IfOk (require_some not_found (find (is_action c.tenant.tenant_id id) s.actions)) λ a _.
          bind-IfOk (require conflict (is_open a.status)) λ _ _.
            bind-IfOk
              (require_some not_found
                (find (is_action c.tenant.tenant_id a.id) (meanwhile s).actions))
              λ now_row _. bind-IfOk (require conflict (is_open now_row.status)) λ _ _.
                bind-IfOk (active_member c.tenant.tenant_id assignee (meanwhile s).members)
                  λ m found. bind-IfOk (require bad_request (not (m.id == now_row.assignee))) λ _ _.
                    let (there, id_eq) =
                      active_member-staffs c.tenant.tenant_id assignee (meanwhile s).members m
                        found in
                    IfOk-imp
                      (λ s' k.
                        Rows-Staffed c.tenant.tenant_id a.id m.id (meanwhile s) s' k
                          (rw id_eq there) (others s h))
                      (reassign-Rows c.tenant.tenant_id a.id m.id now c.principal.identity_user_id
                        reason (meanwhile s))
