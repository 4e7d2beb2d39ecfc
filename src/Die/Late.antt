-- ===== src/Die/Late.antt =====
-- What `updateAction` of apps/api/src/die/die.service.ts writes over: it decides on the action as it was
-- read before its transaction, and the update in the transaction has no condition.
use edupay_academico.Prelude.{
  ℕ, ◌≡◌, refl, sym, subst, true, false, none, some, Text, ==_iff, find, find-test, Result, ok,
  update_first, find-update_first, arith,
}
use edupay_academico.Learning.{RequestContext}
use edupay_academico.Die.{
  ActionStatus, pending, in_progress, completed, cancelled, Action, State, Refusal, is_open,
  is_action,
}
use edupay_academico.Die.Actor.{Identity, DieAccess, require_access}
use edupay_academico.Die.Actions.{
  UpdateDieAction, or_else, update_row, require_closing, update_action, is_given,
}
use edupay_academico.Die.Staffed.{staffs}

-- No text of the request says how the action was closed.
pub record SaysNothing (input : UpdateDieAction) : Type 0 where
  pub result : is_given input.result ≡ false
  pub cancellation_reason : is_given input.cancellation_reason ≡ false

is_action-id : (t : Text) (id : ℕ) (a : Action) → is_action t id a ≡ true → a.id ≡ id
is_action-id t id a h = (==_iff a.id id).0 (ground (arith, h))

require_closing-open :
    (input : UpdateDieAction) (a : Action) (status : ActionStatus)
    → is_open status ≡ true
    → SaysNothing input
    → require_closing input a status ≡ ok tt
unfolding require_closing
require_closing-open input a pending live h = rw (h.result, h.cancellation_reason) refl
require_closing-open input a in_progress live h = rw (h.result, h.cancellation_reason) refl
require_closing-open input a completed live h = cc
require_closing-open input a cancelled live h = cc

-- The row of an action that is left open
update_row-open :
    (input : UpdateDieAction) (a row : Action) (now : ℕ) (actor : Text) (status : ActionStatus)
    → or_else input.status a.status ≡ status
    → is_open status ≡ true
    → ((update_row input a now actor row).status ≡ status)
      × ((update_row input a now actor row).result ≡ none)
      × ((update_row input a now actor row).closed_at ≡ none)
update_row-open input a row now actor pending e live = rw e (refl, refl, refl)
update_row-open input a row now actor in_progress e live = rw e (refl, refl, refl)
update_row-open input a row now actor completed e live = cc
update_row-open input a row now actor cancelled e live = cc

module _ {C : Type 0} (c : RequestContext) where
  -- The answer of an update that leaves the action open
  pub record LeftOpen (id : ℕ) (status : ActionStatus) (row : Action) (s : State C)
      (answer : Result Refusal (State C)) : Type 0 where
    pub written : State C
    pub found : Action
    pub answers : answer ≡ ok written
    pub there : find (is_action c.tenant.tenant_id id) written.actions ≡ some found
    pub status_eq : found.status ≡ status
    pub result_eq : found.result ≡ none
    pub closed_at_eq : found.closed_at ≡ none
    pub assignee_eq : found.assignee ≡ row.assignee
    pub members_eq : written.members ≡ s.members

module _ {C : Type 0} (identity : Identity) (c : RequestContext)
    (meanwhile : State C → State C) where
  -- An update that passes its checks
  update_action-row :
      (id now : ℕ) (input : UpdateDieAction) (access : DieAccess) (a row : Action) (s : State C)
      → require_access identity c s ≡ ok access
      → find (is_action c.tenant.tenant_id id) s.actions ≡ some a
      → require_closing input a (or_else input.status a.status) ≡ ok tt
      → find (is_action c.tenant.tenant_id a.id) (meanwhile s).actions ≡ some row
      → update_action identity c meanwhile id input now s
        ≡ ok (record (meanwhile s) {
          actions =
              update_first
                (is_action c.tenant.tenant_id a.id)
                (update_row input a now c.principal.identity_user_id)
                (meanwhile s).actions;
        })
  unfolding update_action
  update_action-row id now input access a row s granted found closing there =
      rw (granted, found, closing, there) refl

  update_action-LeftOpen :
      (id now : ℕ) (input : UpdateDieAction) (access : DieAccess) (a row : Action)
      (status : ActionStatus) (s : State C)
      → require_access identity c s ≡ ok access
      → find (is_action c.tenant.tenant_id id) s.actions ≡ some a
      → or_else input.status a.status ≡ status
      → is_open status ≡ true
      → SaysNothing input
      → find (is_action c.tenant.tenant_id id) (meanwhile s).actions ≡ some row
      → LeftOpen c id status row (meanwhile s) (update_action identity c meanwhile id input now s)
  update_action-LeftOpen id now input access a row status s granted found e live quiet there =
      let same : a.id ≡ id =
        is_action-id c.tenant.tenant_id id a
          (find-test (is_action c.tenant.tenant_id id) s.actions found) in
      let kept = update_row-open input a row now c.principal.identity_user_id status e live in
      record {
        written = record (meanwhile s) {
          actions =
              update_first (is_action c.tenant.tenant_id a.id)
                (update_row input a now c.principal.identity_user_id) (meanwhile s).actions;
        };
        found = update_row input a now c.principal.identity_user_id row;
        answers =
            update_action-row id now input access a row s granted found
              (rw e (require_closing-open input a status live quiet)) (rw same there);
        there =
            subst
              (λ i.
                find (is_action c.tenant.tenant_id id) (
                  update_first (is_action c.tenant.tenant_id i)
                    (update_row input a now c.principal.identity_user_id) (meanwhile s).actions)
                ≡ some (update_row input a now c.principal.identity_user_id row))
              (sym same)
              (find-update_first (is_action c.tenant.tenant_id id)
                (update_row input a now c.principal.identity_user_id) (meanwhile s).actions row
                (λ y. refl) there);
        status_eq = kept.0;
        result_eq = kept.1;
        closed_at_eq = kept.2;
        assignee_eq = refl;
        members_eq = refl;
      }

  -- A request that names no status and no closing text, on an action that is open as it is read: whatever
  -- others make of the action before the update is written, its completion included, the action then
  -- has the status that was read, and neither a result nor a time of closing.
  pub update_action-late :
      (id now : ℕ) (input : UpdateDieAction) (access : DieAccess) (a row : Action) (s : State C)
      → require_access identity c s ≡ ok access
      → find (is_action c.tenant.tenant_id id) s.actions ≡ some a
      → is_open a.status ≡ true
      → input.status ≡ none
      → SaysNothing input
      → find (is_action c.tenant.tenant_id id) (meanwhile s).actions ≡ some row
      → LeftOpen c id a.status row (meanwhile s) (update_action identity c meanwhile id input now s)
  update_action-late id now input access a row s granted found live unnamed quiet there =
      update_action-LeftOpen id now input access a row a.status s granted found (rw unnamed refl)
        live quiet there

  -- A request that opens an action again is not asked who the action is with: where that one is no
  -- active member, the action is then open and with no active member.
  pub update_action-unstaffed :
      (id now : ℕ) (input : UpdateDieAction) (access : DieAccess) (a row : Action)
      (status : ActionStatus) (s : State C)
      → require_access identity c s ≡ ok access
      → find (is_action c.tenant.tenant_id id) s.actions ≡ some a
      → input.status ≡ some status
      → is_open status ≡ true
      → SaysNothing input
      → find (is_action c.tenant.tenant_id id) (meanwhile s).actions ≡ some row
      → staffs (meanwhile s).members c.tenant.tenant_id row.assignee ≡ false
      → (written : State C) × (b : Action) × (update_action identity c meanwhile id input now s
          ≡ ok written)
        × (find (is_action c.tenant.tenant_id id) written.actions ≡ some b)
        × (is_open b.status ≡ true)
        × (staffs written.members c.tenant.tenant_id b.assignee ≡ false)
  update_action-unstaffed id now input access a row status s granted found named live quiet there
        gone =
      let k =
        update_action-LeftOpen id now input access a row status s granted found (rw named refl) live
          quiet there in
      (
        k.written,
        k.found,
        k.answers,
        k.there,
        rw k.status_eq live,
        rw (k.members_eq, k.assignee_eq) gone,
      )
