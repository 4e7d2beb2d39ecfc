-- ===== src/Die/Members.antt =====
-- The members of the department: `addMember`, `updateMemberRole` and `removeMember` of
-- apps/api/src/die/die.service.ts. What others write between the checks of a command and its
-- transaction is `meanwhile`. `new_id` is the identifier that the database gives.
use edupay_academico.Prelude.{
  ℕ, Bool, false, not, Option, none, some, Text, text_eq, ◌||◌, ◌==◌, find, any, Result, ok, err,
  ◌>>=◌, ◌>>◌, require, require_some, if◌then◌else◌, update_first,
}
use edupay_academico.Learning.{RequestContext}
use edupay_academico.Die.{
  MemberRole, member, Member, School, State, Refusal, conflict, bad_request, unavailable,
  is_coordinator, is_member,
}
use edupay_academico.Die.Actor.{
  Identity, VerifiedMembership, DieAccess, is_eligible, require_access, require_coordinator,
  require_tenant_admin, active_member,
}
use edupay_academico.Die.Duties.{
  as_conflict, create_member, hand_over, is_active_user, is_charge, is_duty, is_teacher_of,
  teacher_id_of,
}

abbrev pub same_id : Option ℕ → ℕ → Bool
same_id none id = false
same_id (some i) id = i == id

abbrev pub to_removed : ℕ → (actor reason : Text) → Member → Member
to_removed now actor reason m = record m {
  removed_at = some now;
  removed_by = some actor;
  removal_reason = some reason;
}

module _ (c : RequestContext) where
  -- A coordinator is removed by the tenant's administrator, and nobody by themselves.
  unfoldable pub require_removable : DieAccess → Member → Result Refusal (Unit {0})
  unfolding require_tenant_admin
  require_removable actor m = do
    if is_coordinator m.role then require_tenant_admin actor else ok tt
    require conflict (not (text_eq m.identity_user_id c.principal.identity_user_id))

module _ {C : Type 0} (c : RequestContext) where
  unfoldable pub require_replacement :
      Option ℕ → (verified : Option ℕ) → (id : ℕ) → State C → Result Refusal Member
  unfolding active_member
  require_replacement none verified id s = err conflict
  require_replacement (some r) verified id s = do
    replacement ← active_member c.tenant.tenant_id r s.members
    require conflict (same_id verified replacement.id)
    require bad_request (not (replacement.id == id))
    ok replacement

  -- Nothing is left to a member who goes.
  unfoldable pub relieve :
      Option ℕ → (verified : Option ℕ) → (id now : ℕ) → State C → Result Refusal (State C)
  unfolding require_replacement hand_over
  relieve to verified id now s =
      let busy =
        any (is_duty c.tenant.tenant_id id) s.actions
        || any (is_charge c.tenant.tenant_id id) s.episodes in
      if busy
      then (require_replacement to verified id s >>= λ r.
          hand_over c.tenant.tenant_id id r.id now c.principal.identity_user_id s)
      else ok s

  -- The transaction of `removeMember`
  unfoldable pub remove_action :
      DieAccess
      → (id : ℕ) → (reason : Text) → Option ℕ
      → (verified : Option ℕ) → (now : ℕ) → State C
      → Result Refusal (State C)
  unfolding active_member require_removable relieve
  remove_action actor id reason to verified now s = do
    current ← active_member c.tenant.tenant_id id s.members
    require_removable c actor current
    s' ← relieve to verified current.id now s
    ok (record s' {
      members =
          update_first (is_member c.tenant.tenant_id current.id)
            (to_removed now c.principal.identity_user_id reason) s'.members;
    })

-- The row of a new member
abbrev pub new_member : RequestContext → School → (new_id : ℕ) → VerifiedMembership → Member
new_member c school new_id verified = record {
  tenant_id = c.tenant.tenant_id;
  id = new_id;
  teacher_id =
      teacher_id_of
        (find (is_teacher_of c.tenant.tenant_id verified.identity_user_id) school.teachers);
  identity_user_id = verified.identity_user_id;
  identity_membership_id = verified.membership_id;
  display_label_snapshot = verified.institutional_username;
  role = member;
  added_by = c.principal.identity_user_id;
  removed_at = none;
  removed_by = none;
  removal_reason = none;
}

module _ {C : Type 0} (identity : Identity) (c : RequestContext) where
  -- The replacement, if one is named, that Identity has confirmed
  unfoldable pub verify_replacement : Option ℕ → State C → Result Refusal (Option ℕ)
  unfolding active_member
  verify_replacement none s = ok none
  verify_replacement (some id) s = do
    replacement ← active_member c.tenant.tenant_id id s.members
    verified ← identity.verify c replacement.identity_user_id
    require conflict (is_eligible replacement verified)
    ok (some replacement.id)

  module _ (meanwhile : State C → State C) where
    unfoldable pub add_member :
        School → (new_id : ℕ) → (username : Text) → State C → Result Refusal (State C)
    unfolding require_access create_member
    add_member school new_id username s = do
      access ← require_access identity c s
      verified ← identity.resolve c username
      require conflict
          (not (any (is_active_user c.tenant.tenant_id verified.identity_user_id) s.members))
      as_conflict (create_member (new_member c school new_id verified) (meanwhile s))

    unfoldable pub update_member_role : ℕ → MemberRole → State C → Result Refusal (State C)
    unfolding require_access require_tenant_admin active_member
    update_member_role id role s = do
      access ← require_access identity c s
      require_tenant_admin access
      m ← active_member c.tenant.tenant_id id s.members
      row ←
          require_some unavailable (find (is_member c.tenant.tenant_id m.id) (meanwhile s).members)
      ok (record (meanwhile s) {
        members =
            update_first (is_member c.tenant.tenant_id m.id) (λ y. record y { role = role })
              (meanwhile s).members;
      })

    unfoldable pub remove_member :
        (id : ℕ)
        → (reason : Text) → (to : Option ℕ) → (now : ℕ) → State C
        → Result Refusal (State C)
    unfolding require_access require_coordinator active_member require_removable verify_replacement
        remove_action
    remove_member id reason to now s = do
      actor ← require_access identity c s
      require_coordinator actor
      m ← active_member c.tenant.tenant_id id s.members
      require_removable c actor m
      verified ← verify_replacement to s
      remove_action c actor m.id reason to verified now (meanwhile s)
