-- ===== src/Die/Actor.antt =====
-- Who may act in the department: apps/api/src/die/die-access.service.ts, and the verifications at
-- Identity that apps/api/src/die/die.service.ts asks for.
use edupay_academico.Prelude.{
  ℕ, Bool, false, not, Option, none, some, List, Text, text_eq, ◌&&◌, ◌||◌, find, Result, ok, ◌>>=◌,
  ◌>>◌, require, require_some,
}
use edupay_academico.Access.{
  IdentityRole, has_role, student, guardian, staff, teacher, tenant_admin,
}
use edupay_academico.Learning.{RequestContext}
use edupay_academico.Die.{
  Member, State, Refusal, denied, not_found, is_absent, is_coordinator, is_member,
}

-- What Identity answers on a member.
pub record VerifiedMembership : Type 0 where
  pub identity_user_id : Text
  pub membership_id : Text
  pub institutional_username : Text
  pub roles : List IdentityRole

-- The services that are asked: Identity on the actor's session, and on a member.
pub record Identity : Type 0 where
  pub require_current : RequestContext → Result Refusal (Unit {0})
  pub verify : RequestContext → (identity_user_id : Text) → Result Refusal VerifiedMembership
  pub resolve : RequestContext → (institutional_username : Text) → Result Refusal VerifiedMembership

-- Membership and roles with which a member may work in the department
abbrev pub is_eligible : Member → VerifiedMembership → Bool
is_eligible m verified =
    text_eq verified.membership_id m.identity_membership_id
    && not (has_role student verified.roles || has_role guardian verified.roles)
    && (has_role staff verified.roles
        || has_role teacher verified.roles
        || has_role tenant_admin verified.roles)

-- `DieAccess`
pub record DieAccess : Type 0 where
  pub is_tenant_admin : Bool
  pub member : Option Member

module _ (identity : Identity) (context : RequestContext) where
  abbrev pub is_own_membership : Member → Bool
  is_own_membership m =
      text_eq m.tenant_id context.tenant.tenant_id
      && text_eq m.identity_user_id context.principal.identity_user_id
      && text_eq m.identity_membership_id context.tenant.membership_id
      && is_absent m.removed_at

  unfoldable pub require_eligible : Option Member → Result Refusal (Unit {0})
  require_eligible none = ok tt
  require_eligible (some m) = do
    verified ← identity.verify context m.identity_user_id
    require denied (is_eligible m verified)

  unfoldable pub require_access : {C : Type 0} → State C → Result Refusal DieAccess
  unfolding require_eligible
  require_access s = do
    identity.require_current context
    let found = find is_own_membership s.members
    require_eligible found
    require denied (has_role tenant_admin context.principal.roles || not (is_absent found))
    ok (record { is_tenant_admin = has_role tenant_admin context.principal.roles; member = found })

abbrev pub leads : Option Member → Bool
leads none = false
leads (some m) = is_coordinator m.role

unfoldable pub require_coordinator : DieAccess → Result Refusal (Unit {0})
require_coordinator access = require denied (access.is_tenant_admin || leads access.member)

unfoldable pub require_tenant_admin : DieAccess → Result Refusal (Unit {0})
require_tenant_admin access = require denied access.is_tenant_admin

-- `activeMember` and `activeMemberIn`
unfoldable pub active_member : Text → ℕ → List Member → Result Refusal Member
active_member tenant_id id members = do
  m ← require_some not_found (find (is_member tenant_id id) members)
  require not_found (is_absent m.removed_at)
  ok m
