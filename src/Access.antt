-- ===== src/Access.antt =====
-- Who may call: apps/api/src/identity/identity.types.ts, tenant/trusted-tenant-context.ts and
-- authorization/authorization.{types,service}.ts.
-- Values of `TrustedTenantContext` are the frozen instances of the class, which only
-- `fromPrincipal` makes; what is no such instance is `none`.
pub mod Selectors
pub mod Consistent
pub mod Guards
pub mod Contexts
pub mod Steps
pub mod Soundness
mod Examples
use edupay_academico.Prelude.{
  ℕ, Bool, true, false, not, Option, none, some, List, [], ◌∷◌, ◌&&◌, ◌||◌, any, Text, text_eq,
  is_empty, if◌then◌else◌,
}

pub data IdentityRole : Type 0 where
  system_admin tenant_admin staff teacher student guardian : IdentityRole

abbrev pub role_eq : IdentityRole → IdentityRole → Bool
role_eq system_admin system_admin = true
role_eq tenant_admin tenant_admin = true
role_eq staff staff = true
role_eq teacher teacher = true
role_eq student student = true
role_eq guardian guardian = true
role_eq _ _ = false

abbrev pub has_role : IdentityRole → List IdentityRole → Bool
has_role role = any (role_eq role)

pub record TrustedIdentityPrincipal : Type 0 where
  pub identity_user_id : Text
  pub session_id : Text
  pub tenant_id : Option Text
  pub membership_id : Option Text
  pub roles : List IdentityRole

pub record TrustedTenantContext : Type 0 where
  pub identity_user_id : Text
  pub tenant_id : Text
  pub membership_id : Text
  pub roles : List IdentityRole
  pub session_id : Text

-- `UnauthorizedException`, `ForbiddenException` and `ServiceUnavailableException`
pub data Refusal : Type 0 where
  unauthorized forbidden service_unavailable : Refusal

pub data Outcome {ℓ} (A : Type ℓ) : Type ℓ where
  pass : A → Outcome A
  deny : Refusal → Outcome A

infixl 5 ◌>>=◌ ◌>>◌
abbrev pub ◌>>=◌ {ℓ κ} : {A : Type ℓ} {B : Type κ} → Outcome A → (A → Outcome B) → Outcome B
pass a >>= f = f a
deny r >>= f = deny r

abbrev pub ◌>>◌ {ℓ} : {B : Type ℓ} → Outcome (Unit {0}) → Outcome B → Outcome B
m >> k = m >>= λ _. k

abbrev pub deny_unless : Bool → Outcome (Unit {0})
deny_unless true = pass tt
deny_unless false = deny forbidden

-- `!value` for an optional string
abbrev pub truthy : Option Text → Option Text
truthy none = none
truthy (some t) = if is_empty t then none else some t

-- `clientTenantId && clientTenantId !== tenantId`
abbrev pub client_conflicts : Option Text → Text → Bool
client_conflicts none tenant_id = false
client_conflicts (some client) tenant_id = not (is_empty client) && not (text_eq client tenant_id)

abbrev or_forbidden {ℓ} : {A : Type ℓ} → Option A → Outcome A
or_forbidden none = deny forbidden
or_forbidden (some a) = pass a

abbrev pub is_tenant_role : IdentityRole → Bool
is_tenant_role role = not (role_eq role system_admin)

unfoldable pub from_principal :
    TrustedIdentityPrincipal → Option Text → Outcome TrustedTenantContext
from_principal principal client_tenant_id = do
  tenant_id ← or_forbidden (truthy principal.tenant_id)
  membership_id ← or_forbidden (truthy principal.membership_id)
  deny_unless (any is_tenant_role principal.roles)
  deny_unless (not (client_conflicts client_tenant_id tenant_id))
  pass (record {
    identity_user_id = principal.identity_user_id;
    tenant_id = tenant_id;
    membership_id = membership_id;
    roles = principal.roles;
    session_id = principal.session_id;
  })

pub data TenantCapability : Type 0 where
  access_tenant administer_academic_structure : TenantCapability
  manage_learning_content view_tenant_submissions : TenantCapability

abbrev pub capability_roles : TenantCapability → List IdentityRole
capability_roles access_tenant = tenant_admin ∷ staff ∷ teacher ∷ student ∷ []
capability_roles administer_academic_structure = tenant_admin ∷ []
capability_roles manage_learning_content = tenant_admin ∷ teacher ∷ []
capability_roles view_tenant_submissions = tenant_admin ∷ []

-- `principal.tenantId === tenant.tenantId`, where the left side may be undefined
abbrev pub same_text : Option Text → Text → Bool
same_text none t = false
same_text (some s) t = text_eq s t

unfoldable pub require_trusted_tenant :
    TrustedIdentityPrincipal → Option TrustedTenantContext → Outcome (Unit {0})
require_trusted_tenant principal none = deny forbidden
require_trusted_tenant principal (some tenant) = deny_unless (
    text_eq principal.identity_user_id tenant.identity_user_id
    && text_eq principal.session_id tenant.session_id
    && same_text principal.membership_id tenant.membership_id
    && same_text principal.tenant_id tenant.tenant_id)

unfoldable pub require_capability :
    TrustedIdentityPrincipal → Option TrustedTenantContext → TenantCapability → Outcome (Unit {0})
unfolding require_trusted_tenant
require_capability principal tenant capability = do
  require_trusted_tenant principal tenant
  deny_unless (any (λ role. has_role role (capability_roles capability)) principal.roles)

-- `evaluate` is the policy of the resource, which an academic module gives.
unfoldable pub require_resource_policy :
    {Resource Action : Type 0}
    → (Resource → Text)
    → (TrustedIdentityPrincipal → TrustedTenantContext → Action → Resource → Bool)
    → TrustedIdentityPrincipal
    → TrustedTenantContext
    → Action
    → Resource
    → Outcome (Unit {0})
unfolding require_trusted_tenant
require_resource_policy tenant_of evaluate principal tenant action resource = do
  require_trusted_tenant principal (some tenant)
  deny_unless (text_eq (tenant_of resource) tenant.tenant_id)
  deny_unless (evaluate principal tenant action resource)
