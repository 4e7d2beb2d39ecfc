-- ===== src/Access/Guards.antt =====
-- The four global guards, in the order in which security/security-foundation.module.ts provides
-- them: authentication/identity-authentication.guard.ts, tenant/tenant-context.guard.ts,
-- authorization/authorization.guard.ts and identity/current-identity-status.guard.ts, with
-- identity/current-identity-status.service.ts and authorization/support-context.policy.ts.
-- The verifier of access tokens and the answer of Identity on a session are parameters.
use edupay_academico.Prelude.{
  Bool, true, false, not, Option, none, some, List, [], ◌∷◌, ◌&&◌, ◌||◌, any, Text, text_eq,
  is_space, if◌then◌else◌, ◌==◌,
}
use edupay_academico.Access.{
  TrustedIdentityPrincipal, TrustedTenantContext, TenantCapability, unauthorized, forbidden,
  service_unavailable, Outcome, pass, deny, ◌>>=◌, ◌>>◌, deny_unless, from_principal,
  is_tenant_role, require_capability,
}
use edupay_academico.Access.Selectors.{
  Value, Collected, collect_selectors, has_conflict, header_value,
}

-- The metadata that decorators put on a route; absent metadata is `false` or `none`.
pub record Route : Type 0 where
  pub is_public : Bool
  pub requires_tenant_context : Bool
  pub required_capabilities : Option (List TenantCapability)
  pub requires_current_identity_status : Bool

pub record Request : Type 0 where
  pub authorization : Option Text
  pub x_tenant_id : Option Text
  pub tenant_id : Option Text
  pub x_membership_id : Option Text
  pub membership_id : Option Text
  pub params : Value
  pub query : Value
  pub body : Value
  pub principal : Option TrustedIdentityPrincipal
  pub tenant_context : Option TrustedTenantContext

-- `/^Bearer ([^\s]+)$/i`
abbrev matches_bearer : Text → Option Text
matches_bearer (b ∷ e ∷ a ∷ r ∷ e' ∷ r' ∷ s ∷ c ∷ token) =
    if (b == 66 || b == 98)
      && (e == 69 || e == 101)
      && (a == 65 || a == 97)
      && (r == 82 || r == 114)
      && (e' == 69 || e' == 101)
      && (r' == 82 || r' == 114)
      && s == 32
      && not (any is_space (c ∷ token))
    then some (c ∷ token)
    else none
matches_bearer _ = none

unfoldable pub read_bearer_token : Option Text → Outcome Text
read_bearer_token none = deny unauthorized
read_bearer_token (some authorization) = elim (matches_bearer authorization) [
  | none ↦ deny unauthorized
  | some token ↦ pass token
]

-- What Identity says of a session.
pub record SessionStatus : Type 0 where
  pub active : Bool
  pub session_active : Bool
  pub membership_active : Bool
  pub identity_user_id : Text
  pub session_id : Text
  pub tenant_id : Text
  pub membership_id : Text

pub record SessionStatusRequest : Type 0 where
  pub identity_user_id : Text
  pub membership_id : Text
  pub session_id : Text
  pub tenant_id : Text

unfoldable pub resolve_tenant_context : TrustedIdentityPrincipal → Outcome TrustedTenantContext
resolve_tenant_context principal =
    if any is_tenant_role principal.roles then from_principal principal none else deny forbidden

unfoldable pub collect_request : Request → Collected
collect_request r = collect_selectors r.body (
    collect_selectors r.query (
      collect_selectors r.params (record {
        tenant_selectors = header_value r.x_tenant_id ∷ header_value r.tenant_id ∷ [];
        membership_selectors = header_value r.x_membership_id ∷ header_value r.membership_id ∷ [];
      })))

unfoldable pub reject_conflicting_client_selectors :
    Request → TrustedTenantContext → Outcome (Unit {0})
unfolding collect_request
reject_conflicting_client_selectors r context = deny_unless (
    not (
      has_conflict (collect_request r).tenant_selectors context.tenant_id
      || has_conflict (collect_request r).membership_selectors context.membership_id))

unfoldable pub tenant_context_guard : Route → Request → Outcome Request
unfolding resolve_tenant_context
tenant_context_guard route r =
    if route.requires_tenant_context
    then elim r.principal [
      | none ↦ deny forbidden
      | some principal ↦ do
        context ← resolve_tenant_context principal
        reject_conflicting_client_selectors r context
        pass (record r { tenant_context = some context })
    ]
    else pass r

unfoldable pub require_capabilities :
    TrustedIdentityPrincipal
    → Option TrustedTenantContext
    → List TenantCapability
    → Outcome (Unit {0})
require_capabilities principal tenant [] = pass tt
require_capabilities principal tenant (c ∷ cs) = do
  require_capability principal tenant c
  require_capabilities principal tenant cs

abbrev pub capabilities_of :
    Option TrustedIdentityPrincipal
    → Option TrustedTenantContext
    → List TenantCapability
    → Outcome (Unit {0})
capabilities_of none tenant cs = deny forbidden
capabilities_of (some principal) none cs = deny forbidden
capabilities_of (some principal) (some tenant) cs = require_capabilities principal (some tenant) cs

-- The body of the guard, for a route that names capabilities.
unfoldable pub authorize : List TenantCapability → Request → Outcome Request
authorize [] r = deny forbidden
authorize (c ∷ cs) r = do capabilities_of r.principal r.tenant_context (c ∷ cs); pass r

unfoldable pub authorization_guard : Route → Request → Outcome Request
unfolding authorize
authorization_guard route r = elim route.required_capabilities [
  | none ↦ pass r
  | some cs ↦ authorize cs r
]

module _ (check_session_status : SessionStatusRequest → Option SessionStatus) where
  unfoldable pub require_current_active_context :
      TrustedIdentityPrincipal → TrustedTenantContext → Outcome (Unit {0})
  require_current_active_context principal tenant =
      elim (check_session_status (record {
        identity_user_id = principal.identity_user_id;
        membership_id = tenant.membership_id;
        session_id = principal.session_id;
        tenant_id = tenant.tenant_id;
      })) [
        | none ↦ deny service_unavailable
        | some status ↦ deny_unless (
            status.active
            && status.session_active
            && status.membership_active
            && text_eq status.identity_user_id principal.identity_user_id
            && text_eq status.session_id principal.session_id
            && text_eq status.tenant_id tenant.tenant_id
            && text_eq status.membership_id tenant.membership_id)
      ]

  abbrev pub status_of :
      Option TrustedIdentityPrincipal → Option TrustedTenantContext → Outcome (Unit {0})
  status_of none tenant = deny forbidden
  status_of (some principal) none = deny forbidden
  status_of (some principal) (some tenant) = require_current_active_context principal tenant

  unfoldable pub current_identity_status_guard : Route → Request → Outcome Request
  current_identity_status_guard route r = elim route.requires_current_identity_status [
    | false ↦ pass r
    | true ↦ do status_of r.principal r.tenant_context; pass r
  ]

module _ (validate_access_token : Text → Option TrustedIdentityPrincipal) where
  abbrev validated : Text → Outcome TrustedIdentityPrincipal
  validated token = elim (validate_access_token token) [
    | none ↦ deny unauthorized
    | some principal ↦ pass principal
  ]

  unfoldable pub identity_authentication_guard : Route → Request → Outcome Request
  identity_authentication_guard route r = if route.is_public then pass r else do
    token ← read_bearer_token r.authorization
    principal ← validated token
    pass (record r { principal = some principal })

module _ (validate_access_token : Text → Option TrustedIdentityPrincipal)
    (check_session_status : SessionStatusRequest → Option SessionStatus) where
  unfoldable pub run_guards : Route → Request → Outcome Request
  run_guards route r = do
    authenticated ← identity_authentication_guard validate_access_token route r
    in_tenant ← tenant_context_guard route authenticated
    authorized ← authorization_guard route in_tenant
    current_identity_status_guard check_session_status route authorized
