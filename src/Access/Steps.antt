-- ===== src/Access/Steps.antt =====
-- What each guard has established of a request that it lets through.
use edupay_academico.Prelude.{
  ◌≡◌, ◌⊎◌, inl, inr, sym, subst, true, false, Option, none, some, List, [], ◌∷◌, any, All, Text,
  text_eq_iff, arith, Bool-cases, Option-cases,
}
use edupay_academico.Access.{
  TrustedIdentityPrincipal, TrustedTenantContext, TenantCapability, pass, is_tenant_role, has_role,
  capability_roles, require_capability, require_trusted_tenant,
}
use edupay_academico.Access.Guards.{
  Route, Request, SessionStatus, SessionStatusRequest, read_bearer_token, resolve_tenant_context,
  reject_conflicting_client_selectors, tenant_context_guard, require_capabilities, capabilities_of,
  authorize, authorization_guard, require_current_active_context, current_identity_status_guard,
  identity_authentication_guard,
}
use edupay_academico.Access.Contexts.{
  bind-eq-pass, deny_unless-pass, IsOwn, from_principal-IsOwn, NamesOnly, reject-NamesOnly,
}

module _ (validate_access_token : Text → Option TrustedIdentityPrincipal) where
  -- The bearer token of the request is valid, and stands for the principal.
  pub record IsAuthenticated (r : Request) (p : TrustedIdentityPrincipal) : Type 0 where
    pub token : Text
    pub token_read : read_bearer_token r.authorization ≡ pass token
    pub valid : validate_access_token token ≡ some p

  pub authentication-pass :
      (route : Route) (r r' : Request)
      → route.is_public ≡ false
      → identity_authentication_guard validate_access_token route r ≡ pass r'
      → (p : TrustedIdentityPrincipal) × IsAuthenticated r p
        × (r' ≡ record r { principal = some p })
  unfolding identity_authentication_guard
  authentication-pass route r r' closed e =
      let e' = rw closed at e in
      let (token, read, e'') = bind-eq-pass (read_bearer_token r.authorization) _ e' in
      elim (Option-cases (validate_access_token token)) [
        | inl invalid ↦ ground (arith, invalid)
        | inr (p, valid) ↦
            (p, record { token = token; token_read = read; valid = valid }, ground (arith, valid))
      ]

resolve-IsOwn :
    (p : TrustedIdentityPrincipal) (c : TrustedTenantContext)
    → resolve_tenant_context p ≡ pass c
    → IsOwn p c
unfolding resolve_tenant_context
resolve-IsOwn p c e = elim (Bool-cases (any is_tenant_role p.roles)) [
  | inl t ↦ from_principal-IsOwn p none c (rw t at e)
  | inr f ↦ ground (arith, f)
]

pub tenant_context-pass :
    (route : Route) (r r' : Request) (p : TrustedIdentityPrincipal)
    → route.requires_tenant_context ≡ true
    → r.principal ≡ some p
    → tenant_context_guard route r ≡ pass r'
    → (c : TrustedTenantContext) × IsOwn p c
      × NamesOnly r c
      × (r' ≡ record r { tenant_context = some c })
unfolding tenant_context_guard
tenant_context-pass route r r' p required at_p e =
    let e' = rw (required, at_p, tenant_context_guard) at e in
    let (c, resolved, e'') = bind-eq-pass (resolve_tenant_context p) _ e' in
    let (u, accepted, e''') = bind-eq-pass (reject_conflicting_client_selectors r c) _ e'' in
    (c, resolve-IsOwn p c resolved, reject-NamesOnly r c accepted, ground arith)

-- Every capability is held by one of the principal's roles.
abbrev pub HasCapabilities : TrustedIdentityPrincipal → List TenantCapability → Type 0
HasCapabilities p = All (λ c. any (λ role. has_role role (capability_roles c)) p.roles ≡ true)

require_capabilities-pass :
    (p : TrustedIdentityPrincipal) (tenant : Option TrustedTenantContext)
    (cs : List TenantCapability) {u : Unit {0}}
    → require_capabilities p tenant cs ≡ pass u
    → HasCapabilities p cs
unfolding require_capabilities require_capability
require_capabilities-pass p tenant [] e = tt
require_capabilities-pass p tenant (c ∷ cs) e =
    let (a, now, later) = bind-eq-pass (require_capability p tenant c) _ e in
    let (b, trusted, allowed) = bind-eq-pass (require_trusted_tenant p tenant) _ now in
    (deny_unless-pass _ allowed, require_capabilities-pass p tenant cs later)

abbrev pub listed : Option (List TenantCapability) → List TenantCapability
listed none = []
listed (some cs) = cs

authorize-pass :
    (cs : List TenantCapability) (r r' : Request) (p : TrustedIdentityPrincipal)
    (c : TrustedTenantContext)
    → r.principal ≡ some p
    → r.tenant_context ≡ some c
    → authorize cs r ≡ pass r'
    → HasCapabilities p cs × (r' ≡ r)
unfolding authorize
authorize-pass [] r r' p c at_p at_c e = cc
authorize-pass (d ∷ ds) r r' p c at_p at_c e =
    let (u, allowed, rest) =
      bind-eq-pass (capabilities_of r.principal r.tenant_context (d ∷ ds)) (λ _. pass r) e in
    (require_capabilities-pass p (some c) (d ∷ ds) (rw (at_p, at_c) at allowed), ground arith)

pub authorization-pass :
    (route : Route) (r r' : Request) (p : TrustedIdentityPrincipal) (c : TrustedTenantContext)
    → r.principal ≡ some p
    → r.tenant_context ≡ some c
    → authorization_guard route r ≡ pass r'
    → HasCapabilities p (listed route.required_capabilities) × (r' ≡ r)
unfolding authorization_guard
authorization-pass route r r' p c at_p at_c e = elim (Option-cases route.required_capabilities) [
  | inl absent ↦ (subst (λ o. HasCapabilities p (listed o)) (sym absent) tt, ground (arith, absent))
  | inr (cs, at_cs) ↦
      let e' : authorize cs r ≡ pass r' = ground (arith, at_cs) in
      let (held, same) = authorize-pass cs r r' p c at_p at_c e' in
      (subst (λ o. HasCapabilities p (listed o)) (sym at_cs) held, same)
]

module _ (check_session_status : SessionStatusRequest → Option SessionStatus) where
  -- Identity says that session and membership are active, of this user, session and tenant.
  pub record IsCurrent (p : TrustedIdentityPrincipal) (c : TrustedTenantContext) : Type 0 where
    pub status : SessionStatus
    pub checked :
        check_session_status (record {
          identity_user_id = p.identity_user_id;
          membership_id = c.membership_id;
          session_id = p.session_id;
          tenant_id = c.tenant_id;
        })
        ≡ some status
    pub active : status.active ≡ true
    pub session_active : status.session_active ≡ true
    pub membership_active : status.membership_active ≡ true
    pub user : status.identity_user_id ≡ p.identity_user_id
    pub session : status.session_id ≡ p.session_id
    pub tenant : status.tenant_id ≡ c.tenant_id
    pub membership : status.membership_id ≡ c.membership_id

  require-IsCurrent :
      (p : TrustedIdentityPrincipal) (c : TrustedTenantContext) {u : Unit {0}}
      → require_current_active_context check_session_status p c ≡ pass u
      → IsCurrent p c
  unfolding require_current_active_context
  require-IsCurrent p c e = elim (Option-cases (check_session_status (asked p c))) [
    | inl silent ↦ ground (arith, silent)
    | inr (s, at_s) ↦
        let ok = deny_unless-pass _ (rw (at_s, require_current_active_context) at e) in
        record {
          status = s;
          checked = at_s;
          active = ground arith;
          session_active = ground arith;
          membership_active = ground arith;
          user = (text_eq_iff _ _).0 (ground arith);
          session = (text_eq_iff _ _).0 (ground arith);
          tenant = (text_eq_iff _ _).0 (ground arith);
          membership = (text_eq_iff _ _).0 (ground arith);
        }
  ]
    where
      asked : TrustedIdentityPrincipal → TrustedTenantContext → SessionStatusRequest
      asked p c = record {
        identity_user_id = p.identity_user_id;
        membership_id = c.membership_id;
        session_id = p.session_id;
        tenant_id = c.tenant_id;
      }

  pub status-pass :
      (route : Route) (r r' : Request) (p : TrustedIdentityPrincipal) (c : TrustedTenantContext)
      → r.principal ≡ some p
      → r.tenant_context ≡ some c
      → current_identity_status_guard check_session_status route r ≡ pass r'
      → ((route.requires_current_identity_status ≡ false) ⊎ IsCurrent p c) × (r' ≡ r)
  unfolding current_identity_status_guard
  status-pass route r r' p c at_p at_c e =
      elim (Bool-cases route.requires_current_identity_status) [
        | inr f ↦ (inl f, ground (arith, f))
        | inl t ↦
            let e' = rw (t, at_p, at_c, current_identity_status_guard) at e in
            let (u, current, rest) =
              bind-eq-pass (require_current_active_context check_session_status p c) _ e' in
            (inr (require-IsCurrent p c current), ground arith)
      ]
