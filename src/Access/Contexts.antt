-- ===== src/Access/Contexts.antt =====
-- What a tenant context that was made, and client selectors that were accepted, have established.
use edupay_academico.Prelude.{
  ◌≡◌, inl, inr, refl, Bool, true, false, not, Option, none, some, any, Text, arith, Option-cases,
}
use edupay_academico.Access.{
  TrustedIdentityPrincipal, TrustedTenantContext, Outcome, pass, deny, ◌>>=◌, deny_unless, truthy,
  from_principal, is_tenant_role,
}
use edupay_academico.Access.Selectors.{header_value}
use edupay_academico.Access.Consistent.{
  Names, Consistent, IsClean, conflicts_iff, collect_selectors_iff, or_false,
}
use edupay_academico.Access.Guards.{Request, collect_request, reject_conflicting_client_selectors}

pub bind-eq-pass {ℓ κ} :
    {A : Type ℓ} {B : Type κ} (m : Outcome A) (f : A → Outcome B) {b : B}
    → (m >>= f) ≡ pass b
    → (a : A) × (m ≡ pass a) × (f a ≡ pass b)
bind-eq-pass (pass a) f e = (a, refl, e)
bind-eq-pass (deny r) f e = cc

pub deny_unless-pass : (b : Bool) {u : Unit {0}} → deny_unless b ≡ pass u → b ≡ true
deny_unless-pass true e = refl
deny_unless-pass false e = cc

eq-false_of_not : (b : Bool) → not b ≡ true → b ≡ false
eq-false_of_not true e = cc
eq-false_of_not false e = refl

-- The context is the principal's own.
pub record IsOwn (p : TrustedIdentityPrincipal) (c : TrustedTenantContext) : Type 0 where
  pub user : c.identity_user_id ≡ p.identity_user_id
  pub session : c.session_id ≡ p.session_id
  pub tenant : p.tenant_id ≡ some c.tenant_id
  pub membership : p.membership_id ≡ some c.membership_id
  pub tenant_role : any is_tenant_role p.roles ≡ true

truthy-some : (o : Option Text) (t : Text) → truthy o ≡ some t → o ≡ some t
truthy-some none t e = cc
truthy-some (some s) t e = ground arith

pub from_principal-IsOwn :
    (p : TrustedIdentityPrincipal) (client : Option Text) (c : TrustedTenantContext)
    → from_principal p client ≡ pass c
    → IsOwn p c
unfolding from_principal
from_principal-IsOwn p client c e = elim (Option-cases (truthy p.tenant_id)) [
  | inl no_tenant ↦ ground (arith, no_tenant)
  | inr (t, at_t) ↦ elim (Option-cases (truthy p.membership_id)) [
    | inl no_membership ↦ ground (arith, at_t, no_membership)
    | inr (m, at_m) ↦
        ground
          (arith, at_t, at_m, truthy-some p.tenant_id t at_t, truthy-some p.membership_id m at_m)
  ]
]

-- What the client says of tenant and membership, in headers and at any depth of parameters, query
-- and body, names the ids of the context.
pub record NamesOnly (r : Request) (c : TrustedTenantContext) : Type 0 where
  pub x_tenant_id : Names c.tenant_id (header_value r.x_tenant_id)
  pub tenant_id : Names c.tenant_id (header_value r.tenant_id)
  pub x_membership_id : Names c.membership_id (header_value r.x_membership_id)
  pub membership_id : Names c.membership_id (header_value r.membership_id)
  pub params : Consistent c.tenant_id c.membership_id r.params
  pub query : Consistent c.tenant_id c.membership_id r.query
  pub body : Consistent c.tenant_id c.membership_id r.body

pub reject-NamesOnly :
    (r : Request) (c : TrustedTenantContext) {u : Unit {0}}
    → reject_conflicting_client_selectors r c ≡ pass u
    → NamesOnly r c
unfolding reject_conflicting_client_selectors collect_request
reject-NamesOnly r c e =
    let clean : IsClean c.tenant_id c.membership_id (collect_request r) =
      or_false _ _ (eq-false_of_not _ (deny_unless-pass _ e)) in
    let (body, h) = (collect_selectors_iff c.tenant_id c.membership_id r.body _).0 clean in
    let (query, h') = (collect_selectors_iff c.tenant_id c.membership_id r.query _).0 h in
    let (params, h'') = (collect_selectors_iff c.tenant_id c.membership_id r.params _).0 h' in
    let (a, b) = or_false _ _ h''.0 in
    let (d, f) = or_false _ _ h''.1 in
    record {
      x_tenant_id = (conflicts_iff c.tenant_id _).0 a;
      tenant_id = (conflicts_iff c.tenant_id _).0 (or_false _ _ b).0;
      x_membership_id = (conflicts_iff c.membership_id _).0 d;
      membership_id = (conflicts_iff c.membership_id _).0 (or_false _ _ f).0;
      params = params;
      query = query;
      body = body;
    }
