-- ===== src/Access/Examples.antt =====
-- Tests of the guards, and their theorems for one request.
use edupay_academico.Prelude.{◌↔◌, true, false, Option, none, some, [], ◌∷◌, Text}
use edupay_academico.Access.{
  teacher, TrustedIdentityPrincipal, manage_learning_content, TrustedTenantContext, from_principal,
  require_capability,
}
use edupay_academico.Access.Selectors.{
  Value, str, arr, obj, nil, cons, end, field, Collected, collect_selectors, push_selector,
  tenant_id_key,
}
use edupay_academico.Access.Consistent.{Consistent, IsClean, collect_selectors_iff}
use edupay_academico.Access.Guards.{
  Route, Request, SessionStatus, SessionStatusRequest, read_bearer_token, resolve_tenant_context,
  reject_conflicting_client_selectors, tenant_context_guard, require_capabilities,
  authorization_guard, require_current_active_context, current_identity_status_guard,
  identity_authentication_guard, run_guards,
}

-- "t", "m", "u", "s" and "x" name a tenant, a membership, a user, a session and a token.
abbrev principal : TrustedIdentityPrincipal
principal = record {
  identity_user_id = b'u' ∷ [];
  session_id = b's' ∷ [];
  tenant_id = some (b't' ∷ []);
  membership_id = some (b'm' ∷ []);
  roles = teacher ∷ [];
}

abbrev validate : Text → Option TrustedIdentityPrincipal
validate (c ∷ []) = some principal
validate _ = none

abbrev all_current : SessionStatusRequest → Option SessionStatus
all_current r = some (record {
  active = true;
  session_active = true;
  membership_active = true;
  identity_user_id = r.identity_user_id;
  session_id = r.session_id;
  tenant_id = r.tenant_id;
  membership_id = r.membership_id;
})

abbrev route : Route
route = record {
  is_public = false;
  requires_tenant_context = true;
  required_capabilities = some (manage_learning_content ∷ []);
  requires_current_identity_status = true;
}

-- `{ "a": [{ "tenantId": id }] }`
abbrev body : Text → Value
body id = obj (field (b'a' ∷ []) (arr (cons (obj (field tenant_id_key (str id) end)) nil)) end)

-- The header is "bEARER x".
abbrev request : Text → Request
request id = record {
  authorization = some (98 ∷ 69 ∷ 65 ∷ 82 ∷ 69 ∷ 82 ∷ 32 ∷ b'x' ∷ []);
  x_tenant_id = some (b't' ∷ []);
  tenant_id = none;
  x_membership_id = none;
  membership_id = none;
  params = obj end;
  query = obj end;
  body = body id;
  principal = none;
  tenant_context = none;
}

abbrev context : TrustedTenantContext
context = record {
  identity_user_id = b'u' ∷ [];
  tenant_id = b't' ∷ [];
  membership_id = b'm' ∷ [];
  roles = teacher ∷ [];
  session_id = b's' ∷ [];
}

abbrev admitted : Request
admitted = record (request (b't' ∷ [])) {
  principal = some principal;
  tenant_context = some context;
}

guarding : Unit {0}
unfolding run_guards identity_authentication_guard read_bearer_token tenant_context_guard
    from_principal resolve_tenant_context reject_conflicting_client_selectors collect_selectors
    push_selector authorization_guard require_capabilities require_capability
    current_identity_status_guard require_current_active_context
guarding = tt

abbrev nothing_found : Collected
nothing_found = record { tenant_selectors = []; membership_selectors = [] }

collect_selectors_iff_example :
    IsClean (b't' ∷ []) (b'm' ∷ []) (collect_selectors (body (b'q' ∷ [])) nothing_found) ↔ (
      Consistent (b't' ∷ []) (b'm' ∷ []) (body (b'q' ∷ []))
      × IsClean (b't' ∷ []) (b'm' ∷ []) nothing_found)
collect_selectors_iff_example =
    collect_selectors_iff (b't' ∷ []) (b'm' ∷ []) (body (b'q' ∷ [])) nothing_found
