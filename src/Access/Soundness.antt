-- ===== src/Access/Soundness.antt =====
-- What the four guards have established of a request that they let through.
use edupay_academico.Prelude.{◌≡◌, ◌⊎◌, false, Option, some, Text}
use edupay_academico.Access.{TrustedIdentityPrincipal, TrustedTenantContext}
use edupay_academico.Access.Guards.{Route, Request, SessionStatus, SessionStatusRequest}
use edupay_academico.Access.Contexts.{IsOwn, NamesOnly}
use edupay_academico.Access.Steps.{IsAuthenticated, HasCapabilities, listed, IsCurrent}

module _ (validate_access_token : Text → Option TrustedIdentityPrincipal)
    (check_session_status : SessionStatusRequest → Option SessionStatus) where
  pub record Admitted (route : Route) (r r' : Request) : Type 0 where
    pub principal : TrustedIdentityPrincipal
    pub context : TrustedTenantContext
    pub authenticated : IsAuthenticated validate_access_token r principal
    pub own : IsOwn principal context
    pub names : NamesOnly r context
    pub capable : HasCapabilities principal (listed route.required_capabilities)
    pub current :
        (route.requires_current_identity_status ≡ false)
        ⊎ IsCurrent check_session_status principal context
    pub result : r' ≡ record r { principal = some principal; tenant_context = some context }
