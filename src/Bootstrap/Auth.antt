-- ===== src/Bootstrap/Auth.antt =====
-- bootstrap/auth: the bearer credentials of a request and the tenant that they are for. The verifier, a
-- port over a JWT library, is an input: a token's principal, or an exception.
pub mod Tenant
use engram_mesh.Common.{
  String, Bool, true, false, not, ◌||◌, Option, none, some, ◌==◌, nat_eq, if◌then◌else◌,
}
use engram_mesh.Common.Result.{
  Result, ok, err, authentication_required, invalid_token, tenant_access_denied,
  configuration_error, raise_if, ◌>>=◌, ◌>>◌,
}
use engram_mesh.Kernel.Text.{is_blank, strip, before_space, after_space, is_lower}
use engram_mesh.Kernel.Ids.{SubjectId, TenantId}

pub record AuthenticatedPrincipal : Type 0 where
  pub actor_id : SubjectId
  pub tenant_id : TenantId

-- `TokenVerifierPort.verify`
abbrev pub TokenVerifier : Type 0
TokenVerifier = String → Result AuthenticatedPrincipal

unfoldable pub parse_bearer_token : Option String → Result String
parse_bearer_token none = err authentication_required
parse_bearer_token (some authorization) = do
  raise_if (is_blank authorization) authentication_required
  raise_if
      (not (is_lower (before_space authorization) "bearer") || is_blank (after_space authorization))
      invalid_token
  ok (strip (after_space authorization))

unfoldable pub authenticate_tenant_request :
    TenantId → Option String → TokenVerifier → Result AuthenticatedPrincipal
authenticate_tenant_request path_tenant_id authorization verify = do
  token ← parse_bearer_token authorization
  principal ← verify token
  raise_if (not (principal.tenant_id == path_tenant_id)) tenant_access_denied
  ok principal

-- The settings that the routes read: whether OIDC is on, and the verifier, if there is one.
pub record AuthSettings : Type 0 where
  pub oidc_enabled : Bool
  pub verifier : Option TokenVerifier

-- `_tenant_auth_context`, which `episode_auth_context` and `execution_auth_context` enter: the principal
-- that it yields, or the exception that it raises. The principal is bound for the body alone.
unfoldable pub tenant_auth_context :
    AuthSettings → TenantId → Option String → Result (Option AuthenticatedPrincipal)
tenant_auth_context settings path_tenant_id authorization =
    if not settings.oidc_enabled then ok none else elim settings.verifier [
      | none ↦ err (configuration_error "oidc_misconfigured" "OIDC verifier is not configured")
      | some verify ↦
          authenticate_tenant_request path_tenant_id authorization verify >>= λ principal.
          ok (some principal)
    ]
