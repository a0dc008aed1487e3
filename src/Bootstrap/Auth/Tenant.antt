-- ===== src/Bootstrap/Auth/Tenant.antt =====
-- bootstrap/auth/dependencies.py: whom a request is from.
use engram_mesh.Common.{
  String, true, false, not, ap, Option, some, ◌≡◌, sym, ◌∙◌, arith, nat_eq, ◌==◌, Option-cases, inl,
  inr,
}
use engram_mesh.Common.Result.{
  ok, raise_if, tenant_access_denied, invalid_token, returned, ◌>>=◌, ◌>>◌,
}
use engram_mesh.Kernel.Ids.{TenantId}
use engram_mesh.Kernel.Text.{is_blank, strip, is_lower}
use engram_mesh.Bootstrap.Auth.{
  AuthenticatedPrincipal, AuthSettings, TokenVerifier, parse_bearer_token,
  authenticate_tenant_request, tenant_auth_context,
}

-- The request carries a bearer token that the configured verifier accepts as the principal's, and the
-- principal is of the tenant.
pub record IsAuthenticated (settings : AuthSettings) (tenant_id : TenantId)
    (authorization : Option String) (principal : AuthenticatedPrincipal) : Type 0 where
  pub verify : TokenVerifier
  pub token : String
  pub configured : settings.verifier ≡ some verify
  pub carried : parse_bearer_token authorization ≡ ok token
  pub verified : verify token ≡ ok principal
  pub tenant : principal.tenant_id ≡ tenant_id

authenticate-ok :
    (tenant_id : TenantId) (authorization : Option String) (verify : TokenVerifier)
    {principal : AuthenticatedPrincipal}
    → authenticate_tenant_request tenant_id authorization verify ≡ ok principal
    → (token : String) × (parse_bearer_token authorization ≡ ok token)
      × (verify token ≡ ok principal)
      × (principal.tenant_id ≡ tenant_id)
unfolding authenticate_tenant_request
authenticate-ok tenant_id authorization verify {principal = principal} h =
    let (token, carried, h1) = returned (parse_bearer_token authorization) _ h in
    let (p, verified, h2) = returned (verify token) _ h1 in
    let (same, tenant) = tenant_checked p h2 in
    (token, carried, verified ∙ ap ok same, sym (ap (λ x. x.tenant_id) same) ∙ tenant)
  where
    tenant_checked :
        (p : AuthenticatedPrincipal)
        → (raise_if (not (p.tenant_id == tenant_id)) tenant_access_denied >> ok p) ≡ ok principal
        → (p ≡ principal) × (p.tenant_id ≡ tenant_id)
    tenant_checked p h = ground (arith, nat_eq.same_iff p.tenant_id tenant_id)

pub tenant_auth_context-ok :
    (settings : AuthSettings) (tenant_id : TenantId) (authorization : Option String)
    {yielded : Option AuthenticatedPrincipal}
    → settings.oidc_enabled ≡ true
    → tenant_auth_context settings tenant_id authorization ≡ ok yielded
    → (principal : AuthenticatedPrincipal) × (yielded ≡ some principal)
      × IsAuthenticated settings tenant_id authorization principal
unfolding tenant_auth_context
tenant_auth_context-ok settings tenant_id authorization {yielded = yielded} on h =
    elim (Option-cases settings.verifier) [
      | inl missing ↦ ground arith
      | inr (verify, configured) ↦
          let h1 : (authenticate_tenant_request tenant_id authorization verify >>= λ p. ok (some p))
              ≡ ok yielded =
            ground arith in
          let (principal, authenticated, h2) =
            returned (authenticate_tenant_request tenant_id authorization verify) _ h1 in
          let (token, carried, verified, tenant) =
            authenticate-ok tenant_id authorization verify authenticated in
          (
            principal,
            ground arith,
            record {
              verify = verify;
              token = token;
              configured = configured;
              carried = carried;
              verified = verified;
              tenant = tenant;
            },
          )
    ]

-- `Bearer ` and the token.
abbrev pub bearer_header : String → String
bearer_header token = String.◌∷◌ "B" (
    String.◌∷◌ "e"
      (String.◌∷◌ "a" (String.◌∷◌ "r" (String.◌∷◌ "e" (String.◌∷◌ "r" (String.◌∷◌ " " (token)))))))

-- The token of a header of the form that clients send comes back.
pub parse_bearer_token-header :
    (token : String)
    → is_blank token ≡ false
    → strip token ≡ token
    → parse_bearer_token (some (bearer_header token)) ≡ ok token
unfolding parse_bearer_token is_blank is_lower
parse_bearer_token-header token solid trimmed =
    let checked : (raise_if (is_blank token) invalid_token >> ok (strip token)) ≡ ok token =
      rw solid (ap ok trimmed) in
    checked
