-- ===== src/Bootstrap/Http/App/Claims.antt =====
-- bootstrap/http/app.py: the claim routes with OIDC on.
use engram_mesh.Common.{String, true, Option, ◌≡◌, arith}
use engram_mesh.Common.Int.{ℤ}
use engram_mesh.Common.Result.{ok, returned}
use engram_mesh.Kernel.Ids.{MemoryId}
use engram_mesh.Memory.Query.{GetClaimQuery, ListQuery}
use engram_mesh.Bootstrap.Auth.{AuthSettings, tenant_auth_context}
use engram_mesh.Bootstrap.Auth.Tenant.{tenant_auth_context-ok}
use engram_mesh.Bootstrap.Http.Requests.{
  ReadRequest, resolve_actor_id, to_get_claim_query, to_list_claims_query,
}
use engram_mesh.Bootstrap.Http.App.{get_claim_query, list_claims_query}

module _ (settings : AuthSettings) (on : settings.oidc_enabled ≡ true)
    (authorization : Option String) (request : ReadRequest) where
  pub get_claim_query-never :
      (claim_id : MemoryId) (query : GetClaimQuery)
      → ¬ (get_claim_query settings authorization request claim_id ≡ ok query)
  unfolding get_claim_query to_get_claim_query resolve_actor_id
  get_claim_query-never claim_id query h =
      let (yielded, admitted, h1) =
        returned (tenant_auth_context settings request.path_tenant_id authorization) _ h in
      let (principal, is, _) =
        tenant_auth_context-ok settings request.path_tenant_id authorization on admitted in
      ground arith

  pub list_claims_query-never :
      (limit : ℤ) (cursor : Option String) (query : ListQuery)
      → ¬ (list_claims_query settings authorization request limit cursor ≡ ok query)
  unfolding list_claims_query to_list_claims_query resolve_actor_id
  list_claims_query-never limit cursor query h =
      let (yielded, admitted, h1) =
        returned (tenant_auth_context settings request.path_tenant_id authorization) _ h in
      let (principal, is, _) =
        tenant_auth_context-ok settings request.path_tenant_id authorization on admitted in
      ground arith
