-- ===== src/Bootstrap/Http/App/Routes.antt =====
-- bootstrap/http/app.py: all routes, up to their handlers.
use engram_mesh.Common.{
  String, Bool, true, false, Option, none, ◌≡◌, refl, sym, ◌∙◌, ap, arith, nat_eq,
}
use engram_mesh.Common.Int.{ℤ}
use engram_mesh.Common.Result.{Result, ok, err, returned, ◌>>=◌}
use engram_mesh.Kernel.Ids.{SubjectId, CorrelationId, ExecutionId, MemoryId}
use engram_mesh.Kernel.Parse.{TextParsers}
use engram_mesh.Memory.Scope.{MemoryScope}
use engram_mesh.Bootstrap.Auth.{AuthenticatedPrincipal, AuthSettings}
use engram_mesh.Bootstrap.Http.Schemas.{
  RecordEpisodeRequest, StartExecutionRequest, CancelExecutionRequest,
}
use engram_mesh.Bootstrap.Http.Requests.{
  ReadRequest, to_get_episode_query, to_list_episodes_query, to_get_execution_snapshot_query,
  to_list_executions_query,
}
use engram_mesh.Bootstrap.Http.App.Mapped.{
  Matches, get_episode-Matches, list_episodes-Matches, get_execution-Matches,
  list_executions-Matches,
}
use engram_mesh.Bootstrap.Http.App.Claims.{get_claim_query-never, list_claims_query-never}
use engram_mesh.Bootstrap.Http.App.Identity.{
  IsFrom, record_command-IsFrom, start_command-IsFrom, cancel_command-IsFrom,
  resolved_request-principal,
}
use engram_mesh.Bootstrap.Http.App.{
  Head, with_actor, record_episode_command, start_execution_command, cancel_execution_command,
  resolved_request, get_episode_query, list_episodes_query, get_execution_query,
  list_executions_query, get_claim_query, list_claims_query,
}

-- A request to a route of the API with a tenant in its path. A reading request takes its tenant from there.
pub data ApiRequest : Type 0 where
  recording : RecordEpisodeRequest → ApiRequest
  starting : StartExecutionRequest → ApiRequest
  cancelling : ExecutionId → CancelExecutionRequest → ApiRequest
  reading_episode : MemoryId → ReadRequest → ApiRequest
  listing_episodes : ℤ → Option String → ReadRequest → ApiRequest
  reading_execution : ExecutionId → ReadRequest → ApiRequest
  listing_executions : ℤ → Option String → ReadRequest → ApiRequest
  reading_claim : MemoryId → ReadRequest → ApiRequest
  listing_claims : ℤ → Option String → ReadRequest → ApiRequest

abbrev at_path : Head → ReadRequest → ReadRequest
at_path head request = record request { path_tenant_id = head.tenant_id }

abbrev pub is_claim_request : ApiRequest → Bool
is_claim_request (reading_claim _ _) = true
is_claim_request (listing_claims _ _ _) = true
is_claim_request _ = false

-- The actor and the scope of a mapped value.
abbrev hand :
    {M : Type 0} → Result M → (M → SubjectId) → (M → MemoryScope) → Result (SubjectId × MemoryScope)
hand (err e) actor_id scope = err e
hand (ok m) actor_id scope = ok (actor_id m, scope m)

hand-never :
    {M : Type 0} (mapped : Result M) (actor_id : M → SubjectId) (scope : M → MemoryScope)
    (x : SubjectId × MemoryScope)
    → ((m : M) → ¬ (mapped ≡ ok m))
    → ¬ (hand mapped actor_id scope ≡ ok x)
hand-never (err e) actor_id scope x never h = absurd (ground arith)
hand-never (ok m) actor_id scope x never h = never m refl

-- The actor and the scope that the route hands to its handler, or the exception before it.
module _ (settings : AuthSettings) (parsers : TextParsers) (new_correlation_id : CorrelationId)
    (head : Head) where
  abbrev pub handed : ApiRequest → Result (SubjectId × MemoryScope)
  handed (recording body) =
      hand (record_episode_command settings parsers new_correlation_id head body) (λ c. c.actor_id)
        (λ c. c.scope)
  handed (starting body) =
      hand (start_execution_command settings parsers new_correlation_id head body) (λ c. c.actor_id)
        (λ c. c.scope)
  handed (cancelling execution_id body) =
      hand (cancel_execution_command settings parsers new_correlation_id head execution_id body)
        (λ c. c.actor_id) (λ c. c.scope)
  handed (reading_episode episode_id request) =
      hand (get_episode_query settings head.authorization (at_path head request) episode_id)
        (λ q. q.actor_id) (λ q. q.scope)
  handed (listing_episodes limit cursor request) =
      hand (list_episodes_query settings head.authorization (at_path head request) limit cursor)
        (λ q. q.actor_id) (λ q. q.scope)
  handed (reading_execution execution_id request) =
      hand (get_execution_query settings head.authorization (at_path head request) execution_id)
        (λ q. q.actor_id) (λ q. q.scope)
  handed (listing_executions limit cursor request) =
      hand (list_executions_query settings head.authorization (at_path head request) limit cursor)
        (λ q. q.actor_id) (λ q. q.scope)
  handed (reading_claim claim_id request) =
      hand (get_claim_query settings head.authorization (at_path head request) claim_id)
        (λ q. q.actor_id) (λ q. q.scope)
  handed (listing_claims limit cursor request) =
      hand (list_claims_query settings head.authorization (at_path head request) limit cursor)
        (λ q. q.actor_id) (λ q. q.scope)

  module _ (on : settings.oidc_enabled ≡ true) where
    -- What is handed on from a mapped value has the value's actor and scope.
    hand-IsFrom :
        {M : Type 0} (mapped : Result M) (actor_id : M → SubjectId) (scope : M → MemoryScope)
        (actor : SubjectId) (of : MemoryScope)
        → ((m : M)
            → mapped ≡ ok m
            → IsFrom settings head.tenant_id head.authorization (actor_id m) (scope m))
        → hand mapped actor_id scope ≡ ok (actor, of)
        → IsFrom settings head.tenant_id head.authorization actor of
    hand-IsFrom (err e) actor_id scope actor of from h = absurd (ground arith)
    hand-IsFrom (ok m) actor_id scope actor of from h =
        let f = from m refl in
        let (same_actor, same_scope) : (actor_id m ≡ actor) × (scope m ≡ of) = ground arith in
        record {
          principal = f.principal;
          authenticated = f.authenticated;
          actor = sym same_actor ∙ f.actor;
          tenant = ap (λ x. x.tenant_id) (sym same_scope) ∙ f.tenant;
        }

    -- A query that is mapped from the resolved request is from its token.
    query-IsFrom :
        {Q : Type 0} (request : ReadRequest) (to : ReadRequest → Result Q)
        (actor_id : Q → SubjectId) (scope : Q → MemoryScope)
        → ((principal : AuthenticatedPrincipal) (query : Q)
            → to (with_actor (at_path head request) principal.actor_id) ≡ ok query
            → Matches head.tenant_id principal (actor_id query) (scope query))
        → (actor : SubjectId) (of : MemoryScope)
        → hand
            (resolved_request settings head.authorization (at_path head request) >>= to)
            actor_id
            scope
          ≡ ok (actor, of)
        → IsFrom settings head.tenant_id head.authorization actor of
    unfolding Matches
    query-IsFrom request to actor_id scope matches actor of =
        hand-IsFrom (resolved_request settings head.authorization (at_path head request) >>= to)
          actor_id scope actor of
          λ query h.
            let (resolved, is_resolved, h1) =
              returned (resolved_request settings head.authorization (at_path head request)) to h in
            let (principal, authenticated, is) =
              resolved_request-principal settings on head.authorization (at_path head request)
                resolved is_resolved in
            let (by, tenant) = matches principal query (ap to (sym is) ∙ h1) in
            record {
              principal = principal;
              authenticated = authenticated;
              actor = by;
              tenant = tenant;
            }

    -- With OIDC on, what a route hands to its handler is of the path's tenant, and its actor is the principal
    -- of a bearer token that the request carries, that the configured verifier accepts and whose tenant is
    -- the path's.
    pub handed-IsFrom :
        (request : ApiRequest) (actor_id : SubjectId) (scope : MemoryScope)
        → handed request ≡ ok (actor_id, scope)
        → IsFrom settings head.tenant_id head.authorization actor_id scope
    unfolding get_episode_query list_episodes_query get_execution_query list_executions_query
    handed-IsFrom (recording body) actor_id scope =
        hand-IsFrom (record_episode_command settings parsers new_correlation_id head body) _ _
          actor_id scope (record_command-IsFrom settings on parsers new_correlation_id head body)
    handed-IsFrom (starting body) actor_id scope =
        hand-IsFrom (start_execution_command settings parsers new_correlation_id head body) _ _
          actor_id scope (start_command-IsFrom settings on parsers new_correlation_id head body)
    handed-IsFrom (cancelling id body) actor_id scope =
        hand-IsFrom (cancel_execution_command settings parsers new_correlation_id head id body) _ _
          actor_id scope (cancel_command-IsFrom settings on parsers new_correlation_id head id body)
    handed-IsFrom (reading_episode id request) actor_id scope =
        query-IsFrom request (λ r. to_get_episode_query r id none) (λ q. q.actor_id) (λ q. q.scope)
          (λ p q. get_episode-Matches (at_path head request) id q p) actor_id scope
    handed-IsFrom (listing_episodes limit cursor request) actor_id scope =
        query-IsFrom request (λ r. to_list_episodes_query r limit cursor none) (λ q. q.actor_id)
          (λ q. q.scope) (λ p q. list_episodes-Matches (at_path head request) limit cursor q p)
          actor_id scope
    handed-IsFrom (reading_execution id request) actor_id scope =
        query-IsFrom request (λ r. to_get_execution_snapshot_query r id none) (λ q. q.actor_id)
          (λ q. q.scope) (λ p q. get_execution-Matches (at_path head request) id q p) actor_id scope
    handed-IsFrom (listing_executions limit cursor request) actor_id scope =
        query-IsFrom request (λ r. to_list_executions_query r limit cursor none) (λ q. q.actor_id)
          (λ q. q.scope) (λ p q. list_executions-Matches (at_path head request) limit cursor q p)
          actor_id scope
    handed-IsFrom (reading_claim id request) actor_id scope =
        hand-IsFrom (get_claim_query settings head.authorization (at_path head request) id) _ _
          actor_id scope
          λ query h.
            absurd (
              get_claim_query-never settings on head.authorization (at_path head request) id query
                h)
    handed-IsFrom (listing_claims limit cursor request) actor_id scope =
        hand-IsFrom
          (list_claims_query settings head.authorization (at_path head request) limit cursor) _ _
          actor_id scope
          λ query h. absurd (
            list_claims_query-never settings on head.authorization (at_path head request) limit
              cursor query h)

    -- With OIDC on, no request to a claim route gets to its handler, whatever it carries: the route hands the
    -- mapper both the principal and the actor that it has resolved from it.
    pub claims_never_read :
        (request : ApiRequest) (actor_id : SubjectId) (scope : MemoryScope)
        → is_claim_request request ≡ true
        → ¬ (handed request ≡ ok (actor_id, scope))
    claims_never_read (reading_claim id request) actor_id scope is h =
        hand-never (get_claim_query settings head.authorization (at_path head request) id) _ _ _
          (get_claim_query-never settings on head.authorization (at_path head request) id) h
    claims_never_read (listing_claims limit cursor request) actor_id scope is h =
        hand-never
          (list_claims_query settings head.authorization (at_path head request) limit cursor) _ _ _
          (list_claims_query-never settings on head.authorization (at_path head request) limit
            cursor)
          h
    claims_never_read (recording _) actor_id scope is h = absurd (ground arith)
    claims_never_read (starting _) actor_id scope is h = absurd (ground arith)
    claims_never_read (cancelling _ _) actor_id scope is h = absurd (ground arith)
    claims_never_read (reading_episode _ _) actor_id scope is h = absurd (ground arith)
    claims_never_read (listing_episodes _ _ _) actor_id scope is h = absurd (ground arith)
    claims_never_read (reading_execution _ _) actor_id scope is h = absurd (ground arith)
    claims_never_read (listing_executions _ _ _) actor_id scope is h = absurd (ground arith)
