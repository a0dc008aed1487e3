-- ===== src/Bootstrap/Http/App/Identity.antt =====
-- bootstrap/http/app.py: with OIDC on, what the handlers get is of the token's tenant and actor.
use engram_mesh.Common.{String, true, Option, some, ◌≡◌, sym, ◌∙◌, ap, arith, nat_eq}
use engram_mesh.Common.Result.{Result, ok, returned, ◌>>=◌}
use engram_mesh.Kernel.Ids.{TenantId, SubjectId, CorrelationId, ExecutionId}
use engram_mesh.Kernel.Parse.{TextParsers}
use engram_mesh.Memory.Scope.{MemoryScope}
use engram_mesh.Memory.RecordEpisode.{RecordEpisodeCommand}
use engram_mesh.Runtime.UseCases.{StartExecutionCommand, CancelExecutionCommand}
use engram_mesh.Bootstrap.Auth.{AuthenticatedPrincipal, AuthSettings, tenant_auth_context}
use engram_mesh.Bootstrap.Auth.Tenant.{IsAuthenticated, tenant_auth_context-ok}
use engram_mesh.Bootstrap.Http.Schemas.{
  RecordEpisodeRequest, StartExecutionRequest, CancelExecutionRequest,
}
use engram_mesh.Bootstrap.Http.Requests.{
  ReadRequest, resolve_actor_id, parse_correlation_id, to_command, to_start_execution_command,
  to_cancel_execution_command,
}
use engram_mesh.Bootstrap.Http.App.Mapped.{
  Matches, to_command-Matches, to_start-Matches, to_cancel-Matches,
}
use engram_mesh.Bootstrap.Http.App.{
  Head, with_actor, record_episode_command, start_execution_command, cancel_execution_command,
  resolved_request,
}

-- The scope is of the tenant, and the actor is the one whom a token of that tenant was issued to.
pub record IsFrom (settings : AuthSettings) (tenant_id : TenantId) (authorization : Option String)
    (actor_id : SubjectId) (scope : MemoryScope) : Type 0 where
  pub principal : AuthenticatedPrincipal
  pub authenticated : IsAuthenticated settings tenant_id authorization principal
  pub actor : actor_id ≡ principal.actor_id
  pub tenant : scope.tenant_id ≡ tenant_id

module _ (settings : AuthSettings) (on : settings.oidc_enabled ≡ true) where
  -- A body that has entered the context has a principal.
  entered :
      {A : Type 0} (tenant_id : TenantId) (authorization : Option String)
      (rest : Option AuthenticatedPrincipal → Result A) (a : A)
      → (tenant_auth_context settings tenant_id authorization >>= rest) ≡ ok a
      → (principal : AuthenticatedPrincipal) × IsAuthenticated settings tenant_id authorization
          principal
        × (rest (some principal) ≡ ok a)
  entered tenant_id authorization rest a h =
      let (yielded, admitted, h1) =
        returned (tenant_auth_context settings tenant_id authorization) rest h in
      let (principal, is, authenticated) =
        tenant_auth_context-ok settings tenant_id authorization on admitted in
      (principal, authenticated, ap rest (sym is) ∙ h1)

  module _ (parsers : TextParsers) (new_correlation_id : CorrelationId) (head : Head) where
    -- A command that is mapped with the principal is from the request's token.
    command-IsFrom :
        {C : Type 0} (to : CorrelationId → Option AuthenticatedPrincipal → Result C)
        (actor_id : C → SubjectId) (scope : C → MemoryScope) (command : C)
        → ((correlation_id : CorrelationId) (principal : AuthenticatedPrincipal)
            → to correlation_id (some principal) ≡ ok command
            → Matches head.tenant_id principal (actor_id command) (scope command))
        → (tenant_auth_context settings head.tenant_id head.authorization >>= λ principal.
            parse_correlation_id parsers new_correlation_id head.correlation_id
            >>= λ correlation_id. to correlation_id principal)
          ≡ ok command
        → IsFrom settings head.tenant_id head.authorization (actor_id command) (scope command)
    unfolding Matches
    command-IsFrom to actor_id scope command matches h =
        let (principal, authenticated, h1) =
          entered head.tenant_id head.authorization _ command h in
        let (correlation_id, parsed, h2) =
          returned (parse_correlation_id parsers new_correlation_id head.correlation_id) _ h1 in
        let (actor, tenant) = matches correlation_id principal h2 in
        record {
          principal = principal;
          authenticated = authenticated;
          actor = actor;
          tenant = tenant;
        }

    pub record_command-IsFrom :
        (body : RecordEpisodeRequest) (command : RecordEpisodeCommand)
        → record_episode_command settings parsers new_correlation_id head body ≡ ok command
        → IsFrom settings head.tenant_id head.authorization command.actor_id command.scope
    unfolding record_episode_command
    record_command-IsFrom body command =
        command-IsFrom (λ c p. to_command head.tenant_id c body p) (λ c. c.actor_id) (λ c. c.scope)
          command (λ c p. to_command-Matches head.tenant_id c body p command)

    pub start_command-IsFrom :
        (body : StartExecutionRequest) (command : StartExecutionCommand)
        → start_execution_command settings parsers new_correlation_id head body ≡ ok command
        → IsFrom settings head.tenant_id head.authorization command.actor_id command.scope
    unfolding start_execution_command
    start_command-IsFrom body command =
        command-IsFrom (λ c p. to_start_execution_command head.tenant_id c body p) (λ c. c.actor_id)
          (λ c. c.scope) command (λ c p. to_start-Matches head.tenant_id c body p command)

    pub cancel_command-IsFrom :
        (execution_id : ExecutionId) (body : CancelExecutionRequest)
        (command : CancelExecutionCommand)
        → cancel_execution_command settings parsers new_correlation_id head execution_id body
          ≡ ok command
        → IsFrom settings head.tenant_id head.authorization command.actor_id command.scope
    unfolding cancel_execution_command
    cancel_command-IsFrom execution_id body command =
        command-IsFrom (λ c p. to_cancel_execution_command head.tenant_id c execution_id body p)
          (λ c. c.actor_id) (λ c. c.scope) command
          (λ c p. to_cancel-Matches head.tenant_id c execution_id body p command)

  module _ (authorization : Option String) (request : ReadRequest) where
    pub resolved_request-principal :
        (resolved : ReadRequest)
        → resolved_request settings authorization request ≡ ok resolved
        → (principal : AuthenticatedPrincipal) × IsAuthenticated settings request.path_tenant_id
            authorization principal
          × (resolved ≡ with_actor request principal.actor_id)
    unfolding resolved_request resolve_actor_id
    resolved_request-principal resolved h =
        let (principal, authenticated, h1) =
          entered request.path_tenant_id authorization _ resolved h in
        (principal, authenticated, ground arith)
