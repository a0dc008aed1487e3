-- ===== src/Bootstrap/Http/App/Mapped.antt =====
-- bootstrap/http/mappers.py: what is mapped for a principal is of the tenant and of its actor.
use engram_mesh.Common.{String, inl, inr, Option, some, none, ◌≡◌, arith, nat_eq}
use engram_mesh.Common.Int.{ℤ}
use engram_mesh.Common.Result.{ok, Result-cases}
use engram_mesh.Kernel.Ids.{TenantId, SubjectId, CorrelationId, ExecutionId, MemoryId}
use engram_mesh.Memory.Scope.{MemoryScope, memory_scope}
use engram_mesh.Memory.Query.{ListQuery, make_list_query}
use engram_mesh.Memory.RecordEpisode.{RecordEpisodeCommand, make_command}
use engram_mesh.Memory.GetEpisode.{GetEpisodeQuery}
use engram_mesh.Runtime.UseCases.{
  StartExecutionCommand, make_start_command, CancelExecutionCommand, make_cancel_command,
  GetExecutionSnapshotQuery,
}
use engram_mesh.Runtime.ListExecutions.{ListExecutionsQuery}
use engram_mesh.Runtime.ListExecutions
use engram_mesh.Bootstrap.Auth.{AuthenticatedPrincipal}
use engram_mesh.Bootstrap.Http.Schemas.{
  ScopeRequest, RecordEpisodeRequest, StartExecutionRequest, CancelExecutionRequest,
}
use engram_mesh.Bootstrap.Http.Requests.{
  ReadRequest, resolve_actor_id, scope_from_request, to_command, to_start_execution_command,
  to_cancel_execution_command, to_get_episode_query, to_list_episodes_query,
  to_get_execution_snapshot_query, to_list_executions_query,
}
use engram_mesh.Bootstrap.Http.App.{with_actor}

-- The actor is the principal's, and the scope of the tenant.
unfoldable pub Matches : TenantId → AuthenticatedPrincipal → SubjectId → MemoryScope → Type 0
Matches tenant_id principal actor_id scope =
    (actor_id ≡ principal.actor_id) × (scope.tenant_id ≡ tenant_id)

pub to_command-Matches :
    (tenant_id : TenantId) (correlation_id : CorrelationId) (body : RecordEpisodeRequest)
    (principal : AuthenticatedPrincipal) (command : RecordEpisodeCommand)
    → to_command tenant_id correlation_id body (some principal) ≡ ok command
    → Matches tenant_id principal command.actor_id command.scope
unfolding to_command resolve_actor_id memory_scope make_command Matches
to_command-Matches tenant_id correlation_id body principal command h = ground arith

scope_from_request-tenant :
    (tenant_id : TenantId) (request : ScopeRequest) (scope : MemoryScope)
    → scope_from_request tenant_id request ≡ ok scope
    → scope.tenant_id ≡ tenant_id
unfolding scope_from_request memory_scope
scope_from_request-tenant tenant_id request scope h = ground arith

pub to_start-Matches :
    (tenant_id : TenantId) (correlation_id : CorrelationId) (body : StartExecutionRequest)
    (principal : AuthenticatedPrincipal) (command : StartExecutionCommand)
    → to_start_execution_command tenant_id correlation_id body (some principal) ≡ ok command
    → Matches tenant_id principal command.actor_id command.scope
unfolding to_start_execution_command resolve_actor_id make_start_command Matches
to_start-Matches tenant_id correlation_id body principal command h =
    elim (Result-cases (scope_from_request tenant_id body.scope)) [
      | inl (e, raised) ↦ ground arith
      | inr (scope, scoped) ↦
          let tenant = scope_from_request-tenant tenant_id body.scope scope scoped in ground arith
    ]

pub to_cancel-Matches :
    (tenant_id : TenantId) (correlation_id : CorrelationId) (execution_id : ExecutionId)
    (body : CancelExecutionRequest) (principal : AuthenticatedPrincipal)
    (command : CancelExecutionCommand)
    → to_cancel_execution_command tenant_id correlation_id execution_id body (some principal)
      ≡ ok command
    → Matches tenant_id principal command.actor_id command.scope
unfolding to_cancel_execution_command scope_from_request resolve_actor_id memory_scope
    make_cancel_command Matches
to_cancel-Matches tenant_id correlation_id execution_id body principal command h = ground arith

pub get_episode-Matches :
    (request : ReadRequest) (episode_id : MemoryId) (query : GetEpisodeQuery)
    (principal : AuthenticatedPrincipal)
    → to_get_episode_query (with_actor request principal.actor_id) episode_id none ≡ ok query
    → Matches request.path_tenant_id principal query.actor_id query.scope
unfolding to_get_episode_query resolve_actor_id memory_scope Matches
get_episode-Matches request episode_id query principal h = ground arith

pub list_episodes-Matches :
    (request : ReadRequest) (limit : ℤ) (cursor : Option String) (query : ListQuery)
    (principal : AuthenticatedPrincipal)
    → to_list_episodes_query (with_actor request principal.actor_id) limit cursor none ≡ ok query
    → Matches request.path_tenant_id principal query.actor_id query.scope
unfolding to_list_episodes_query resolve_actor_id memory_scope make_list_query Matches
list_episodes-Matches request limit cursor query principal h = ground arith

pub get_execution-Matches :
    (request : ReadRequest) (execution_id : ExecutionId) (query : GetExecutionSnapshotQuery)
    (principal : AuthenticatedPrincipal)
    → to_get_execution_snapshot_query (with_actor request principal.actor_id) execution_id none
      ≡ ok query
    → Matches request.path_tenant_id principal query.actor_id query.scope
unfolding to_get_execution_snapshot_query resolve_actor_id memory_scope Matches
get_execution-Matches request execution_id query principal h = ground arith

pub list_executions-Matches :
    (request : ReadRequest) (limit : ℤ) (cursor : Option String) (query : ListExecutionsQuery)
    (principal : AuthenticatedPrincipal)
    → to_list_executions_query (with_actor request principal.actor_id) limit cursor none ≡ ok query
    → Matches request.path_tenant_id principal query.actor_id query.scope
unfolding to_list_executions_query resolve_actor_id memory_scope
    ListExecutions.list_executions_query Matches
list_executions-Matches request limit cursor query principal h = ground arith
