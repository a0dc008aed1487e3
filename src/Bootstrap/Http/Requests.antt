-- ===== src/Bootstrap/Http/Requests.antt =====
-- bootstrap/http/mappers.py: requests as commands and queries.
pub mod Bounds
pub mod Validated
pub mod Episodes
use engram_mesh.Common.{
  String, Bool, true, not, ◌||◌, Option, none, some, ◌==◌, nat_eq, is_some, if◌then◌else◌,
}
use engram_mesh.Common.Int.{ℤ, pos, ltb_ℤ}
use engram_mesh.Common.Result.{
  Result, ok, err, value_error, tenant_mismatch, invalid_correlation_id, limit_out_of_range,
  actor_id_not_allowed, actor_id_required, memory_query_scope_mismatch, raise_if, ◌>>=◌, ◌>>◌,
}
use engram_mesh.Kernel.Ids.{
  UuidValue, TenantId, SubjectId, AgentInstanceId, MemoryId, ExecutionId, CorrelationId,
}
use engram_mesh.Kernel.Parse.{TextParsers}
use engram_mesh.Memory.Scope.{MemoryScope, memory_scope, scope_eq}
use engram_mesh.Memory.Query.{
  MemoryQuery, make_memory_query, ListQuery, make_list_query, GetClaimQuery,
}
use engram_mesh.Memory.RecordEpisode.{RecordEpisodeCommand, make_command}
use engram_mesh.Memory.GetEpisode.{GetEpisodeQuery}
use engram_mesh.Runtime.Model.{Budget, make_budget}
use engram_mesh.Runtime.UseCases.{
  StartExecutionCommand, make_start_command, CancelExecutionCommand, make_cancel_command,
  GetExecutionSnapshotQuery,
}
use engram_mesh.Runtime.ListExecutions.{ListExecutionsQuery, list_executions_query}
use engram_mesh.Bootstrap.Auth.{AuthenticatedPrincipal}
use engram_mesh.Bootstrap.Http.Schemas.{
  ScopeRequest, BudgetRequest, MemoryQueryRequest, RecordEpisodeRequest, StartExecutionRequest,
  CancelExecutionRequest,
}

-- The scope's fields of a request, under a tenant.
abbrev pub scope_fields : TenantId → ScopeRequest → MemoryScope
scope_fields tenant_id scope = record {
  tenant_id = tenant_id;
  subject_id = scope.subject_id;
  workspace_id = scope.workspace_id;
  agent_id = scope.agent_id;
}

unfoldable pub scope_from_request : TenantId → ScopeRequest → Result MemoryScope
scope_from_request path_tenant_id scope = do
  raise_if (not (scope.tenant_id == path_tenant_id))
      (tenant_mismatch "path tenant_id does not match body scope.tenant_id")
  memory_scope (scope_fields path_tenant_id scope)

unfoldable pub budget_from_request : BudgetRequest → Result Budget
budget_from_request budget = make_budget (record {
  max_input_tokens = budget.max_input_tokens;
  max_output_tokens = budget.max_output_tokens;
  max_cost_micros = budget.max_cost_micros;
  deadline = budget.deadline;
})

unfoldable pub memory_query_from_request : MemoryQueryRequest → MemoryScope → Result MemoryQuery
memory_query_from_request query execution_scope = do
  query_scope ← memory_scope (scope_fields query.scope.tenant_id query.scope)
  raise_if (not (query_scope == execution_scope))
      (memory_query_scope_mismatch "memory_query.scope must match execution scope")
  make_memory_query (record {
    query_id = query.query_id;
    scope = query_scope;
    text = query.text;
    valid_at = query.valid_at;
    recorded_at = query.recorded_at;
    limit = query.limit;
  })

unfoldable pub optional_memory_query :
    Option MemoryQueryRequest → MemoryScope → Result (Option MemoryQuery)
optional_memory_query none execution_scope = ok none
optional_memory_query (some query) execution_scope =
    memory_query_from_request query execution_scope >>= λ memory_query. ok (some memory_query)

unfoldable pub resolve_actor_id :
    Option AuthenticatedPrincipal → Option UuidValue → Result SubjectId
resolve_actor_id (some principal) (some actor_id) =
    err (actor_id_not_allowed "actor_id must not be provided when authenticated")
resolve_actor_id (some principal) none = ok principal.actor_id
resolve_actor_id none none = err (actor_id_required "actor_id is required when not authenticated")
resolve_actor_id none (some actor_id) = ok actor_id

-- The new identifier is an input; only a ValueError of the parser is caught.
unfoldable pub parse_correlation_id :
    TextParsers → CorrelationId → Option String → Result CorrelationId
parse_correlation_id parsers new_id none = ok new_id
parse_correlation_id parsers new_id (some header_value) = elim (parsers.uuid header_value) [
  | ok correlation_id ↦ ok correlation_id
  | err (value_error message) ↦ err (invalid_correlation_id "correlation id must be a UUID")
  | err e ↦ err e
]

unfoldable pub to_command :
    TenantId
    → CorrelationId
    → RecordEpisodeRequest
    → Option AuthenticatedPrincipal
    → Result RecordEpisodeCommand
to_command path_tenant_id correlation_id body principal = do
  raise_if (not (body.scope.tenant_id == path_tenant_id))
      (tenant_mismatch "path tenant_id does not match body scope.tenant_id")
  actor_id ← resolve_actor_id principal body.actor_id
  scope ← memory_scope (scope_fields path_tenant_id body.scope)
  make_command (record {
    correlation_id = correlation_id;
    actor_id = actor_id;
    scope = scope;
    source_type = body.source_type;
    content_ref = body.content_ref;
    observed_at = body.observed_at;
    content_hash = body.content_hash;
    idempotency_key = body.idempotency_key;
    sensitivity = body.sensitivity;
    retention_class = body.retention_class;
    consent_basis = body.consent_basis;
  })

unfoldable pub to_start_execution_command :
    TenantId
    → CorrelationId
    → StartExecutionRequest
    → Option AuthenticatedPrincipal
    → Result StartExecutionCommand
to_start_execution_command path_tenant_id correlation_id body principal = do
  scope ← scope_from_request path_tenant_id body.scope
  actor_id ← resolve_actor_id principal body.actor_id
  memory_query ← optional_memory_query body.memory_query scope
  budget ← budget_from_request body.budget
  make_start_command (record {
    correlation_id = correlation_id;
    actor_id = actor_id;
    scope = scope;
    objective_ref = body.objective_ref;
    root_agent_id = body.root_agent_id;
    memory_query = memory_query;
    budget = budget;
    idempotency_key = body.idempotency_key;
  })

unfoldable pub to_cancel_execution_command :
    TenantId
    → CorrelationId
    → ExecutionId
    → CancelExecutionRequest
    → Option AuthenticatedPrincipal
    → Result CancelExecutionCommand
to_cancel_execution_command path_tenant_id correlation_id execution_id body principal = do
  scope ← scope_from_request path_tenant_id body.scope
  actor_id ← resolve_actor_id principal body.actor_id
  make_cancel_command (record {
    correlation_id = correlation_id;
    actor_id = actor_id;
    scope = scope;
    execution_id = execution_id;
    idempotency_key = body.idempotency_key;
  })

-- The parameters that the reading requests share.
pub record ReadRequest : Type 0 where
  pub path_tenant_id : TenantId
  pub actor_id : Option SubjectId
  pub subject_id : SubjectId
  pub workspace_id : Option String
  pub agent_id : Option AgentInstanceId

abbrev pub read_scope : ReadRequest → MemoryScope
read_scope request = record {
  tenant_id = request.path_tenant_id;
  subject_id = request.subject_id;
  workspace_id = request.workspace_id;
  agent_id = request.agent_id;
}

unfoldable pub to_get_claim_query :
    ReadRequest → MemoryId → Option AuthenticatedPrincipal → Result GetClaimQuery
to_get_claim_query request claim_id principal = do
  actor_id ← resolve_actor_id principal request.actor_id
  scope ← memory_scope (read_scope request)
  ok (record { actor_id = actor_id; scope = scope; claim_id = claim_id })

unfoldable pub to_get_episode_query :
    ReadRequest → MemoryId → Option AuthenticatedPrincipal → Result GetEpisodeQuery
to_get_episode_query request episode_id principal = do
  actor_id ← resolve_actor_id principal request.actor_id
  scope ← memory_scope (read_scope request)
  ok (record { actor_id = actor_id; scope = scope; episode_id = episode_id })

unfoldable pub to_get_execution_snapshot_query :
    ReadRequest → ExecutionId → Option AuthenticatedPrincipal → Result GetExecutionSnapshotQuery
to_get_execution_snapshot_query request execution_id principal = do
  actor_id ← resolve_actor_id principal request.actor_id
  scope ← memory_scope (read_scope request)
  ok (record { actor_id = actor_id; scope = scope; execution_id = execution_id })

abbrev pub check_limit : ℤ → Result (Unit {0})
check_limit limit =
    raise_if (ltb_ℤ limit (pos 1) || ltb_ℤ (pos 100) limit)
      (limit_out_of_range "limit must be between 1 and 100")

unfoldable pub to_list_episodes_query :
    ReadRequest → ℤ → Option String → Option AuthenticatedPrincipal → Result ListQuery
to_list_episodes_query request limit cursor principal = do
  check_limit limit
  actor_id ← resolve_actor_id principal request.actor_id
  scope ← memory_scope (read_scope request)
  make_list_query (record { actor_id = actor_id; scope = scope; limit = limit; cursor = cursor })

unfoldable pub to_list_claims_query :
    ReadRequest → ℤ → Option String → Option AuthenticatedPrincipal → Result ListQuery
to_list_claims_query request limit cursor principal = do
  check_limit limit
  actor_id ← resolve_actor_id principal request.actor_id
  scope ← memory_scope (read_scope request)
  make_list_query (record { actor_id = actor_id; scope = scope; limit = limit; cursor = cursor })

unfoldable pub to_list_executions_query :
    ReadRequest → ℤ → Option String → Option AuthenticatedPrincipal → Result ListExecutionsQuery
to_list_executions_query request limit cursor principal = do
  check_limit limit
  actor_id ← resolve_actor_id principal request.actor_id
  scope ← memory_scope (read_scope request)
  list_executions_query
      (record { actor_id = actor_id; scope = scope; limit = limit; cursor = cursor })
