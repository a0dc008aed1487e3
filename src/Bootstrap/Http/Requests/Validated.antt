-- ===== src/Bootstrap/Http/Requests/Validated.antt =====
-- bootstrap/http/mappers.py: bodies that have passed the validators of schemas.py.
use engram_mesh.Common.{Option, none, some, ◌≡◌, refl, inl, inr, arith, Bool-cases, ◌==◌, nat_eq}
use engram_mesh.Common.Result.{Result, ok, err, ◌>>=◌}
use engram_mesh.Kernel.Ids.{TenantId, CorrelationId, ExecutionId, UuidValue}
use engram_mesh.Kernel.Text.{require_non_blank}
use engram_mesh.Memory.Scope.{MemoryScope, memory_scope, scope_eq}
use engram_mesh.Memory.Query.{MemoryQuery, make_memory_query}
use engram_mesh.Runtime.Model.{Budget, make_budget}
use engram_mesh.Runtime.UseCases.{make_start_command, make_cancel_command}
use engram_mesh.Bootstrap.Auth.{AuthenticatedPrincipal}
use engram_mesh.Bootstrap.Http.Schemas.{
  ScopeRequest, BudgetRequest, MemoryQueryRequest, StartExecutionRequest, CancelExecutionRequest,
  validate_workspace_id, validate_budget, validate_memory_query, validate_optional_query,
  validate_start_execution, validate_cancel_execution,
}
use engram_mesh.Bootstrap.Http.Requests.{
  scope_fields, scope_from_request, budget_from_request, memory_query_from_request,
  optional_memory_query, resolve_actor_id, to_start_execution_command, to_cancel_execution_command,
}
use engram_mesh.Bootstrap.Http.Errors.{handle_exception}

-- The query that the mapper builds.
abbrev query_fields : MemoryQueryRequest → MemoryScope → MemoryQuery
query_fields query scope = record {
  query_id = query.query_id;
  scope = scope;
  text = query.text;
  valid_at = query.valid_at;
  recorded_at = query.recorded_at;
  limit = query.limit;
}

-- The step returns, or raises what is answered 422.
abbrev pub Answerable : {A : Type 0} → Result A → Type 0
Answerable (ok a) = Unit {0}
Answerable (err e) = (handle_exception e).status_code ≡ 422

-- A body all of whose steps are answerable is answerable.
then_Answerable :
    {A : Type 0} {B : Type 0} (step : Result A) (rest : A → Result B)
    → Answerable step
    → ((a : A) → step ≡ ok a → Answerable (rest a))
    → Answerable (step >>= rest)
then_Answerable (ok a) rest now later = later a refl
then_Answerable (err e) rest now later = now

pub memory_scope_lem :
    (tenant_id : TenantId) (scope : ScopeRequest)
    → validate_workspace_id scope.workspace_id ≡ ok tt
    → memory_scope (scope_fields tenant_id scope) ≡ ok (scope_fields tenant_id scope)
unfolding memory_scope validate_workspace_id
memory_scope_lem tenant_id scope valid = ground arith

scope_from_request-Answerable :
    (tenant_id : TenantId) (scope : ScopeRequest)
    → validate_workspace_id scope.workspace_id ≡ ok tt
    → Answerable (scope_from_request tenant_id scope)
unfolding scope_from_request handle_exception
scope_from_request-Answerable tenant_id scope valid =
    elim (Bool-cases (scope.tenant_id == tenant_id)) [
      | inl same ↦ rw same (rw (memory_scope_lem tenant_id scope valid) tt)
      | inr other ↦ rw other refl
    ]

resolve_actor_id-Answerable :
    (principal : Option AuthenticatedPrincipal) (named : Option UuidValue)
    → Answerable (resolve_actor_id principal named)
unfolding resolve_actor_id handle_exception
resolve_actor_id-Answerable (some principal) (some named) = refl
resolve_actor_id-Answerable (some principal) none = tt
resolve_actor_id-Answerable none (some named) = tt
resolve_actor_id-Answerable none none = refl

budget_from_request_lem :
    (budget : BudgetRequest)
    → validate_budget budget ≡ ok tt
    → (b : Budget) × (budget_from_request budget ≡ ok b)
unfolding budget_from_request make_budget validate_budget
budget_from_request_lem budget valid = (
  record {
    max_input_tokens = budget.max_input_tokens;
    max_output_tokens = budget.max_output_tokens;
    max_cost_micros = budget.max_cost_micros;
    deadline = budget.deadline;
  },
  ground arith,
)

make_memory_query_lem :
    (query : MemoryQueryRequest) (scope : MemoryScope)
    → validate_memory_query query ≡ ok tt
    → (validate_workspace_id query.scope.workspace_id ≡ ok tt)
      × (make_memory_query (query_fields query scope) ≡ ok (query_fields query scope))
unfolding make_memory_query validate_memory_query require_non_blank
make_memory_query_lem query scope valid = ground arith

memory_query_from_request-Answerable :
    (query : MemoryQueryRequest) (scope : MemoryScope)
    → validate_memory_query query ≡ ok tt
    → Answerable (memory_query_from_request query scope)
unfolding memory_query_from_request handle_exception
memory_query_from_request-Answerable query scope valid =
    let own = scope_fields query.scope.tenant_id query.scope in
    let (workspace, built) = make_memory_query_lem query own valid in
    elim (Bool-cases (own == scope)) [
      | inl same ↦
          rw (memory_scope_lem query.scope.tenant_id query.scope workspace) (rw same (rw built tt))
      | inr other ↦
          rw (memory_scope_lem query.scope.tenant_id query.scope workspace) (rw other refl)
    ]

optional_memory_query-Answerable :
    (query : Option MemoryQueryRequest) (scope : MemoryScope)
    → validate_optional_query query ≡ ok tt
    → Answerable (optional_memory_query query scope)
unfolding optional_memory_query
optional_memory_query-Answerable none scope valid = tt
optional_memory_query-Answerable (some query) scope valid =
    then_Answerable (memory_query_from_request query scope) (λ q. ok (some q))
      (memory_query_from_request-Answerable query scope valid) (λ q asked. tt)

start_checks :
    (body : StartExecutionRequest)
    → validate_start_execution body ≡ ok tt
    → (validate_workspace_id body.scope.workspace_id ≡ ok tt)
      × (validate_optional_query body.memory_query ≡ ok tt)
      × (validate_budget body.budget ≡ ok tt)
      × (require_non_blank body.idempotency_key "idempotency_key" ≡ ok tt)
unfolding validate_start_execution
start_checks body valid = ground arith

cancel_checks :
    (body : CancelExecutionRequest)
    → validate_cancel_execution body ≡ ok tt
    → (validate_workspace_id body.scope.workspace_id ≡ ok tt)
      × (require_non_blank body.idempotency_key "idempotency_key" ≡ ok tt)
unfolding validate_cancel_execution
cancel_checks body valid = ground arith

-- The body of a new execution that has passed its validators is mapped to a command, or answered 422:
-- no constructor of the domain refuses it.
pub start_validated-Answerable :
    (tenant_id : TenantId) (correlation_id : CorrelationId)
    (principal : Option AuthenticatedPrincipal) (body : StartExecutionRequest)
    → validate_start_execution body ≡ ok tt
    → Answerable (to_start_execution_command tenant_id correlation_id body principal)
unfolding to_start_execution_command make_start_command
start_validated-Answerable tenant_id correlation_id principal body valid =
    let (workspace, query, budget, key) = start_checks body valid in
    let (b, limited) = budget_from_request_lem body.budget budget in
    then_Answerable (scope_from_request tenant_id body.scope) _
      (scope_from_request-Answerable tenant_id body.scope workspace)
      λ scope scoped.
        then_Answerable (resolve_actor_id principal body.actor_id) _
          (resolve_actor_id-Answerable principal body.actor_id)
          λ actor_id resolved.
            then_Answerable (optional_memory_query body.memory_query scope) _
              (optional_memory_query-Answerable body.memory_query scope query)
              λ q asked. rw limited (rw key tt)

-- The body of a cancellation that has passed its validators is mapped to a command, or answered 422.
pub cancel_validated-Answerable :
    (tenant_id : TenantId) (correlation_id : CorrelationId) (execution_id : ExecutionId)
    (principal : Option AuthenticatedPrincipal) (body : CancelExecutionRequest)
    → validate_cancel_execution body ≡ ok tt
    → Answerable (to_cancel_execution_command tenant_id correlation_id execution_id body principal)
unfolding to_cancel_execution_command make_cancel_command
cancel_validated-Answerable tenant_id correlation_id execution_id principal body valid =
    let (workspace, key) = cancel_checks body valid in
    then_Answerable (scope_from_request tenant_id body.scope) _
      (scope_from_request-Answerable tenant_id body.scope workspace)
      λ scope scoped.
        then_Answerable (resolve_actor_id principal body.actor_id) _
          (resolve_actor_id-Answerable principal body.actor_id) λ actor_id resolved. rw key tt
