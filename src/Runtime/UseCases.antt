-- ===== src/Runtime/UseCases.antt =====
-- modules/runtime/application: start_execution.py, cancel_execution.py and get_execution_snapshot.py over
-- the in-memory orchestrator, with their commands (contracts.py).
pub mod Idempotent
mod Examples
use engram_mesh.Common.{ℕ, Bool, not, String, Option, ◌==◌, nat_eq, if◌then◌else◌}
use engram_mesh.Common.Result.{Result, ok, err, execution_authorization_denied, ◌>>◌}
use engram_mesh.Kernel.Text.{require_non_blank}
use engram_mesh.Kernel.Datetime.{Datetime}
use engram_mesh.Kernel.Ids.{
  CorrelationId, SubjectId, ArtifactId, AgentDefinitionId, ExecutionId, EventId,
}
use engram_mesh.Memory.Scope.{MemoryScope}
use engram_mesh.Memory.Query.{MemoryQuery}
use engram_mesh.Runtime.Model.{Budget, ExecutionSpec, execution_spec, ExecutionSnapshot}
use engram_mesh.Runtime.Database.{CommittedRuntimeState}
use engram_mesh.Runtime.Orchestrator.{start, cancel, get_snapshot}

pub data RuntimeAction : Type 0 where
  start_execution get_execution cancel_execution : RuntimeAction

pub record RuntimeAuthorizationRequest : Type 0 where
  pub actor_id : SubjectId
  pub scope : MemoryScope
  pub action : RuntimeAction

pub record StartExecutionCommand : Type 0 where
  pub correlation_id : CorrelationId
  pub actor_id : SubjectId
  pub scope : MemoryScope
  pub objective_ref : ArtifactId
  pub root_agent_id : AgentDefinitionId
  pub memory_query : Option MemoryQuery
  pub budget : Budget
  pub idempotency_key : String

-- The constructor.
unfoldable pub make_start_command : StartExecutionCommand → Result StartExecutionCommand
make_start_command command = do
  require_non_blank command.idempotency_key "idempotency_key"
  ok command

pub record StartExecutionResult : Type 0 where
  pub snapshot : ExecutionSnapshot
  pub created : Bool

pub record CancelExecutionCommand : Type 0 where
  pub correlation_id : CorrelationId
  pub actor_id : SubjectId
  pub scope : MemoryScope
  pub execution_id : ExecutionId
  pub idempotency_key : String

-- The constructor.
unfoldable pub make_cancel_command : CancelExecutionCommand → Result CancelExecutionCommand
make_cancel_command command = do
  require_non_blank command.idempotency_key "idempotency_key"
  ok command

pub record GetExecutionSnapshotQuery : Type 0 where
  pub actor_id : SubjectId
  pub scope : MemoryScope
  pub execution_id : ExecutionId

-- The fields that the start handler hands to the constructor of the specification.
abbrev pub spec_of : StartExecutionCommand → ExecutionId → ExecutionSpec
spec_of command execution_id = record {
  id = execution_id;
  scope = command.scope;
  objective_ref = command.objective_ref;
  root_agent_id = command.root_agent_id;
  memory_query = command.memory_query;
  budget = command.budget;
  idempotency_key = command.idempotency_key;
}

-- The authorization is a function of the request; the clock and the identities are inputs.
module _ (authorize : RuntimeAuthorizationRequest → Bool) (now : Datetime)
    (new_event_id : ℕ → EventId) where
  abbrev pub is_allowed : SubjectId → MemoryScope → RuntimeAction → Bool
  is_allowed actor_id scope action =
      authorize record { actor_id = actor_id; scope = scope; action = action }

  -- The answer, with whether the execution is the one that the identifier was made for.
  abbrev pub start_result :
      ExecutionId
      → Result ExecutionSnapshot × CommittedRuntimeState
      → Result StartExecutionResult × CommittedRuntimeState
  start_result execution_id (err e, state) = (err e, state)
  start_result execution_id (ok snapshot, state) =
      (ok (record { snapshot = snapshot; created = snapshot.execution_id == execution_id }), state)

  unfoldable pub handle_start :
      StartExecutionCommand
      → ExecutionId
      → CommittedRuntimeState
      → Result StartExecutionResult × CommittedRuntimeState
  handle_start command execution_id state =
      if not (is_allowed command.actor_id command.scope start_execution)
      then (err execution_authorization_denied, state)
      else elim (execution_spec (spec_of command execution_id)) [
        | err e ↦ (err e, state)
        | ok spec ↦ start_result execution_id (start now new_event_id spec state)
      ]

  unfoldable pub handle_cancel :
      CancelExecutionCommand
      → CommittedRuntimeState
      → Result ExecutionSnapshot × CommittedRuntimeState
  handle_cancel command state =
      if not (is_allowed command.actor_id command.scope cancel_execution)
      then (err execution_authorization_denied, state)
      else cancel now new_event_id command.scope command.execution_id state

  unfoldable pub handle_get :
      GetExecutionSnapshotQuery → CommittedRuntimeState → Result ExecutionSnapshot
  handle_get query state =
      if not (is_allowed query.actor_id query.scope get_execution)
      then err execution_authorization_denied
      else get_snapshot query.scope query.execution_id state
