-- ===== src/Bootstrap/Http/Responses.antt =====
-- bootstrap/http/mappers.py: results as response bodies.
use engram_mesh.Common.{String, none, some, [], ◌∷◌, string_eq}
use engram_mesh.Common.Dict.{Dict, insert}
use engram_mesh.Kernel.Ids.{NodeId, uuid_text}
use engram_mesh.Memory.Scope.{MemoryScope}
use engram_mesh.Memory.Episode.{Episode}
use engram_mesh.Memory.RecordEpisode.{RecordEpisodeResult}
use engram_mesh.Runtime.Status.{NodeStatus}
use engram_mesh.Runtime.Model.{ExecutionSnapshot, Suspension, Failure}
use engram_mesh.Runtime.UseCases.{StartExecutionResult}
use engram_mesh.Runtime.ListExecutions.{ExecutionListItem}
use engram_mesh.Bootstrap.Http.Schemas.{
  RecordEpisodeResponse, ScopeResponse, EpisodeResponse, FailureResponse, SuspensionResponse,
  ExecutionSnapshotResponse, StartExecutionResponse, ExecutionSummaryResponse,
}

abbrev pub scope_to_response : MemoryScope → ScopeResponse
scope_to_response scope = record {
  tenant_id = scope.tenant_id;
  subject_id = scope.subject_id;
  workspace_id = scope.workspace_id;
  agent_id = scope.agent_id;
}

unfoldable pub to_response : RecordEpisodeResult → RecordEpisodeResponse
to_response result = record { episode_id = uuid_text result.episode_id; created = result.created }

unfoldable pub episode_to_response : Episode → EpisodeResponse
episode_to_response episode = record {
  episode_id = uuid_text episode.id;
  scope = scope_to_response episode.scope;
  actor_id = episode.actor_id;
  source_type = episode.source_type;
  content_ref = episode.content_ref;
  observed_at = episode.observed_at;
  ingested_at = episode.ingested_at;
  content_hash = episode.content_hash;
  idempotency_key = episode.idempotency_key;
  sensitivity = episode.sensitivity;
  retention_class = episode.retention_class;
  consent_basis = episode.consent_basis;
}

unfoldable pub failure_to_response : Failure → FailureResponse
failure_to_response failure = record {
  category = failure.category;
  code = failure.code;
  message = failure.message;
  details_ref = failure.details_ref;
}

unfoldable pub suspension_to_response : Suspension → SuspensionResponse
suspension_to_response suspension = record {
  request_id = suspension.request_id;
  idempotency_key = suspension.idempotency_key;
  execution_id = suspension.execution_id;
  node_id = suspension.node_id;
  kind = suspension.kind;
  request_ref = suspension.request_ref;
  requested_at = suspension.requested_at;
  expires_at = suspension.expires_at;
}

unfoldable pub execution_list_item_to_response : ExecutionListItem → ExecutionSummaryResponse
execution_list_item_to_response item = record {
  execution_id = item.execution_id;
  scope = scope_to_response item.scope;
  revision = item.revision;
  status = item.status;
  updated_at = item.updated_at;
}

-- `{str(node_id): status for node_id, status in node_statuses.items()}`
unfoldable pub node_statuses_to_response :
    Dict NodeId NodeStatus → Dict String NodeStatus → Dict String NodeStatus
node_statuses_to_response [] statuses = statuses
node_statuses_to_response ((node_id, status) ∷ rest) statuses =
    node_statuses_to_response rest (insert (uuid_text node_id) status statuses)

unfoldable pub snapshot_to_response : ExecutionSnapshot → ExecutionSnapshotResponse
snapshot_to_response snapshot = record {
  execution_id = snapshot.execution_id;
  scope = scope_to_response snapshot.scope;
  revision = snapshot.revision;
  status = snapshot.status;
  plan_revision = snapshot.plan_revision;
  node_statuses = node_statuses_to_response snapshot.node_statuses [];
  suspension = (elim snapshot.suspension [
    | none ↦ none
    | some suspension ↦ some (suspension_to_response suspension)
  ]);
  result_ref = snapshot.result_ref;
  failure = (elim snapshot.failure [
    | none ↦ none
    | some failure ↦ some (failure_to_response failure)
  ]);
  updated_at = snapshot.updated_at;
}

unfoldable pub start_result_to_response : StartExecutionResult → StartExecutionResponse
start_result_to_response result = record {
  snapshot = snapshot_to_response result.snapshot;
  created = result.created;
}
