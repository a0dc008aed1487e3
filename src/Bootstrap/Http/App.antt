-- ===== src/Bootstrap/Http/App.antt =====
-- bootstrap/http/app.py: the routes, from the request that FastAPI has parsed to the answer, over the
-- in-memory composition. An exception that leaves a route meets the handlers of errors.py.
pub mod Mapped
pub mod Identity
pub mod Claims
pub mod Routes
pub mod Recording
pub mod Rows
pub mod Prepared
pub mod Statuses
use engram_mesh.Common.{ℕ, String, Bool, true, false, Option, none, some, List, map, if◌then◌else◌}
use engram_mesh.Common.Int.{ℤ}
use engram_mesh.Common.Result.{Result, ok, err, ◌>>=◌}
use engram_mesh.Kernel.Cursor.{CursorCodec}
use engram_mesh.Kernel.Datetime.{Datetime}
use engram_mesh.Kernel.Ids.{UuidValue, MemoryId, ExecutionId, TenantId, CorrelationId, EventId}
use engram_mesh.Kernel.Parse.{TextParsers}
use engram_mesh.Memory.Database.{Database}
use engram_mesh.Memory.Query.{ListQuery, GetClaimQuery}
use engram_mesh.Memory.RecordEpisode.{Ports, AuthorizationRequest, RecordEpisodeCommand}
use engram_mesh.Memory.RecordEpisode
use engram_mesh.Memory.GetEpisode.{GetEpisodeQuery}
use engram_mesh.Memory.GetEpisode
use engram_mesh.Memory.ListEpisodes
use engram_mesh.Runtime.Database.{CommittedRuntimeState}
use engram_mesh.Runtime.UseCases.{
  RuntimeAuthorizationRequest, StartExecutionCommand, CancelExecutionCommand,
  GetExecutionSnapshotQuery, handle_start, handle_cancel, handle_get,
}
use engram_mesh.Runtime.ListExecutions.{ListExecutionsQuery}
use engram_mesh.Runtime.ListExecutions
use engram_mesh.Bootstrap.Auth.{AuthSettings, tenant_auth_context}
use engram_mesh.Bootstrap.Http.Schemas.{
  RecordEpisodeRequest, StartExecutionRequest, CancelExecutionRequest, RecordEpisodeResponse,
  EpisodeResponse, ExecutionSnapshotResponse, StartExecutionResponse, ExecutionSummaryResponse,
  ListResponse,
}
use engram_mesh.Bootstrap.Http.Requests.{
  ReadRequest, resolve_actor_id, parse_correlation_id, to_command, to_start_execution_command,
  to_cancel_execution_command, to_get_episode_query, to_get_claim_query, to_list_claims_query,
  to_get_execution_snapshot_query, to_list_episodes_query, to_list_executions_query,
}
use engram_mesh.Bootstrap.Http.Responses.{
  to_response, episode_to_response, snapshot_to_response, start_result_to_response,
  execution_list_item_to_response,
}
use engram_mesh.Bootstrap.Http.Errors.{JsonResponse, handle_exception}

-- A status with a body, or the response of an exception handler.
pub data Answer (Body : Type 0) : Type 0 where
  answered : ℕ → Body → Answer Body
  refused : JsonResponse → Answer Body

abbrev pub created_status : Bool → ℕ
created_status created = if created then 201 else 200

-- What each route gets with a request: the headers and the path's tenant.
pub record Head : Type 0 where
  pub tenant_id : TenantId
  pub authorization : Option String
  pub correlation_id : Option String

-- The parameters of a reading request, with the actor that is resolved.
abbrev pub with_actor : ReadRequest → UuidValue → ReadRequest
with_actor request actor_id = record request { actor_id = some actor_id }

-- The settings, the parsers of the texts, and a new correlation identifier.
module _ (settings : AuthSettings) (parsers : TextParsers) (new_correlation_id : CorrelationId)
    (head : Head) where
  unfoldable pub record_episode_command : RecordEpisodeRequest → Result RecordEpisodeCommand
  record_episode_command body = do
    principal ← tenant_auth_context settings head.tenant_id head.authorization
    correlation_id ← parse_correlation_id parsers new_correlation_id head.correlation_id
    to_command head.tenant_id correlation_id body principal

  unfoldable pub start_execution_command : StartExecutionRequest → Result StartExecutionCommand
  start_execution_command body = do
    principal ← tenant_auth_context settings head.tenant_id head.authorization
    correlation_id ← parse_correlation_id parsers new_correlation_id head.correlation_id
    to_start_execution_command head.tenant_id correlation_id body principal

  unfoldable pub cancel_execution_command :
      ExecutionId → CancelExecutionRequest → Result CancelExecutionCommand
  cancel_execution_command execution_id body = do
    principal ← tenant_auth_context settings head.tenant_id head.authorization
    correlation_id ← parse_correlation_id parsers new_correlation_id head.correlation_id
    to_cancel_execution_command head.tenant_id correlation_id execution_id body principal

-- The reading routes resolve the actor first and hand it to the mapper without the principal.
module _ (settings : AuthSettings) (authorization : Option String) (request : ReadRequest) where
  unfoldable pub resolved_request : Result ReadRequest
  resolved_request = do
    principal ← tenant_auth_context settings request.path_tenant_id authorization
    actor_id ← resolve_actor_id principal request.actor_id
    ok (with_actor request actor_id)

  unfoldable pub get_episode_query : MemoryId → Result GetEpisodeQuery
  get_episode_query episode_id = do
    resolved ← resolved_request
    to_get_episode_query resolved episode_id none

  unfoldable pub list_episodes_query : ℤ → Option String → Result ListQuery
  list_episodes_query limit cursor = do
    resolved ← resolved_request
    to_list_episodes_query resolved limit cursor none

  unfoldable pub get_execution_query : ExecutionId → Result GetExecutionSnapshotQuery
  get_execution_query execution_id = do
    resolved ← resolved_request
    to_get_execution_snapshot_query resolved execution_id none

  unfoldable pub list_executions_query : ℤ → Option String → Result ListExecutionsQuery
  list_executions_query limit cursor = do
    resolved ← resolved_request
    to_list_executions_query resolved limit cursor none

  -- The two claim routes hand the mapper the principal as well.
  unfoldable pub get_claim_query : MemoryId → Result GetClaimQuery
  get_claim_query claim_id = do
    principal ← tenant_auth_context settings request.path_tenant_id authorization
    actor_id ← resolve_actor_id principal request.actor_id
    to_get_claim_query (with_actor request actor_id) claim_id principal

  unfoldable pub list_claims_query : ℤ → Option String → Result ListQuery
  list_claims_query limit cursor = do
    principal ← tenant_auth_context settings request.path_tenant_id authorization
    actor_id ← resolve_actor_id principal request.actor_id
    to_list_claims_query (with_actor request actor_id) limit cursor principal

-- The routes of the episodes. None where the handler waits for the lock.
module _ (ports : Ports) where
  unfoldable pub record_episode :
      Result RecordEpisodeCommand → Database → Option (Answer RecordEpisodeResponse × Database)
  record_episode (err e) database = some (refused (handle_exception e), database)
  record_episode (ok command) database = elim (RecordEpisode.handle ports command database) [
    | none ↦ none
    | some (err e, database') ↦ some (refused (handle_exception e), database')
    | some (ok result, database') ↦
        some (answered (created_status result.created) (to_response result), database')
  ]

module _ (authorize : AuthorizationRequest → Bool) where
  unfoldable pub get_episode :
      Result GetEpisodeQuery → Database → Option (Answer EpisodeResponse × Database)
  get_episode (err e) database = some (refused (handle_exception e), database)
  get_episode (ok query) database = elim (GetEpisode.handle authorize query database) [
    | none ↦ none
    | some (err e, database') ↦ some (refused (handle_exception e), database')
    | some (ok episode, database') ↦ some (answered 200 (episode_to_response episode), database')
  ]

  unfoldable pub list_episodes :
      CursorCodec
      → Result ListQuery
      → Database
      → Option (Answer (ListResponse EpisodeResponse) × Database)
  list_episodes codec (err e) database = some (refused (handle_exception e), database)
  list_episodes codec (ok query) database =
      elim (ListEpisodes.handle codec authorize query database) [
        | none ↦ none
        | some (err e, database') ↦ some (refused (handle_exception e), database')
        | some (ok (items, next_cursor), database') ↦ some (
          answered 200
              (record { items = map episode_to_response items; next_cursor = next_cursor }),
          database',
        )
      ]

-- The routes of the executions.
module _ (authorize : RuntimeAuthorizationRequest → Bool) (now : Datetime)
    (new_event_id : ℕ → EventId) where
  -- `new_execution_id` is the identifier that the handler draws.
  unfoldable pub start_execution :
      Result StartExecutionCommand
      → ExecutionId
      → CommittedRuntimeState
      → Answer StartExecutionResponse × CommittedRuntimeState
  start_execution (err e) new_execution_id state = (refused (handle_exception e), state)
  start_execution (ok command) new_execution_id state =
      let (answer, state') =
        handle_start authorize now new_event_id command new_execution_id state in
      elim answer [
        | err e ↦ (refused (handle_exception e), state')
        | ok result ↦
            (answered (created_status result.created) (start_result_to_response result), state')
      ]

  unfoldable pub cancel_execution :
      Result CancelExecutionCommand
      → CommittedRuntimeState
      → Answer ExecutionSnapshotResponse × CommittedRuntimeState
  cancel_execution (err e) state = (refused (handle_exception e), state)
  cancel_execution (ok command) state =
      let (answer, state') = handle_cancel authorize now new_event_id command state in
      elim answer [
        | err e ↦ (refused (handle_exception e), state')
        | ok snapshot ↦ (answered 200 (snapshot_to_response snapshot), state')
      ]

  unfoldable pub get_execution :
      Result GetExecutionSnapshotQuery → CommittedRuntimeState → Answer ExecutionSnapshotResponse
  get_execution query state = elim (query >>= λ q. handle_get authorize now new_event_id q state) [
    | err e ↦ refused (handle_exception e)
    | ok snapshot ↦ answered 200 (snapshot_to_response snapshot)
  ]

unfoldable pub list_executions :
    CursorCodec
    → (RuntimeAuthorizationRequest → Bool)
    → Result ListExecutionsQuery
    → CommittedRuntimeState
    → Answer (ListResponse ExecutionSummaryResponse)
list_executions codec authorize query state =
    elim (query >>= λ q. ListExecutions.handle codec authorize q state) [
      | err e ↦ refused (handle_exception e)
      | ok (items, next_cursor) ↦
          answered 200 (record {
            items = map execution_list_item_to_response items;
            next_cursor = next_cursor;
          })
    ]
