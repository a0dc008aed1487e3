-- ===== src/Bootstrap/Http/Schemas.antt =====
-- bootstrap/http/schemas.py: the request bodies with their validators, and the response bodies. FastAPI
-- parses a body into these fields and calls the validators before a route runs.
use engram_mesh.Common.{String, Bool, Option, none, some, List, ◌||◌}
use engram_mesh.Common.Int.{ℤ, pos, leb_ℤ, ltb_ℤ}
use engram_mesh.Common.Dict.{Dict}
use engram_mesh.Common.Result.{Result, ok, value_error, raise_if, ◌>>◌}
use engram_mesh.Kernel.Text.{require_non_blank}
use engram_mesh.Kernel.Datetime.{Datetime, require_aware, require_optional_aware}
use engram_mesh.Kernel.Ids.{UuidValue}
use engram_mesh.Memory.Episode.{SourceType, Sensitivity, RetentionClass}
use engram_mesh.Runtime.Status.{ExecutionStatus, NodeStatus}
use engram_mesh.Runtime.Model.{SuspensionKind, FailureCategory}

pub record ScopeRequest : Type 0 where
  pub tenant_id : UuidValue
  pub subject_id : UuidValue
  pub workspace_id : Option String
  pub agent_id : Option UuidValue

unfoldable pub validate_workspace_id : Option String → Result (Unit {0})
validate_workspace_id none = ok tt
validate_workspace_id (some value) = require_non_blank value "workspace_id"

pub record RecordEpisodeRequest : Type 0 where
  pub actor_id : Option UuidValue
  pub scope : ScopeRequest
  pub source_type : SourceType
  pub content_ref : UuidValue
  pub observed_at : Datetime
  pub content_hash : String
  pub idempotency_key : String
  pub sensitivity : Sensitivity
  pub retention_class : RetentionClass
  pub consent_basis : String

unfoldable pub validate_record_episode : RecordEpisodeRequest → Result (Unit {0})
validate_record_episode body = validate_workspace_id body.scope.workspace_id

pub record RecordEpisodeResponse : Type 0 where
  pub episode_id : String
  pub created : Bool

pub record ScopeResponse : Type 0 where
  pub tenant_id : UuidValue
  pub subject_id : UuidValue
  pub workspace_id : Option String
  pub agent_id : Option UuidValue

pub record EpisodeResponse : Type 0 where
  pub episode_id : String
  pub scope : ScopeResponse
  pub actor_id : UuidValue
  pub source_type : SourceType
  pub content_ref : UuidValue
  pub observed_at : Datetime
  pub ingested_at : Datetime
  pub content_hash : String
  pub idempotency_key : String
  pub sensitivity : Sensitivity
  pub retention_class : RetentionClass
  pub consent_basis : String

pub record BudgetRequest : Type 0 where
  pub max_input_tokens : ℤ
  pub max_output_tokens : ℤ
  pub max_cost_micros : ℤ
  pub deadline : Datetime

-- `Field(ge=0)` three times, and the validator of the deadline.
unfoldable pub validate_budget : BudgetRequest → Result (Unit {0})
validate_budget budget = do
  raise_if
      (ltb_ℤ budget.max_input_tokens (pos 0)
        || ltb_ℤ budget.max_output_tokens (pos 0)
        || ltb_ℤ budget.max_cost_micros (pos 0))
      (value_error "Input should be greater than or equal to 0")
  require_aware budget.deadline "deadline"

pub record MemoryQueryRequest : Type 0 where
  pub query_id : String
  pub scope : ScopeRequest
  pub text : String
  pub valid_at : Option Datetime
  pub recorded_at : Option Datetime
  pub limit : ℤ

unfoldable pub validate_memory_query : MemoryQueryRequest → Result (Unit {0})
validate_memory_query query = do
  require_non_blank query.query_id "query_id"
  validate_workspace_id query.scope.workspace_id
  require_non_blank query.text "text"
  require_optional_aware query.valid_at "valid_at"
  require_optional_aware query.recorded_at "recorded_at"
  raise_if (leb_ℤ query.limit (pos 0)) (value_error "Input should be greater than 0")

abbrev pub validate_optional_query : Option MemoryQueryRequest → Result (Unit {0})
validate_optional_query none = ok tt
validate_optional_query (some query) = validate_memory_query query

pub record StartExecutionRequest : Type 0 where
  pub actor_id : Option UuidValue
  pub scope : ScopeRequest
  pub objective_ref : UuidValue
  pub root_agent_id : UuidValue
  pub memory_query : Option MemoryQueryRequest
  pub budget : BudgetRequest
  pub idempotency_key : String

unfoldable pub validate_start_execution : StartExecutionRequest → Result (Unit {0})
validate_start_execution body = do
  validate_workspace_id body.scope.workspace_id
  validate_optional_query body.memory_query
  validate_budget body.budget
  require_non_blank body.idempotency_key "idempotency_key"

pub record CancelExecutionRequest : Type 0 where
  pub actor_id : Option UuidValue
  pub scope : ScopeRequest
  pub idempotency_key : String

unfoldable pub validate_cancel_execution : CancelExecutionRequest → Result (Unit {0})
validate_cancel_execution body = do
  validate_workspace_id body.scope.workspace_id
  require_non_blank body.idempotency_key "idempotency_key"

pub record FailureResponse : Type 0 where
  pub category : FailureCategory
  pub code : String
  pub message : String
  pub details_ref : Option UuidValue

pub record SuspensionResponse : Type 0 where
  pub request_id : String
  pub idempotency_key : String
  pub execution_id : UuidValue
  pub node_id : Option UuidValue
  pub kind : SuspensionKind
  pub request_ref : UuidValue
  pub requested_at : Datetime
  pub expires_at : Datetime

pub record ExecutionSnapshotResponse : Type 0 where
  pub execution_id : UuidValue
  pub scope : ScopeResponse
  pub revision : ℤ
  pub status : ExecutionStatus
  pub plan_revision : Option ℤ
  pub node_statuses : Dict String NodeStatus
  pub suspension : Option SuspensionResponse
  pub result_ref : Option UuidValue
  pub failure : Option FailureResponse
  pub updated_at : Datetime

pub record StartExecutionResponse : Type 0 where
  pub snapshot : ExecutionSnapshotResponse
  pub created : Bool

pub record ExecutionSummaryResponse : Type 0 where
  pub execution_id : UuidValue
  pub scope : ScopeResponse
  pub revision : ℤ
  pub status : ExecutionStatus
  pub updated_at : Datetime

-- `ListEpisodesResponse` and `ListExecutionsResponse`
pub record ListResponse (Item : Type 0) : Type 0 where
  pub items : List Item
  pub next_cursor : Option String
