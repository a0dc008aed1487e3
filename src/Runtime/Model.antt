-- ===== src/Runtime/Model.antt =====
-- modules/runtime/domain/model.py: the contracts of durable execution, each with its constructor.
-- Plans are in Runtime/Plan.
pub mod Laws
use engram_mesh.Common.{
  ℕ, String, Bool, true, false, not, ◌||◌, Option, none, some, List, [], is_none, is_some, ◌==◌,
}
use engram_mesh.Common.Dict.{Dict}
use engram_mesh.Common.Int.{ℤ, pos, leb_ℤ, ltb_ℤ}
use engram_mesh.Common.Result.{Result, ok, err, value_error, raise_if, ◌>>=◌, ◌>>◌}
use engram_mesh.Kernel.Text.{require_non_blank}
use engram_mesh.Kernel.Datetime.{Datetime, require_aware, not_later}
use engram_mesh.Kernel.Ids.{
  ExecutionId, ArtifactId, AgentDefinitionId, AttemptId, NodeId, SubjectId, EffectId,
}
use engram_mesh.Kernel.Json.{Value}
use engram_mesh.Kernel.Freeze.{freeze_schema}
use engram_mesh.Memory.Scope.{MemoryScope, scope_eq}
use engram_mesh.Memory.Query.{MemoryQuery}
use engram_mesh.Runtime.Status.{ExecutionStatus, NodeStatus}

pub data FailureCategory : Type 0 where
  transient intermittent permanent user_fixable policy_blocked system_defect : FailureCategory

pub data SideEffectClass : Type 0 where
  nothing idempotent non_idempotent : SideEffectClass

pub data SuspensionKind : Type 0 where
  approval input external_event : SuspensionKind

pub record Budget : Type 0 where
  pub max_input_tokens : ℤ
  pub max_output_tokens : ℤ
  pub max_cost_micros : ℤ
  pub deadline : Datetime

unfoldable pub make_budget : Budget → Result Budget
make_budget budget = do
  raise_if (ltb_ℤ budget.max_input_tokens (pos 0))
      (value_error "max_input_tokens must not be negative")
  raise_if (ltb_ℤ budget.max_output_tokens (pos 0))
      (value_error "max_output_tokens must not be negative")
  raise_if (ltb_ℤ budget.max_cost_micros (pos 0))
      (value_error "max_cost_micros must not be negative")
  require_aware budget.deadline "deadline"
  ok budget

pub record ExecutionSpec : Type 0 where
  pub id : ExecutionId
  pub scope : MemoryScope
  pub objective_ref : ArtifactId
  pub root_agent_id : AgentDefinitionId
  pub memory_query : Option MemoryQuery
  pub budget : Budget
  pub idempotency_key : String

abbrev pub other_scope : Option MemoryQuery → MemoryScope → Bool
other_scope none scope = false
other_scope (some query) scope = not (query.scope == scope)

unfoldable pub execution_spec : ExecutionSpec → Result ExecutionSpec
execution_spec spec = do
  require_non_blank spec.idempotency_key "idempotency_key"
  raise_if (other_scope spec.memory_query spec.scope)
      (value_error "memory_query.scope must match execution scope")
  ok spec

pub record AgentDefinition : Type 0 where
  pub id : AgentDefinitionId
  pub version : ℤ
  pub role : String
  pub instruction_ref : ArtifactId
  pub capabilities : List String

unfoldable pub agent_definition : AgentDefinition → Result AgentDefinition
agent_definition agent = do
  raise_if (leb_ℤ agent.version (pos 0)) (value_error "version must be positive")
  require_non_blank agent.role "role"
  ok agent

pub record AgentInvocation : Type 0 where
  pub attempt_id : AttemptId
  pub execution_id : ExecutionId
  pub node_id : NodeId
  pub agent_definition_id : AgentDefinitionId
  pub input_refs : List ArtifactId
  pub evidence_ref : Option ArtifactId
  pub tool_grants : List String
  pub expected_output_schema : Value
  pub scope : MemoryScope
  pub budget : Budget

unfoldable pub agent_invocation : AgentInvocation → Result AgentInvocation
agent_invocation invocation = do
  schema ← freeze_schema invocation.expected_output_schema
  ok (record invocation { expected_output_schema = schema })

pub record Suspension : Type 0 where
  pub request_id : String
  pub idempotency_key : String
  pub execution_id : ExecutionId
  pub node_id : Option NodeId
  pub kind : SuspensionKind
  pub request_ref : ArtifactId
  pub requested_at : Datetime
  pub expires_at : Datetime

unfoldable pub make_suspension : Suspension → Result Suspension
make_suspension suspension = do
  require_non_blank suspension.request_id "request_id"
  require_non_blank suspension.idempotency_key "idempotency_key"
  require_aware suspension.requested_at "requested_at"
  require_aware suspension.expires_at "expires_at"
  raise_if (not_later suspension.expires_at suspension.requested_at)
      (value_error "expires_at must be later than requested_at")
  ok suspension

pub record Decision : Type 0 where
  pub request_id : String
  pub idempotency_key : String
  pub approved : Bool
  pub decided_by : SubjectId
  pub decision_ref : Option ArtifactId
  pub decided_at : Datetime

unfoldable pub make_decision : Decision → Result Decision
make_decision decision = do
  require_non_blank decision.request_id "request_id"
  require_non_blank decision.idempotency_key "idempotency_key"
  require_aware decision.decided_at "decided_at"
  ok decision

pub record Failure : Type 0 where
  pub category : FailureCategory
  pub code : String
  pub message : String
  pub details_ref : Option ArtifactId

unfoldable pub make_failure : Failure → Result Failure
make_failure failure = do
  require_non_blank failure.code "code"
  require_non_blank failure.message "message"
  ok failure

pub record ToolDescriptor : Type 0 where
  pub name : String
  pub version : String
  pub input_schema : Value
  pub output_schema : Value
  pub required_grants : List String
  pub side_effect_class : SideEffectClass

unfoldable pub tool_descriptor : ToolDescriptor → Result ToolDescriptor
tool_descriptor tool = do
  require_non_blank tool.name "name"
  require_non_blank tool.version "version"
  input_schema ← freeze_schema tool.input_schema
  output_schema ← freeze_schema tool.output_schema
  ok (record tool { input_schema = input_schema; output_schema = output_schema })

pub record ToolCall : Type 0 where
  pub effect_id : EffectId
  pub attempt_id : AttemptId
  pub tool_name : String
  pub tool_version : String
  pub input_ref : ArtifactId
  pub grants : List String
  pub scope : MemoryScope

unfoldable pub tool_call : ToolCall → Result ToolCall
tool_call call = do
  require_non_blank call.tool_name "tool_name"
  require_non_blank call.tool_version "tool_version"
  ok call

pub record ToolResult : Type 0 where
  pub effect_id : EffectId
  pub output_ref : Option ArtifactId
  pub failure : Option Failure

-- `a == b` of two Booleans.
abbrev pub same_bool : Bool → Bool → Bool
same_bool true b = b
same_bool false b = not b

unfoldable pub tool_result : ToolResult → Result ToolResult
tool_result result = do
  raise_if (same_bool (is_none result.output_ref) (is_none result.failure))
      (value_error "tool result must contain exactly one of output_ref or failure")
  ok result

pub record AgentOutcome : Type 0 where
  pub attempt_id : AttemptId
  pub output_ref : Option ArtifactId
  pub failure : Option Failure

unfoldable pub agent_outcome : AgentOutcome → Result AgentOutcome
agent_outcome outcome = do
  raise_if (same_bool (is_none outcome.output_ref) (is_none outcome.failure))
      (value_error "agent outcome must contain exactly one of output_ref or failure")
  ok outcome

pub record ExecutionSnapshot : Type 0 where
  pub execution_id : ExecutionId
  pub scope : MemoryScope
  pub revision : ℤ
  pub status : ExecutionStatus
  pub plan_revision : Option ℤ
  pub node_statuses : Dict NodeId NodeStatus
  pub suspension : Option Suspension
  pub result_ref : Option ArtifactId
  pub failure : Option Failure
  pub updated_at : Datetime

abbrev pub is_negative : Option ℤ → Bool
is_negative none = false
is_negative (some n) = ltb_ℤ n (pos 0)

unfoldable pub execution_snapshot : ExecutionSnapshot → Result ExecutionSnapshot
execution_snapshot snapshot = do
  raise_if (ltb_ℤ snapshot.revision (pos 0)) (value_error "revision must not be negative")
  raise_if (is_negative snapshot.plan_revision) (value_error "plan_revision must not be negative")
  require_aware snapshot.updated_at "updated_at"
  ok snapshot
