-- ===== src/Runtime/SnapshotCodec.antt =====
-- modules/runtime/adapters/shared/snapshot_codec.py: snapshots as JSON objects.
use engram_mesh.Common.{
  String, Bool, true, false, Option, none, some, List, [], ◌∷◌, find, ◌==◌, string_eq, nat_eq,
}
use engram_mesh.Common.Dict.{Dict, insert}
use engram_mesh.Common.Int.{ℤ, pos}
use engram_mesh.Common.Result.{
  Error, Result, ok, err, type_error, value_error, attribute_error, ◌>>=◌, ◌>>◌,
}
use engram_mesh.Kernel.Ids.{NodeId, uuid_text}
use engram_mesh.Kernel.Datetime.{isoformat}
use engram_mesh.Kernel.Json.{
  Value, null, bool, int, str, mapping, Fields, end, field, text, other_key,
}
use engram_mesh.Kernel.Parse.{
  TextParsers, field_of, require_field, get_or_null, set_field, require_dict, require_str,
  require_int, parse_uuid_value, parse_optional_uuid_value, parse_datetime,
}
use engram_mesh.Memory.Scope.{MemoryScope, memory_scope}
use engram_mesh.Runtime.Status.{
  ExecutionStatus, NodeStatus, execution_status_value, node_status_value,
}
use engram_mesh.Runtime.Model.{ExecutionSnapshot, execution_snapshot}
pub mod Nodes
pub mod Roundtrip
mod Examples

abbrev pub optional_text : Option String → Value
optional_text none = null
optional_text (some s) = str s

abbrev pub optional_uuid : Option NodeId → Value
optional_uuid none = null
optional_uuid (some u) = str (uuid_text u)

abbrev pub optional_int : Option ℤ → Value
optional_int none = null
optional_int (some n) = int n

unfoldable pub scope_to_payload : MemoryScope → Value
scope_to_payload scope = mapping false (
    field (text "tenant_id") (str (uuid_text scope.tenant_id)) (
      field (text "subject_id") (str (uuid_text scope.subject_id)) (
        field (text "workspace_id") (optional_text scope.workspace_id)
          (field (text "agent_id") (optional_uuid scope.agent_id) end))))

-- The comprehension over the items of `node_statuses`, which writes key after key.
unfoldable pub node_fields : Dict NodeId NodeStatus → Fields → Fields
node_fields [] fields = fields
node_fields ((node_id, status) ∷ statuses) fields =
    node_fields statuses (set_field (uuid_text node_id) (str (node_status_value status)) fields)

unfoldable pub snapshot_to_json : ExecutionSnapshot → Fields
snapshot_to_json snapshot = field (text "execution_id") (str (uuid_text snapshot.execution_id)) (
    field (text "scope") (scope_to_payload snapshot.scope) (
      field (text "revision") (int snapshot.revision) (
        field (text "status") (str (execution_status_value snapshot.status)) (
          field (text "plan_revision") (optional_int snapshot.plan_revision) (
            field (text "node_statuses") (mapping false (node_fields snapshot.node_statuses end)) (
              field (text "suspension") null (
                field (text "result_ref") (optional_uuid snapshot.result_ref) (
                  field (text "failure") null
                    (field (text "updated_at") (str (isoformat snapshot.updated_at)) end)))))))))

abbrev execution_statuses : List ExecutionStatus
execution_statuses =
    ExecutionStatus.pending ∷ ExecutionStatus.planning ∷ ExecutionStatus.running
    ∷ ExecutionStatus.waiting ∷ ExecutionStatus.retrying ∷ ExecutionStatus.cancelling
    ∷ ExecutionStatus.compensating ∷ ExecutionStatus.succeeded ∷ ExecutionStatus.failed
    ∷ ExecutionStatus.cancelled ∷ []

abbrev node_statuses_in_order : List NodeStatus
node_statuses_in_order =
    NodeStatus.pending ∷ NodeStatus.ready ∷ NodeStatus.running ∷ NodeStatus.waiting
    ∷ NodeStatus.retrying ∷ NodeStatus.cancelling ∷ NodeStatus.compensating ∷ NodeStatus.succeeded
    ∷ NodeStatus.failed ∷ NodeStatus.cancelled ∷ NodeStatus.skipped ∷ NodeStatus.compensated ∷ []

-- `ExecutionStatus(text)`
unfoldable pub execution_status_of : String → Result ExecutionStatus
execution_status_of s =
    elim (find (λ status. execution_status_value status == s) execution_statuses) [
      | none ↦ err (value_error "status must be a valid execution status")
      | some status ↦ ok status
    ]

-- `NodeStatus(text)`
unfoldable pub node_status_of : String → Result NodeStatus
node_status_of s = elim (find (λ status. node_status_value status == s) node_statuses_in_order) [
  | none ↦ err (value_error "node_statuses values must be valid node statuses")
  | some status ↦ ok status
]

-- `workspace_id` is cast without a check; the scope's constructor strips it.
abbrev pub workspace_of : Value → Result (Option String)
workspace_of null = ok none
workspace_of (str s) = ok (some s)
workspace_of _ = err attribute_error

-- `plan_revision` is cast without a check; the snapshot's constructor compares it with 0. A bool is an
-- int. A float, which the source would keep, is no plan revision of the model and is refused.
abbrev pub plan_revision_of : Value → Result (Option ℤ)
plan_revision_of null = ok none
plan_revision_of (int n) = ok (some n)
plan_revision_of (bool true) = ok (some (pos 1))
plan_revision_of (bool false) = ok (some (pos 0))
plan_revision_of _ = err (type_error "'<' not supported")

module _ (parsers : TextParsers) where
  unfoldable pub scope_from_payload : Value → Result MemoryScope
  scope_from_payload payload = do
    fields ← require_dict payload
    tenant ← require_field "tenant_id" fields
    tenant_id ← parse_uuid_value parsers tenant
    subject ← require_field "subject_id" fields
    subject_id ← parse_uuid_value parsers subject
    agent_id ← parse_optional_uuid_value parsers (get_or_null "agent_id" fields)
    workspace_id ← workspace_of (get_or_null "workspace_id" fields)
    memory_scope (record {
      tenant_id = tenant_id;
      subject_id = subject_id;
      workspace_id = workspace_id;
      agent_id = agent_id;
    })

  -- The `for` loop over the items of `node_statuses`.
  unfoldable pub read_nodes : Fields → Dict NodeId NodeStatus → Result (Dict NodeId NodeStatus)
  read_nodes end statuses = ok statuses
  read_nodes (field (text key) value fields) statuses = do
    status_text ← require_str value
    status ← node_status_of status_text
    node_id ← parsers.uuid key
    read_nodes fields (insert node_id status statuses)
  read_nodes (field other_key value fields) statuses = err attribute_error

  unfoldable pub snapshot_from_json : Fields → Result ExecutionSnapshot
  snapshot_from_json payload = do
    status_value ← require_field "status" payload
    status_text ← require_str status_value
    status ← execution_status_of status_text
    nodes ← (elim (field_of "node_statuses" payload) [
      | none ↦ ok end
      | some value ↦ require_dict value
    ])
    node_statuses ← read_nodes nodes []
    execution ← require_field "execution_id" payload
    execution_id ← parse_uuid_value parsers execution
    scope_value ← require_field "scope" payload
    scope ← scope_from_payload scope_value
    revision_value ← require_field "revision" payload
    revision ← require_int revision_value
    result_ref ← parse_optional_uuid_value parsers (get_or_null "result_ref" payload)
    updated ← require_field "updated_at" payload
    updated_at ← parse_datetime parsers updated "updated_at"
    plan_revision ← plan_revision_of (get_or_null "plan_revision" payload)
    execution_snapshot (record {
      execution_id = execution_id;
      scope = scope;
      revision = revision;
      status = status;
      plan_revision = plan_revision;
      node_statuses = node_statuses;
      suspension = none;
      result_ref = result_ref;
      failure = none;
      updated_at = updated_at;
    })
