-- ===== src/Runtime/Orchestrator.antt =====
-- modules/runtime/adapters/in_memory/orchestrator.py, with the event of
-- modules/runtime/adapters/shared/status_changed_event.py. The clock is an input, and so are the
-- identities: `new_event_id k` is what the call number `k` of one operation gets.
pub mod Cancel
pub mod Start
pub mod Effect
pub mod Same
pub mod Remembers
pub mod Again
pub mod History
use engram_mesh.Common.{
  ℕ, suc, ◌+◌, String, Bool, true, false, not, ◌||◌, ◌&&◌, Option, none, some, List, [], ◌∷◌, ◌++◌,
  nat_eq, string_eq, option_eq, pair_eq, ◌==◌, if◌then◌else◌, is_empty,
}
use engram_mesh.Common.Dict.{lookup, insert}
use engram_mesh.Common.Int.{ℤ, pos, ◌+ℤ◌, int_eq}
use engram_mesh.Common.Result.{
  Result, ok, err, key_error, execution_idempotency_conflict, execution_not_found,
  invalid_execution_transition, raise_if, ◌>>=◌, ◌>>◌,
}
use engram_mesh.Kernel.Datetime.{Datetime, same_time, same_optional_time, isoformat}
use engram_mesh.Kernel.Ids.{ExecutionId, EventId, CorrelationId, TenantId, uuid_text}
use engram_mesh.Kernel.Json.{Value, null, str, int, mapping, field, text, end}
use engram_mesh.Kernel.Events.{EventEnvelope, event_envelope}
use engram_mesh.Memory.Scope.{MemoryScope, scope_eq}
use engram_mesh.Memory.Query.{MemoryQuery}
use engram_mesh.Runtime.Status.{ExecutionStatus, execution_status_value}
use engram_mesh.Runtime.Transitions.{can_transition_execution}
use engram_mesh.Runtime.Model.{ExecutionSpec, ExecutionSnapshot, execution_snapshot}
use engram_mesh.Runtime.Database.{
  QueryPart, Fingerprint, CommittedRuntimeState, Callback, read, write,
}

abbrev pub query_part : Option MemoryQuery → Option QueryPart
query_part none = none
query_part (some query) = some (record {
  query_id = query.query_id;
  text = query.text;
  limit = query.limit;
  scope = query.scope;
  valid_at = query.valid_at;
  recorded_at = query.recorded_at;
})

unfoldable pub spec_fingerprint : ExecutionSpec → Fingerprint
spec_fingerprint spec = record {
  tenant_id = spec.scope.tenant_id;
  subject_id = spec.scope.subject_id;
  workspace_id = spec.scope.workspace_id;
  agent_id = spec.scope.agent_id;
  objective_ref = spec.objective_ref;
  root_agent_id = spec.root_agent_id;
  query = query_part spec.memory_query;
  max_input_tokens = spec.budget.max_input_tokens;
  max_output_tokens = spec.budget.max_output_tokens;
  max_cost_micros = spec.budget.max_cost_micros;
  deadline = spec.budget.deadline;
  idempotency_key = spec.idempotency_key;
}

-- `==` of the tuples: times are compared by their instants.
unfoldable pub same_query_part : Option QueryPart → Option QueryPart → Bool
same_query_part none none = true
same_query_part (some a) (some b) =
    a.query_id == b.query_id
    && a.text == b.text
    && a.limit == b.limit
    && a.scope == b.scope
    && same_optional_time a.valid_at b.valid_at
    && same_optional_time a.recorded_at b.recorded_at
same_query_part _ _ = false

unfoldable pub same_fingerprint : Fingerprint → Fingerprint → Bool
unfolding same_query_part
same_fingerprint a b =
    a.tenant_id == b.tenant_id
    && a.subject_id == b.subject_id
    && a.workspace_id == b.workspace_id
    && a.agent_id == b.agent_id
    && a.objective_ref == b.objective_ref
    && a.root_agent_id == b.root_agent_id
    && same_query_part a.query b.query
    && a.max_input_tokens == b.max_input_tokens
    && a.max_output_tokens == b.max_output_tokens
    && a.max_cost_micros == b.max_cost_micros
    && same_time a.deadline b.deadline
    && a.idempotency_key == b.idempotency_key

unfoldable pub snapshot_for_scope :
    CommittedRuntimeState → MemoryScope → ExecutionId → Result ExecutionSnapshot
snapshot_for_scope state scope execution_id = elim (lookup execution_id state.snapshots) [
  | none ↦ err execution_not_found
  | some snapshot ↦ if snapshot.scope == scope then ok snapshot else err execution_not_found
]

unfoldable pub commit_snapshot : CommittedRuntimeState → ExecutionSnapshot → CommittedRuntimeState
commit_snapshot state snapshot = record state {
  snapshots = insert snapshot.execution_id snapshot state.snapshots;
}

-- `replace(current, status=…, revision=…, updated_at=…)`, which runs the constructor again.
unfoldable pub advance : ExecutionSnapshot → ExecutionStatus → Datetime → Result ExecutionSnapshot
unfolding execution_snapshot
advance current status updated_at = execution_snapshot (record current {
  status = status;
  revision = current.revision +ℤ pos 1;
  updated_at = updated_at;
})

-- From any other status over cancelling to cancelled.
unfoldable pub cancel_running :
    ExecutionSnapshot → Datetime → Result (List (ExecutionStatus × ExecutionSnapshot))
unfolding can_transition_execution
cancel_running current updated_at = do
  raise_if (not (can_transition_execution current.status ExecutionStatus.cancelling))
      invalid_execution_transition
  cancelling ← advance current ExecutionStatus.cancelling updated_at
  raise_if (not (can_transition_execution ExecutionStatus.cancelling ExecutionStatus.cancelled))
      invalid_execution_transition
  cancelled ← advance cancelling ExecutionStatus.cancelled updated_at
  ok ((current.status, cancelling) ∷ (ExecutionStatus.cancelling, cancelled) ∷ [])

unfoldable pub finish_cancelling :
    ExecutionSnapshot → Datetime → Result (List (ExecutionStatus × ExecutionSnapshot))
unfolding can_transition_execution
finish_cancelling current updated_at = do
  raise_if (not (can_transition_execution ExecutionStatus.cancelling ExecutionStatus.cancelled))
      invalid_execution_transition
  cancelled ← advance current ExecutionStatus.cancelled updated_at
  ok ((ExecutionStatus.cancelling, cancelled) ∷ [])

unfoldable pub cancel_transitions :
    ExecutionSnapshot → Datetime → Result (List (ExecutionStatus × ExecutionSnapshot))
unfolding cancel_running finish_cancelling
cancel_transitions snapshot updated_at = elim snapshot.status [
  | ExecutionStatus.cancelled ↦ ok []
  | ExecutionStatus.failed ↦ ok []
  | ExecutionStatus.succeeded ↦ err invalid_execution_transition
  | ExecutionStatus.cancelling ↦ finish_cancelling snapshot updated_at
  | _ ↦ cancel_running snapshot updated_at
]

abbrev pub previous_value : Option ExecutionStatus → Value
previous_value none = null
previous_value (some status) = str (execution_status_value status)

-- `build_execution_status_changed_event`, before the envelope's constructor; its payload is a plain
-- dict (`frozen` is false) or what the envelope keeps.
unfoldable pub status_changed_event :
    Bool
    → EventId
    → CorrelationId
    → Option EventId
    → Option ExecutionStatus
    → ExecutionSnapshot
    → EventEnvelope
status_changed_event frozen event_id correlation_id causation_id previous_status snapshot = record {
  event_id = event_id;
  event_type = "runtime.execution-status-changed";
  schema_version = pos 1;
  tenant_id = snapshot.scope.tenant_id;
  aggregate_id = snapshot.execution_id;
  aggregate_version = snapshot.revision;
  correlation_id = correlation_id;
  causation_id = causation_id;
  occurred_at = snapshot.updated_at;
  payload = mapping frozen (
      field (text "execution_id") (str (uuid_text snapshot.execution_id)) (
        field (text "revision") (int snapshot.revision) (
          field (text "previous_status") (previous_value previous_status) (
            field (text "status") (str (execution_status_value snapshot.status))
              (field (text "updated_at") (str (isoformat snapshot.updated_at)) end)))));
}

-- `_emit_transition`: the event goes to the end of the buffer.
unfoldable pub emit_transition :
    EventId
    → CorrelationId
    → Option ExecutionStatus
    → ExecutionSnapshot
    → List EventEnvelope
    → Result (List EventEnvelope)
emit_transition event_id correlation_id previous_status snapshot buffer = do
  event ←
      event_envelope
        (status_changed_event false event_id correlation_id none previous_status snapshot)
  ok (buffer ++ event ∷ [])

module _ (now : Datetime) (new_event_id : ℕ → EventId) where
  -- The `for` loop of `_cancel`; `k` events have been made.
  unfoldable pub commit_transitions :
      ExecutionId → ℕ → List (ExecutionStatus × ExecutionSnapshot) → Callback
  commit_transitions execution_id k [] committed buffer = ok (committed, buffer)
  commit_transitions execution_id k ((previous_status, snapshot) ∷ transitions) committed buffer =
      do
        buffer' ←
            emit_transition (new_event_id k) execution_id (some previous_status) snapshot buffer
        commit_transitions execution_id (k + 1) transitions (commit_snapshot committed snapshot)
            buffer'

  unfoldable pub cancel_callback : MemoryScope → ExecutionId → Callback
  unfolding commit_transitions
  cancel_callback scope execution_id state buffer = do
    snapshot ← snapshot_for_scope state scope execution_id
    transitions ← cancel_transitions snapshot now
    (if is_empty transitions
        then ok (state, buffer)
        else commit_transitions execution_id 0 transitions state buffer)

  -- `cancel`: the answer, and the state that it leaves.
  unfoldable pub cancel :
      MemoryScope
      → ExecutionId
      → CommittedRuntimeState
      → Result ExecutionSnapshot × CommittedRuntimeState
  unfolding cancel_callback write
  cancel scope execution_id state = elim (write (cancel_callback scope execution_id) state) [
    | err e ↦ (err e, state)
    | ok state' ↦ (snapshot_for_scope state' scope execution_id, state')
  ]

  abbrev pub index_key : ExecutionSpec → TenantId × String
  index_key spec = (spec.scope.tenant_id, spec.idempotency_key)

  -- The snapshot that a new execution starts with, before its constructor.
  abbrev pub first_snapshot : ExecutionSpec → ExecutionSnapshot
  first_snapshot spec = record {
    execution_id = spec.id;
    scope = spec.scope;
    revision = pos 1;
    status = ExecutionStatus.pending;
    plan_revision = none;
    node_statuses = [];
    suspension = none;
    result_ref = none;
    failure = none;
    updated_at = now;
  }

  -- The branch of `_start` for a key that is in the index.
  unfoldable pub restart : ExecutionSpec → ExecutionId → Callback
  restart spec existing_id state buffer = elim (lookup existing_id state.fingerprints) [
    | none ↦ err execution_idempotency_conflict
    | some stored ↦
        if same_fingerprint stored (spec_fingerprint spec)
        then ok (state, buffer)
        else err execution_idempotency_conflict
  ]

  -- The other branch. The state that it returns is built without `outbox_events`, whose default is
  -- the empty tuple.
  unfoldable pub start_new : ExecutionSpec → Callback
  unfolding execution_snapshot
  start_new spec state buffer = do
    snapshot ← execution_snapshot (first_snapshot spec)
    buffer' ← emit_transition (new_event_id 0) spec.id none snapshot buffer
    ok (
      record {
        snapshots = insert snapshot.execution_id snapshot state.snapshots;
        idempotency_index = insert (index_key spec) snapshot.execution_id state.idempotency_index;
        fingerprints = insert snapshot.execution_id (spec_fingerprint spec) state.fingerprints;
        outbox_events = [];
      },
      buffer',
    )

  unfoldable pub start_callback : ExecutionSpec → Callback
  unfolding restart start_new
  start_callback spec state buffer = elim (lookup (index_key spec) state.idempotency_index) [
    | some existing_id ↦ restart spec existing_id state buffer
    | none ↦ start_new spec state buffer
  ]

  -- The read after the write: `state.idempotency_index[index_key]` may raise.
  unfoldable pub started : ExecutionSpec → CommittedRuntimeState → Result ExecutionSnapshot
  unfolding snapshot_for_scope
  started spec state = elim (lookup (index_key spec) state.idempotency_index) [
    | none ↦ err key_error
    | some execution_id ↦ snapshot_for_scope state spec.scope execution_id
  ]

  unfoldable pub start :
      ExecutionSpec → CommittedRuntimeState → Result ExecutionSnapshot × CommittedRuntimeState
  unfolding start_callback write started
  start spec state = elim (write (start_callback spec) state) [
    | err e ↦ (err e, state)
    | ok state' ↦ (started spec state', state')
  ]

unfoldable pub get_snapshot :
    MemoryScope → ExecutionId → CommittedRuntimeState → Result ExecutionSnapshot
unfolding snapshot_for_scope
get_snapshot scope execution_id state = read (λ s. snapshot_for_scope s scope execution_id) state
