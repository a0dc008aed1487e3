-- ===== src/Runtime/Examples.antt =====
-- Executions at small inputs, and the theorems there.
use engram_mesh.Common.{
  Among, ℕ, ◌+◌, true, false, none, some, ◌≡◌, ◌↔◌, ◌⊎◌, refl, nat_eq, arith, List, [], ◌∷◌, All,
  is_some, ◌≤◌,
}
use engram_mesh.Common.Dict.{lookup}
use engram_mesh.Common.Int.{pos, ◌≤ℤ◌, ◌<ℤ◌}
use engram_mesh.Common.Result.{ok}
use engram_mesh.Kernel.Text.{is_blank}
use engram_mesh.Kernel.Datetime.{Datetime, aware, is_aware, instant_of}
use engram_mesh.Kernel.Ids.{EventId, ExecutionId}
use engram_mesh.Memory.Scope.{MemoryScope}
use engram_mesh.Runtime.Status.{ExecutionStatus, NodeStatus}
use engram_mesh.Runtime.Transitions.{can_transition_execution, can_transition_node}
use engram_mesh.Runtime.Transitions.Reach.{
  Leads, NodeLeads, here, next, is_terminal, phase, node_phase, Leads-phase, NodeLeads-phase,
  Leads-end,
}
use engram_mesh.Runtime.Model.{
  Budget, make_budget, ExecutionSpec, ExecutionSnapshot, Suspension, approval, make_suspension,
  AgentOutcome, agent_outcome, ToolResult, tool_result,
}
use engram_mesh.Runtime.Model.Laws.{make_budget_iff, make_suspension_iff, outcome_iff}
use engram_mesh.Runtime.Database.{CommittedRuntimeState, empty_runtime_state}
use engram_mesh.Runtime.Orchestrator.{start, cancel, spec_fingerprint, same_fingerprint}
use engram_mesh.Runtime.Orchestrator.Cancel.{IsBuilt, course, cancel_outcome, cancel-outcome}
use engram_mesh.Runtime.Orchestrator.Start.{pending_snapshot, after_start}
use engram_mesh.Runtime.Orchestrator.Effect.{IsCreated, IsWithdrawn, start-creates}
use engram_mesh.Runtime.Orchestrator.Again.{Answered, start-again}
use engram_mesh.Runtime.SnapshotWriter.{new_snapshot_writer, upsert_all}
use engram_mesh.Runtime.SnapshotWriter.Monotonic.{HasReached, stored, upsert_all-newest}
use engram_mesh.Runtime.Orchestrator.History.{
  start_step, cancel_step, History, unchanged, then_step, IsFiled, Advances, History-Advances,
}

abbrev scope : MemoryScope
scope = record { tenant_id = 1; subject_id = 2; workspace_id = none; agent_id = none }

abbrev clock : Datetime
clock = aware (pos 63_745_056_000_000_000) (pos 0)

abbrev event_ids : ℕ → EventId
event_ids k = 100 + k

abbrev budget : Budget
budget = record {
  max_input_tokens = pos 10;
  max_output_tokens = pos 10;
  max_cost_micros = pos 0;
  deadline = clock;
}

abbrev spec : ExecutionSpec
spec = record {
  id = 7;
  scope = scope;
  objective_ref = 8;
  root_agent_id = 9;
  memory_query = none;
  budget = budget;
  idempotency_key = "k";
}

abbrev pending : ExecutionSnapshot
pending = pending_snapshot clock spec

abbrev one_execution : CommittedRuntimeState
one_execution = after_start clock event_ids spec empty_runtime_state

pending-IsBuilt : IsBuilt pending
pending-IsBuilt = record { numbered = omega arith; planned = refl; timed = refl }

cancel-outcome_example :
    cancel clock event_ids scope 7 one_execution
    ≡ cancel_outcome clock event_ids (course ExecutionStatus.pending) 7 pending one_execution
cancel-outcome_example =
    cancel-outcome clock event_ids refl scope 7 one_execution pending refl refl refl pending-IsBuilt

abbrev other : ExecutionSpec
other = record spec { id = 17; idempotency_key = "l" }

abbrev an_hour_on : Datetime
an_hour_on = aware (pos 63_745_059_600_000_000) (pos 0)

start-creates_example :
    ((start clock event_ids other one_execution).0 ≡ ok (pending_snapshot clock other))
    × IsCreated clock event_ids other one_execution (start clock event_ids other one_execution).1
    × IsWithdrawn clock event_ids other one_execution an_hour_on event_ids (
        cancel an_hour_on event_ids other.scope other.id
          (start clock event_ids other one_execution).1)
start-creates_example =
    start-creates clock event_ids other one_execution refl refl an_hour_on refl event_ids

same_again :
    same_fingerprint (spec_fingerprint spec) (spec_fingerprint (record spec { id = 17 })) ≡ true
unfolding same_fingerprint spec_fingerprint
same_again = refl

empty_IsFiled : IsFiled empty_runtime_state.snapshots
empty_IsFiled id a h = ground arith

two_steps :
    History empty_runtime_state
      (cancel clock event_ids scope 7 (start clock event_ids spec empty_runtime_state).1).1
two_steps =
    then_step (then_step unchanged (start_step clock event_ids spec refl refl))
      (cancel_step clock event_ids scope 7 refl)

after_cancel :
    History
      (start clock event_ids spec empty_runtime_state).1
      (cancel clock event_ids scope 7 (start clock event_ids spec empty_runtime_state).1).1
after_cancel = then_step unchanged (cancel_step clock event_ids scope 7 refl)

start-again_example :
    (current : ExecutionSnapshot) × (lookup 7
        (cancel clock event_ids scope 7
          (start clock event_ids spec empty_runtime_state).1).1.snapshots
      ≡ some current)
    × Leads ExecutionStatus.pending current.status
    × Answered spec
        (record spec { id = 17 })
        current
        (cancel clock event_ids scope 7 (start clock event_ids spec empty_runtime_state).1).1
        (start an_hour_on event_ids
          (record spec { id = 17 })
          (cancel clock event_ids scope 7 (start clock event_ids spec empty_runtime_state).1).1)
start-again_example =
    start-again clock event_ids spec empty_runtime_state refl refl refl empty_IsFiled after_cancel
      an_hour_on event_ids (record spec { id = 17 }) refl refl

History-Advances_example :
    IsFiled
      (cancel clock event_ids scope 7
        (start clock event_ids spec empty_runtime_state).1).1.snapshots
    × Advances empty_runtime_state.snapshots
        (cancel clock event_ids scope 7
          (start clock event_ids spec empty_runtime_state).1).1.snapshots
History-Advances_example = History-Advances two_steps empty_IsFiled

to_cancelling : Leads ExecutionStatus.running ExecutionStatus.cancelling
unfolding can_transition_execution
to_cancelling = next {t = ExecutionStatus.running} here refl

Leads-phase_example : phase ExecutionStatus.running ≤ phase ExecutionStatus.cancelling
Leads-phase_example = Leads-phase ExecutionStatus.running to_cancelling

to_skipped : NodeLeads NodeStatus.pending NodeStatus.skipped
unfolding can_transition_node
to_skipped = next {t = NodeStatus.ready} (next {t = NodeStatus.pending} here refl) refl

NodeLeads-phase_example : node_phase NodeStatus.pending ≤ node_phase NodeStatus.skipped
NodeLeads-phase_example = NodeLeads-phase NodeStatus.pending to_skipped

Leads-end_example :
    ((is_terminal ExecutionStatus.running ≡ true)
      × ((t : ExecutionStatus) → Leads ExecutionStatus.running t → t ≡ ExecutionStatus.running))
    ⊎ ((is_terminal ExecutionStatus.running ≡ false)
        × Leads ExecutionStatus.running ExecutionStatus.cancelled)
Leads-end_example = Leads-end ExecutionStatus.running

make_budget_iff_example : (make_budget budget ≡ ok budget) ↔ (
    (pos 0 ≤ℤ budget.max_input_tokens)
    × (pos 0 ≤ℤ budget.max_output_tokens)
    × (pos 0 ≤ℤ budget.max_cost_micros)
    × (is_aware budget.deadline ≡ true))
make_budget_iff_example = make_budget_iff budget

abbrev suspension : Suspension
suspension = record {
  request_id = "r";
  idempotency_key = "k";
  execution_id = 7;
  node_id = none;
  kind = approval;
  request_ref = 8;
  requested_at = clock;
  expires_at = aware (pos 63_745_056_000_000_001) (pos 0);
}

make_suspension_iff_example : (make_suspension suspension ≡ ok suspension) ↔ (
    (is_blank suspension.request_id ≡ false)
    × (is_blank suspension.idempotency_key ≡ false)
    × (is_aware suspension.requested_at ≡ true)
    × (is_aware suspension.expires_at ≡ true)
    × (instant_of suspension.requested_at <ℤ instant_of suspension.expires_at))
make_suspension_iff_example = make_suspension_iff suspension

abbrev agent_output : AgentOutcome
agent_output = record { attempt_id = 1; output_ref = some 2; failure = none }

abbrev no_result : ToolResult
no_result = record { effect_id = 1; output_ref = none; failure = none }

outcome_iff_example :
    ((agent_outcome agent_output ≡ ok agent_output) ↔ (
      (is_some agent_output.output_ref ≡ true) × (agent_output.failure ≡ none)
      ⊎ (agent_output.output_ref ≡ none) × (is_some agent_output.failure ≡ true)))
    × ((tool_result no_result ≡ ok no_result) ↔ (
        (is_some no_result.output_ref ≡ true) × (no_result.failure ≡ none)
        ⊎ (no_result.output_ref ≡ none) × (is_some no_result.failure ≡ true)))
outcome_iff_example = outcome_iff agent_output no_result

-- A later revision arrives before an earlier one.
abbrev deliveries : List ExecutionSnapshot
deliveries = record pending { revision = pos 2 } ∷ pending ∷ []

upsert_all-newest_example :
    All (HasReached (upsert_all new_snapshot_writer deliveries)) deliveries
    × ((id : ExecutionId) (kept : ExecutionSnapshot)
        → stored (upsert_all new_snapshot_writer deliveries) id ≡ some kept
        → (kept.execution_id ≡ id) × Among kept deliveries)
upsert_all-newest_example = upsert_all-newest deliveries
