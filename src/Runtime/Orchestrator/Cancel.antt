-- ===== src/Runtime/Orchestrator/Cancel.antt =====
-- What `cancel` does to an execution, whatever its status.
use engram_mesh.Common.{ℕ, true, false, Option, none, some, List, [], ◌∷◌, ◌++◌, ◌≡◌, arith, nat_eq}
use mathlib.Core.List.{append-nil}
use engram_mesh.Common.Dict.{lookup, insert, insert-insert, lookup-insert_self}
use engram_mesh.Common.Int.{pos, ◌+ℤ◌, ◌≤ℤ◌, +ℤ_parts}
use engram_mesh.Common.Result.{Result, ok, err, execution_not_found, invalid_execution_transition}
use engram_mesh.Kernel.Datetime.{Datetime, is_aware, require_aware}
use engram_mesh.Kernel.Ids.{ExecutionId, EventId, CorrelationId}
use engram_mesh.Kernel.Text.{is_blank}
use engram_mesh.Kernel.Freeze.{freeze_json_value}
use engram_mesh.Kernel.Events.{EventEnvelope, event_envelope}
use engram_mesh.Memory.Scope.{MemoryScope, scope_eq, scope_beq_iff}
use engram_mesh.Runtime.Status.{ExecutionStatus}
use engram_mesh.Runtime.Transitions.{can_transition_execution}
use engram_mesh.Runtime.Model.{ExecutionSnapshot, execution_snapshot, is_negative}
use engram_mesh.Runtime.Database.{CommittedRuntimeState, write}
use engram_mesh.Runtime.Orchestrator.{
  snapshot_for_scope, commit_snapshot, advance, cancel_transitions, cancel_running,
  finish_cancelling, status_changed_event, emit_transition, commit_transitions, cancel_callback,
  cancel,
}

-- A well-formed snapshot and clock let the event be built.
pub emit_transition-ok :
    (event_id : EventId) (correlation_id : CorrelationId) (previous : Option ExecutionStatus)
    (snapshot : ExecutionSnapshot) (buffer : List EventEnvelope)
    → pos 1 ≤ℤ snapshot.revision
    → is_aware snapshot.updated_at ≡ true
    → emit_transition event_id correlation_id previous snapshot buffer
      ≡ ok (buffer ++ status_changed_event true event_id correlation_id none previous snapshot ∷ [])
unfolding emit_transition event_envelope status_changed_event freeze_json_value is_blank
emit_transition-ok event_id correlation_id previous snapshot buffer r a = ground arith

-- The next revision of a snapshot, with another status, at the time of the call.
abbrev pub moved : ExecutionSnapshot → ExecutionStatus → Datetime → ExecutionSnapshot
moved snapshot status now = record snapshot {
  status = status;
  revision = snapshot.revision +ℤ pos 1;
  updated_at = now;
}

-- A snapshot that its constructor takes.
pub record IsBuilt (snapshot : ExecutionSnapshot) : Type 0 where
  pub numbered : pos 0 ≤ℤ snapshot.revision
  pub planned : is_negative snapshot.plan_revision ≡ false
  pub timed : is_aware snapshot.updated_at ≡ true

pub advance-ok :
    (snapshot : ExecutionSnapshot) (status : ExecutionStatus) (now : Datetime)
    → IsBuilt snapshot
    → is_aware now ≡ true
    → (advance snapshot status now ≡ ok (moved snapshot status now))
      × IsBuilt (moved snapshot status now)
      × (pos 1 ≤ℤ (moved snapshot status now).revision)
unfolding advance require_aware
advance-ok snapshot status now b a = ground (arith, +ℤ_parts snapshot.revision (pos 1))

-- How a cancellation of each status goes: it is refused, there is nothing to do, it is finished, or the
-- execution is sent over cancelling to cancelled.
pub data Course : Type 0 where
  refused done finish whole : Course

abbrev pub course : ExecutionStatus → Course
course ExecutionStatus.succeeded = refused
course ExecutionStatus.compensating = refused
course ExecutionStatus.cancelled = done
course ExecutionStatus.failed = done
course ExecutionStatus.cancelling = finish
course _ = whole

module _ (now : Datetime) (new_event_id : ℕ → EventId) where
  abbrev pub event : ℕ → ExecutionId → ExecutionStatus → ExecutionSnapshot → EventEnvelope
  event k execution_id previous snapshot =
      status_changed_event true (new_event_id k) execution_id none (some previous) snapshot

  abbrev pub settle :
      CommittedRuntimeState
      → ExecutionId
      → ExecutionSnapshot
      → List EventEnvelope
      → Result ExecutionSnapshot × CommittedRuntimeState
  settle state execution_id final events = (
    ok final,
    record state {
      snapshots = insert execution_id final state.snapshots;
      outbox_events = state.outbox_events ++ events;
    },
  )

  -- The answer to the cancellation of an execution with this snapshot, and the state afterwards.
  abbrev pub cancel_outcome :
      Course
      → ExecutionId
      → ExecutionSnapshot
      → CommittedRuntimeState
      → Result ExecutionSnapshot × CommittedRuntimeState
  cancel_outcome refused execution_id snapshot state = (err invalid_execution_transition, state)
  cancel_outcome done execution_id snapshot state = (ok snapshot, state)
  cancel_outcome finish execution_id snapshot state =
      let cancelled = moved snapshot ExecutionStatus.cancelled now in
      settle state execution_id cancelled
        (event 0 execution_id ExecutionStatus.cancelling cancelled ∷ [])
  cancel_outcome whole execution_id snapshot state =
      let cancelling = moved snapshot ExecutionStatus.cancelling now in
      let cancelled = moved cancelling ExecutionStatus.cancelled now in
      settle state execution_id cancelled (
        event 0 execution_id snapshot.status cancelling
        ∷ event 1 execution_id ExecutionStatus.cancelling cancelled
        ∷ [])

  module _ (aware : is_aware now ≡ true) (scope : MemoryScope) (execution_id : ExecutionId)
      (state : CommittedRuntimeState) (snapshot : ExecutionSnapshot)
      (found : lookup execution_id state.snapshots ≡ some snapshot)
      (named : snapshot.execution_id ≡ execution_id) (mine : snapshot.scope ≡ scope)
      (built : IsBuilt snapshot) where
    -- The answer for an execution that the caller's scope owns, for each of the ten statuses: the refusal
    -- of a success or of a compensation, the unchanged snapshot of what has failed or is cancelled already,
    -- one event from cancelling to cancelled, or two events, over cancelling; in the last two cases the
    -- stored and the returned snapshot are cancelled, one revision later for each event, and the outbox
    -- keeps what it held.
    pub cancel-outcome :
        cancel now new_event_id scope execution_id state
        ≡ cancel_outcome (course snapshot.status) execution_id snapshot state
    unfolding cancel cancel_callback write cancel_transitions cancel_running finish_cancelling
        commit_transitions commit_snapshot snapshot_for_scope can_transition_execution
    cancel-outcome =
        let cancelling = moved snapshot ExecutionStatus.cancelling now in
        let cancelled = moved snapshot ExecutionStatus.cancelled now in
        let (e0, b0, r0) = advance-ok snapshot ExecutionStatus.cancelled now built aware in
        let (e1, b1, r1) = advance-ok snapshot ExecutionStatus.cancelling now built aware in
        let (e2, b2, r2) = advance-ok cancelling ExecutionStatus.cancelled now b1 aware in
        let final = moved cancelling ExecutionStatus.cancelled now in
        ground (
          arith,
          append-nil state.outbox_events,
          scope_beq_iff snapshot.scope scope,
          emit_transition-ok (new_event_id 0) execution_id (some ExecutionStatus.cancelling)
              cancelled [],
          emit_transition-ok (new_event_id 0) execution_id (some snapshot.status) cancelling [],
          emit_transition-ok (new_event_id 1) execution_id (some ExecutionStatus.cancelling) final
              (event 0 execution_id snapshot.status cancelling ∷ []),
          insert-insert execution_id cancelling final state.snapshots,
          lookup-insert_self execution_id cancelled state.snapshots,
          lookup-insert_self execution_id final state.snapshots,
        )

  -- With a clock that is not timezone-aware nothing is written.
  pub cancel_naive :
      (scope : MemoryScope) (execution_id : ExecutionId) (state : CommittedRuntimeState)
      → is_aware now ≡ false
      → (cancel now new_event_id scope execution_id state).1 ≡ state
  unfolding cancel cancel_callback write cancel_transitions cancel_running finish_cancelling advance
      execution_snapshot require_aware can_transition_execution snapshot_for_scope
  cancel_naive scope execution_id state naive_clock = ground (arith, append-nil state.outbox_events)

  -- An execution that is not there, or belongs to another scope, is not found, and nothing is written.
  pub cancel_missing :
      (scope : MemoryScope) (execution_id : ExecutionId) (state : CommittedRuntimeState)
      → snapshot_for_scope state scope execution_id ≡ err execution_not_found
      → cancel now new_event_id scope execution_id state ≡ (err execution_not_found, state)
  unfolding cancel cancel_callback write
  cancel_missing scope execution_id state missing = ground arith
