-- ===== src/Runtime/Orchestrator/Effect.antt =====
-- What a started execution looks like to its readers, and what a cancellation then makes of it.
use engram_mesh.Common.{
  ℕ, String, true, none, some, ap, [], ◌∷◌, ◌≡◌, refl, arith, if◌then◌else◌, nat_eq, string_eq,
  pair_eq, ◌==◌,
}
use engram_mesh.Common.Dict.{lookup, insert, lookup-insert, lookup-insert_self}
use engram_mesh.Common.Int.{ℤ, pos, ◌+ℤ◌}
use engram_mesh.Common.Result.{Result, ok}
use engram_mesh.Kernel.Datetime.{Datetime, is_aware, isoformat}
use engram_mesh.Kernel.Ids.{ExecutionId, EventId, TenantId, uuid_text}
use engram_mesh.Kernel.Json.{Value, null, str, int, mapping, field, text, end}
use engram_mesh.Kernel.Events.{EventEnvelope}
use engram_mesh.Memory.Scope.{scope_eq, scope_beq_iff}
use engram_mesh.Runtime.Status.{ExecutionStatus}
use engram_mesh.Runtime.Model.{ExecutionSpec, ExecutionSnapshot}
use engram_mesh.Runtime.Database.{CommittedRuntimeState}
use engram_mesh.Runtime.Orchestrator.{
  snapshot_for_scope, get_snapshot, status_changed_event, start, cancel,
}
use engram_mesh.Runtime.Orchestrator.Cancel.{whole, cancel_outcome, cancel-outcome}
use engram_mesh.Runtime.Orchestrator.Start.{pending_snapshot, after_start, start-new}

-- The event of a change to a status, for the execution of a request, as its consumers see it.
abbrev pub change : EventId → ExecutionSpec → Datetime → ℤ → Value → String → EventEnvelope
change event_id spec now revision previous status = record {
  event_id = event_id;
  event_type = "runtime.execution-status-changed";
  schema_version = pos 1;
  tenant_id = spec.scope.tenant_id;
  aggregate_id = spec.id;
  aggregate_version = revision;
  correlation_id = spec.id;
  causation_id = none;
  occurred_at = now;
  payload = mapping true (
      field (text "execution_id") (str (uuid_text spec.id)) (
        field (text "revision") (int revision) (
          field (text "previous_status") previous (
            field (text "status") (str status)
              (field (text "updated_at") (str (isoformat now)) end)))));
}

-- The snapshot of the execution once it is cancelled: two revisions after it was created.
abbrev pub cancelled_snapshot : Datetime → ExecutionSpec → ExecutionSnapshot
cancelled_snapshot now spec = record {
  execution_id = spec.id;
  scope = spec.scope;
  revision = pos 3;
  status = ExecutionStatus.cancelled;
  plan_revision = none;
  node_statuses = [];
  suspension = none;
  result_ref = none;
  failure = none;
  updated_at = now;
}

module _ (now : Datetime) (new_event_id : ℕ → EventId) (spec : ExecutionSpec)
    (state : CommittedRuntimeState) where
  -- The execution was created: what a reader of the execution, of any execution, of any key and of the
  -- outbox finds.
  pub record IsCreated (later : CommittedRuntimeState) : Type 0 where
    pub readable : get_snapshot spec.scope spec.id later ≡ ok (pending_snapshot now spec)
    pub stored :
        (id : ExecutionId)
        → lookup id later.snapshots
          ≡ (if id == spec.id then some (pending_snapshot now spec) else lookup id state.snapshots)
    pub indexed :
        (key : TenantId × String)
        → lookup key later.idempotency_index ≡ (
            if key == (spec.scope.tenant_id, spec.idempotency_key)
            then some spec.id
            else lookup key state.idempotency_index)
    pub announced :
        later.outbox_events ≡ change (new_event_id 0) spec now (pos 1) null "pending" ∷ []

  pub start-IsCreated :
      is_aware now ≡ true
      → lookup (spec.scope.tenant_id, spec.idempotency_key) state.idempotency_index ≡ none
      → IsCreated (start now new_event_id spec state).1
  unfolding get_snapshot snapshot_for_scope status_changed_event
  start-IsCreated aware unused = rw (start-new now new_event_id spec state aware unused) (record {
    readable = ground (
      arith,
      lookup-insert_self spec.id (pending_snapshot now spec) state.snapshots,
      scope_beq_iff spec.scope spec.scope,
    );
    stored = λ id. lookup-insert id spec.id (pending_snapshot now spec) state.snapshots;
    indexed = λ key.
        lookup-insert key (spec.scope.tenant_id, spec.idempotency_key) spec.id
          state.idempotency_index;
    announced = refl;
  })

  -- The execution was created, and was then cancelled at a later time.
  pub record IsWithdrawn (at : Datetime) (cancel_event_id : ℕ → EventId)
      (answer : Result ExecutionSnapshot × CommittedRuntimeState) : Type 0 where
    pub returned : answer.0 ≡ ok (cancelled_snapshot at spec)
    pub replaced :
        (id : ExecutionId)
        → lookup id answer.1.snapshots
          ≡ (if id == spec.id then some (cancelled_snapshot at spec) else lookup id state.snapshots)
    pub announced :
        answer.1.outbox_events
        ≡ change (new_event_id 0) spec now (pos 1) null "pending"
          ∷ change (cancel_event_id 0) spec at (pos 2) (str "pending") "cancelling"
          ∷ change (cancel_event_id 1) spec at (pos 3) (str "cancelling") "cancelled"
          ∷ []

  module _ (aware : is_aware now ≡ true)
      (unused : lookup (spec.scope.tenant_id, spec.idempotency_key) state.idempotency_index ≡ none)
      (at : Datetime) (timed : is_aware at ≡ true) (cancel_event_id : ℕ → EventId) where
    cancel-started :
        cancel at cancel_event_id spec.scope spec.id (start now new_event_id spec state).1
        ≡ cancel_outcome at cancel_event_id whole spec.id
            (pending_snapshot now spec)
            (after_start now new_event_id spec state)
    cancel-started = rw (start-new now new_event_id spec state aware unused) (
        cancel-outcome at cancel_event_id timed spec.scope spec.id
          (after_start now new_event_id spec state) (pending_snapshot now spec)
          (lookup-insert_self spec.id (pending_snapshot now spec) state.snapshots) refl refl
          (record { numbered = omega arith; planned = refl; timed = aware }))

    cancel-IsWithdrawn :
        IsWithdrawn at cancel_event_id
          (cancel at cancel_event_id spec.scope spec.id (start now new_event_id spec state).1)
    unfolding status_changed_event ◌+ℤ◌
    cancel-IsWithdrawn = rw cancel-started (record {
      returned = refl;
      replaced = λ id. ground (
        arith,
        lookup-insert id spec.id (pending_snapshot now spec) state.snapshots,
        lookup-insert id spec.id (cancelled_snapshot at spec)
            (insert spec.id (pending_snapshot now spec) state.snapshots),
      );
      announced = refl;
    })

    -- With timezone-aware clocks, a request whose key its tenant has not used creates an execution that is
    -- pending at revision 1, with no plan, nodes, suspension, result or failure: that is the answer, and what a
    -- read in the request's scope then finds; the other executions and the other keys are as they were;
    -- and the outbox holds one event, whatever it held before. A cancellation by the same scope then
    -- answers and stores the execution cancelled at revision 3, leaves the other executions, and adds the
    -- events of revisions 2 and 3.
    pub start-creates :
        ((start now new_event_id spec state).0 ≡ ok (pending_snapshot now spec))
        × IsCreated (start now new_event_id spec state).1
        × IsWithdrawn at cancel_event_id
            (cancel at cancel_event_id spec.scope spec.id (start now new_event_id spec state).1)
    start-creates = (
      ap (λ r. r.0) (start-new now new_event_id spec state aware unused),
      start-IsCreated aware unused,
      cancel-IsWithdrawn,
    )
