-- ===== src/Runtime/Orchestrator/Start.antt =====
-- What `start` does, for a key that is new and for one that is known.
use engram_mesh.Common.{
  ℕ, true, false, none, some, [], ◌∷◌, ◌≡◌, arith, if◌then◌else◌, nat_eq, string_eq, pair_eq,
}
use mathlib.Core.List.{append-nil}
use engram_mesh.Common.Int.{pos}
use engram_mesh.Common.Dict.{lookup, insert, lookup-insert_self}
use engram_mesh.Common.Result.{ok, err, execution_idempotency_conflict}
use engram_mesh.Kernel.Datetime.{Datetime, is_aware, require_aware}
use engram_mesh.Kernel.Ids.{ExecutionId, EventId}
use engram_mesh.Kernel.Events.{EventEnvelope}
use engram_mesh.Memory.Scope.{scope_eq, scope_beq_iff}
use engram_mesh.Runtime.Status.{ExecutionStatus}
use engram_mesh.Runtime.Model.{ExecutionSpec, ExecutionSnapshot, execution_snapshot}
use engram_mesh.Runtime.Database.{CommittedRuntimeState, Fingerprint, write}
use engram_mesh.Runtime.Orchestrator.{
  spec_fingerprint, same_fingerprint, snapshot_for_scope, status_changed_event, index_key, restart,
  start_new, start_callback, started, start,
}
use engram_mesh.Runtime.Orchestrator.Cancel.{emit_transition-ok}

-- The snapshot that a new execution is to have: pending, at revision 1, with nothing planned yet.
abbrev pub pending_snapshot : Datetime → ExecutionSpec → ExecutionSnapshot
pending_snapshot now spec = record {
  execution_id = spec.id;
  scope = spec.scope;
  revision = pos 1;
  status = ExecutionStatus.pending;
  plan_revision = none;
  node_statuses = [];
  suspension = none;
  result_ref = none;
  failure = none;
  updated_at = now;
}

module _ (now : Datetime) (new_event_id : ℕ → EventId) (spec : ExecutionSpec)
    (state : CommittedRuntimeState) where
  abbrev pub start_event : EventEnvelope
  start_event =
      status_changed_event true (new_event_id 0) spec.id none none (pending_snapshot now spec)

  -- The state after a new execution was started. Its outbox holds the new event alone.
  abbrev pub after_start : CommittedRuntimeState
  after_start = record {
    snapshots = insert spec.id (pending_snapshot now spec) state.snapshots;
    idempotency_index = insert (index_key now new_event_id spec) spec.id state.idempotency_index;
    fingerprints = insert spec.id (spec_fingerprint spec) state.fingerprints;
    outbox_events = start_event ∷ [];
  }

  -- A key that the tenant has not used starts a pending execution at revision 1, which is stored, indexed
  -- and returned; and the outbox then holds its event only: the events of earlier writes are gone,
  -- however many there were.
  pub start-new :
      is_aware now ≡ true
      → lookup (index_key now new_event_id spec) state.idempotency_index ≡ none
      → start now new_event_id spec state ≡ (ok (pending_snapshot now spec), after_start)
  unfolding start start_callback start_new write started snapshot_for_scope execution_snapshot
      require_aware
  start-new aware unused = ground (
    arith,
    emit_transition-ok (new_event_id 0) spec.id none (pending_snapshot now spec) [],
    lookup-insert_self (index_key now new_event_id spec) spec.id state.idempotency_index,
    lookup-insert_self spec.id (pending_snapshot now spec) state.snapshots,
    scope_beq_iff spec.scope spec.scope,
  )

  -- A key that the tenant has used is a conflict if the fingerprint stored under it is another, and
  -- gives the execution that it started if it is the same; nothing is written either way.
  pub start-known :
      (existing : ExecutionId) (stored : Fingerprint) (snapshot : ExecutionSnapshot)
      → lookup (index_key now new_event_id spec) state.idempotency_index ≡ some existing
      → lookup existing state.fingerprints ≡ some stored
      → lookup existing state.snapshots ≡ some snapshot
      → snapshot.scope ≡ spec.scope
      → start now new_event_id spec state ≡ (
        (if same_fingerprint stored (spec_fingerprint spec)
            then ok snapshot
            else err execution_idempotency_conflict),
        state,
      )
  unfolding start start_callback restart write started snapshot_for_scope
  start-known existing stored snapshot used f s mine =
      ground (arith, append-nil state.outbox_events, scope_beq_iff snapshot.scope spec.scope)

  -- Another fingerprint under the key is a conflict, whatever is stored of the execution.
  pub start_other :
      (existing : ExecutionId) (stored : Fingerprint)
      → lookup (index_key now new_event_id spec) state.idempotency_index ≡ some existing
      → lookup existing state.fingerprints ≡ some stored
      → same_fingerprint stored (spec_fingerprint spec) ≡ false
      → start now new_event_id spec state ≡ (err execution_idempotency_conflict, state)
  unfolding start start_callback restart write
  start_other existing stored used f other = ground (arith, append-nil state.outbox_events)

  pub start_naive : is_aware now ≡ false → (start now new_event_id spec state).1 ≡ state
  unfolding start start_callback restart start_new write started snapshot_for_scope
      execution_snapshot require_aware
  start_naive naive_clock = ground (arith, append-nil state.outbox_events)

  -- With a known key nothing is written.
  pub start_used :
      (existing : ExecutionId)
      → lookup (index_key now new_event_id spec) state.idempotency_index ≡ some existing
      → (start now new_event_id spec state).1 ≡ state
  unfolding start start_callback restart write started snapshot_for_scope
  start_used existing used = ground (arith, append-nil state.outbox_events)
