-- ===== src/Runtime/Orchestrator/Remembers.antt =====
-- What the store keeps of a start over any history: its key and the fingerprint of its request.
use engram_mesh.Common.{
  ℕ, String, none, some, ◌≡◌, inl, inr, ap, subst, ◌∙◌, arith, Bool-cases, Option-cases, nat_eq,
  string_eq, pair_eq,
}
use engram_mesh.Common.Dict.{lookup, lookup-insert_other}
use engram_mesh.Common.Result.{Result-cases}
use engram_mesh.Kernel.Datetime.{Datetime, is_aware}
use engram_mesh.Kernel.Ids.{ExecutionId, EventId, TenantId}
use engram_mesh.Memory.Scope.{MemoryScope}
use engram_mesh.Runtime.Model.{ExecutionSpec, ExecutionSnapshot}
use engram_mesh.Runtime.Database.{CommittedRuntimeState, Fingerprint}
use engram_mesh.Runtime.Orchestrator.{
  spec_fingerprint, snapshot_for_scope, index_key, start, cancel,
}
use engram_mesh.Runtime.Orchestrator.Cancel.{
  Course, refused, done, finish, whole, course, cancel-outcome, cancel_outcome, cancel_naive,
  cancel_missing,
}
use engram_mesh.Runtime.Orchestrator.Start.{start-new, start_used, start_naive}
use engram_mesh.Runtime.Orchestrator.History.{
  snapshot_for_scope-found, snapshot_for_scope-error, IsFiled, Step, start_step, cancel_step,
  History, unchanged, then_step, History-Advances,
}

-- The store has the execution under the key, with the fingerprint of its request.
pub record Remembers (key : TenantId × String) (id : ExecutionId) (print : Fingerprint)
    (state : CommittedRuntimeState) : Type 0 where
  pub indexed : lookup key state.idempotency_index ≡ some id
  pub printed : lookup id state.fingerprints ≡ some print

module _ (key : TenantId × String) (id : ExecutionId) (print : Fingerprint) where
  start-Remembers :
      (now : Datetime) (new_event_id : ℕ → EventId) (spec : ExecutionSpec)
      (state : CommittedRuntimeState) (kept : ExecutionSnapshot)
      → lookup spec.id state.snapshots ≡ none
      → lookup id state.snapshots ≡ some kept
      → Remembers key id print state
      → Remembers key id print (start now new_event_id spec state).1
  start-Remembers now new_event_id spec state kept fresh stored known =
      elim (Bool-cases (is_aware now)) [
        | inr naive ↦ rw (start_naive now new_event_id spec state naive) known
        | inl aware ↦
            elim (Option-cases (lookup (index_key now new_event_id spec) state.idempotency_index)) [
              | inr (existing, used) ↦
                  rw (start_used now new_event_id spec state existing used) known
              | inl unused ↦
                  let other_key : (key ≡ index_key now new_event_id spec) → ⊥ = λ e.
                    ground (arith, known.indexed, ap (λ k. lookup k state.idempotency_index) e) in
                  let other_id : (id ≡ spec.id) → ⊥ =
                    λ e. ground (arith, ap (λ k. lookup k state.snapshots) e) in
                  rw (start-new now new_event_id spec state aware unused) (record {
                    indexed =
                        lookup-insert_other key (index_key now new_event_id spec) spec.id
                          state.idempotency_index other_key
                        ∙ known.indexed;
                    printed =
                        lookup-insert_other id spec.id (spec_fingerprint spec) state.fingerprints
                          other_id
                        ∙ known.printed;
                  })
            ]
      ]

  cancel_outcome-Remembers :
      (now : Datetime) (new_event_id : ℕ → EventId) (c : Course) (execution_id : ExecutionId)
      (snapshot : ExecutionSnapshot) (state : CommittedRuntimeState)
      → Remembers key id print state
      → Remembers key id print (cancel_outcome now new_event_id c execution_id snapshot state).1
  cancel_outcome-Remembers now new_event_id refused execution_id snapshot state known = known
  cancel_outcome-Remembers now new_event_id done execution_id snapshot state known = known
  cancel_outcome-Remembers now new_event_id finish execution_id snapshot state known = record {
    indexed = known.indexed;
    printed = known.printed;
  }
  cancel_outcome-Remembers now new_event_id whole execution_id snapshot state known = record {
    indexed = known.indexed;
    printed = known.printed;
  }

  cancel-Remembers :
      (now : Datetime) (new_event_id : ℕ → EventId) (scope : MemoryScope)
      (execution_id : ExecutionId) (state : CommittedRuntimeState)
      → IsFiled state.snapshots
      → Remembers key id print state
      → Remembers key id print (cancel now new_event_id scope execution_id state).1
  cancel-Remembers now new_event_id scope execution_id state filed known =
      elim (Bool-cases (is_aware now)) [
        | inr naive ↦ rw (cancel_naive now new_event_id scope execution_id state naive) known
        | inl aware ↦ elim (Result-cases (snapshot_for_scope state scope execution_id)) [
          | inl (e, missing) ↦
              let e' = snapshot_for_scope-error state scope execution_id missing in
              rw (cancel_missing now new_event_id scope execution_id state (rw e' at missing)) known
          | inr (snapshot, found) ↦
              let (stored, mine) = snapshot_for_scope-found state scope execution_id found in
              let (named, built) = filed execution_id snapshot stored in
              rw
                (cancel-outcome now new_event_id aware scope execution_id state snapshot stored
                  named mine built)
                (cancel_outcome-Remembers now new_event_id (course snapshot.status) execution_id
                  snapshot state known)
        ]
      ]

  Step-Remembers :
      {before later : CommittedRuntimeState} (kept : ExecutionSnapshot)
      → Step before later
      → IsFiled before.snapshots
      → lookup id before.snapshots ≡ some kept
      → Remembers key id print before
      → Remembers key id print later
  Step-Remembers kept (start_step now new_event_id spec {before = before} fresh e) filed stored
        known =
      subst (λ s. Remembers key id print s) e
        (start-Remembers now new_event_id spec before kept fresh stored known)
  Step-Remembers kept (cancel_step now new_event_id scope execution_id {before = before} e) filed
        stored known =
      subst (λ s. Remembers key id print s) e
        (cancel-Remembers now new_event_id scope execution_id before filed known)

  pub History-Remembers :
      {first last : CommittedRuntimeState} (kept : ExecutionSnapshot)
      → History first last
      → IsFiled first.snapshots
      → lookup id first.snapshots ≡ some kept
      → Remembers key id print first
      → Remembers key id print last
  History-Remembers kept unchanged filed stored known = known
  History-Remembers kept (then_step {before = before} h step) filed stored known =
      let (filed', advanced) = History-Advances h filed in
      let (now_kept, stored', _) = advanced id kept stored in
      Step-Remembers now_kept step filed' stored' (History-Remembers kept h filed stored known)
