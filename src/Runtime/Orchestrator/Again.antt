-- ===== src/Runtime/Orchestrator/Again.antt =====
-- What a second start under a used key answers, after any history of other calls.
use engram_mesh.Common.{
  ℕ, true, none, some, ◌≡◌, ◌⊎◌, inl, inr, refl, ◌∙◌, arith, Bool-cases, nat_eq, string_eq, pair_eq,
}
use engram_mesh.Common.Dict.{lookup, lookup-insert_self}
use engram_mesh.Common.Result.{Result, ok, err, execution_idempotency_conflict}
use engram_mesh.Kernel.Datetime.{Datetime, is_aware}
use engram_mesh.Kernel.Ids.{EventId}
use engram_mesh.Runtime.Status.{ExecutionStatus}
use engram_mesh.Runtime.Transitions.Reach.{Leads}
use engram_mesh.Runtime.Model.{ExecutionSpec, ExecutionSnapshot}
use engram_mesh.Runtime.Database.{CommittedRuntimeState}
use engram_mesh.Runtime.Orchestrator.{spec_fingerprint, same_fingerprint, start}
use engram_mesh.Runtime.Orchestrator.Start.{pending_snapshot, start-new, start-known, start_other}
use engram_mesh.Runtime.Orchestrator.Same.{SameRequest, same_fingerprint_iff}
use engram_mesh.Runtime.Orchestrator.History.{
  IsFiled, Follows, start_step, History, unchanged, then_step, History-Advances,
}
use engram_mesh.Runtime.Orchestrator.Remembers.{Remembers, History-Remembers}

-- The answer to a second request, by the snapshot that the first one's execution has come to; the state
-- stays as it is.
abbrev pub Answered :
    ExecutionSpec
    → ExecutionSpec
    → ExecutionSnapshot
    → CommittedRuntimeState
    → Result ExecutionSnapshot × CommittedRuntimeState
    → Type 0
Answered first again current last answer =
    SameRequest first again × (answer ≡ (ok current, last))
    ⊎ (SameRequest first again → ⊥) × (answer ≡ (err execution_idempotency_conflict, last))

module _ (now : Datetime) (new_event_id : ℕ → EventId) (first : ExecutionSpec)
    (state : CommittedRuntimeState) (aware : is_aware now ≡ true)
    (unused : lookup (first.scope.tenant_id, first.idempotency_key) state.idempotency_index ≡ none)
    (fresh : lookup first.id state.snapshots ≡ none) (filed : IsFiled state.snapshots)
    {last : CommittedRuntimeState}
    (history : History (start now new_event_id first state).1 last) where
  -- What the first start leaves behind is there at the end of the history.
  at_the_end :
      Remembers
        (first.scope.tenant_id, first.idempotency_key)
        first.id
        (spec_fingerprint first)
        last
      × ((current : ExecutionSnapshot) × (lookup first.id last.snapshots ≡ some current)
          × Follows (pending_snapshot now first) current)
  at_the_end =
      let e = start-new now new_event_id first state aware unused in
      let one_step : History state (start now new_event_id first state).1 =
        then_step unchanged (start_step now new_event_id first fresh refl) in
      let (filed', _) = History-Advances one_step filed in
      let stored : lookup first.id (start now new_event_id first state).1.snapshots
          ≡ some (pending_snapshot now first) =
        rw e (lookup-insert_self first.id (pending_snapshot now first) state.snapshots) in
      let (_, advanced) = History-Advances history filed' in
      (
        History-Remembers (first.scope.tenant_id, first.idempotency_key) first.id
            (spec_fingerprint first) (pending_snapshot now first) history filed' stored
            (rw e (record {
              indexed =
                  lookup-insert_self (first.scope.tenant_id, first.idempotency_key) first.id
                    state.idempotency_index;
              printed = lookup-insert_self first.id (spec_fingerprint first) state.fingerprints;
            })),
        advanced first.id (pending_snapshot now first) stored,
      )

  -- An execution was started under a key that its tenant had not used and an identifier that no execution
  -- had, with a timezone-aware clock. After any history of further starts and cancellations, a start of
  -- the same tenant with the same key, at whatever time, changes nothing. If it asks for the same (scope,
  -- objective, agent, query, budget; times equal as moments), it answers the snapshot that the first
  -- execution has come to, whose status legal transitions reached from pending; and otherwise a conflict.
  pub start-again :
      (later : Datetime) (other_event_id : ℕ → EventId) (again : ExecutionSpec)
      → again.scope.tenant_id ≡ first.scope.tenant_id
      → again.idempotency_key ≡ first.idempotency_key
      → (current : ExecutionSnapshot) × (lookup first.id last.snapshots ≡ some current)
        × Leads ExecutionStatus.pending current.status
        × Answered first again current last (start later other_event_id again last)
  start-again later other_event_id again tenant key =
      let (known, (current, stored, follows)) = at_the_end in
      let used : lookup (again.scope.tenant_id, again.idempotency_key) last.idempotency_index
          ≡ some first.id =
        rw (tenant, key) known.indexed in
      (
        current,
        stored,
        follows.legal,
        elim (Bool-cases (same_fingerprint (spec_fingerprint first) (spec_fingerprint again))) [
          | inl same ↦
              let asked = (same_fingerprint_iff first again).0 same in
              inl (
                asked,
                ground (
                  arith,
                  start-known later other_event_id again last first.id (spec_fingerprint first)
                      current used known.printed stored (follows.scoped ∙ asked.scope),
                ),
              )
          | inr other ↦ inr (
            (λ asked. ground (arith, (same_fingerprint_iff first again).1 asked)),
            start_other later other_event_id again last first.id (spec_fingerprint first) used
                known.printed other,
          )
        ],
      )
