-- ===== src/Runtime/Orchestrator/History.antt =====
-- Executions over a history of starts and cancellations.
use engram_mesh.Common.{
  ℕ, true, none, some, ◌≡◌, refl, ap, subst, ◌∙◌, arith, Bool-cases, Option-cases, inl, inr, eqb,
  eqb_iff, nat_eq, string_eq, pair_eq,
}
use engram_mesh.Common.Dict.{Dict, lookup, insert, lookup-insert}
use engram_mesh.Common.Int.{pos, ◌≤ℤ◌, +ℤ_parts}
use engram_mesh.Common.Result.{Error, Result-cases, ok, err, execution_not_found}
use engram_mesh.Kernel.Datetime.{Datetime, is_aware}
use engram_mesh.Kernel.Ids.{ExecutionId, EventId}
use engram_mesh.Memory.Scope.{MemoryScope, scope_eq, scope_beq_iff}
use engram_mesh.Runtime.Status.{ExecutionStatus}
use engram_mesh.Runtime.Transitions.{can_transition_execution}
use engram_mesh.Runtime.Transitions.Reach.{Leads, here, next}
use engram_mesh.Runtime.Model.{ExecutionSpec, ExecutionSnapshot}
use engram_mesh.Runtime.Database.{CommittedRuntimeState}
use engram_mesh.Runtime.Orchestrator.{snapshot_for_scope, index_key, start, cancel}
use engram_mesh.Runtime.Orchestrator.Cancel.{
  IsBuilt, Course, refused, done, finish, whole, course, moved, advance-ok, cancel-outcome,
  cancel_outcome, cancel_naive, cancel_missing,
}
use engram_mesh.Runtime.Orchestrator.Start.{pending_snapshot, start-new, start_used, start_naive}

abbrev pub Snapshots : Type 0
Snapshots = Dict ExecutionId ExecutionSnapshot

-- One snapshot of an execution may follow another: legal transitions lead from status to status, the
-- revision does not fall, and the execution keeps its identifier and its scope.
pub record Follows (a b : ExecutionSnapshot) : Type 0 where
  pub legal : Leads a.status b.status
  pub revised : a.revision ≤ℤ b.revision
  pub scoped : b.scope ≡ a.scope
  pub named : b.execution_id ≡ a.execution_id

-- Every execution of the first dictionary is in the second, with a snapshot that follows.
abbrev pub Advances : Snapshots → Snapshots → Type 0
Advances old new =
    (id : ExecutionId) (a : ExecutionSnapshot)
    → lookup id old ≡ some a
    → (b : ExecutionSnapshot) × (lookup id new ≡ some b) × Follows a b

-- Snapshots stand under their own identifiers, and are such as the constructor takes.
abbrev pub IsFiled : Snapshots → Type 0
IsFiled snapshots =
    (id : ExecutionId) (a : ExecutionSnapshot)
    → lookup id snapshots ≡ some a
    → (a.execution_id ≡ id) × IsBuilt a

Follows-refl : (a : ExecutionSnapshot) → Follows a a
Follows-refl a = record { legal = here; revised = omega arith; scoped = refl; named = refl }

Advances-refl : (d : Snapshots) → Advances d d
Advances-refl d id a h = (a, h, Follows-refl a)

insert-Advances :
    (k : ExecutionId) (old new : ExecutionSnapshot) (d : Snapshots)
    → lookup k d ≡ some old
    → Follows old new
    → Advances d (insert k new d)
insert-Advances k old new d h f id a e = elim (Bool-cases (eqb id k)) [
  | inl same ↦
      let e' : id ≡ k = (eqb_iff id k).0 same in
      let e'' : a ≡ old = ground arith in (new, ground (arith, lookup-insert id k new d), rw e'' f)
  | inr other ↦ (a, ground (arith, lookup-insert id k new d), Follows-refl a)
]

insert_new-Advances :
    (k : ExecutionId) (new : ExecutionSnapshot) (d : Snapshots)
    → lookup k d ≡ none
    → Advances d (insert k new d)
insert_new-Advances k new d h id a e = elim (Bool-cases (eqb id k)) [
  | inl same ↦ let e' : id ≡ k = (eqb_iff id k).0 same in ground arith
  | inr other ↦ (a, ground (arith, lookup-insert id k new d), Follows-refl a)
]

insert-IsFiled :
    (k : ExecutionId) (new : ExecutionSnapshot) (d : Snapshots)
    → IsFiled d
    → new.execution_id ≡ k
    → IsBuilt new
    → IsFiled (insert k new d)
insert-IsFiled k new d filed named built id a e = elim (Bool-cases (eqb id k)) [
  | inl same ↦
      let e' : id ≡ k = (eqb_iff id k).0 same in
      let e'' : a ≡ new = ground (arith, lookup-insert id k new d) in rw (e'', e') (named, built)
  | inr other ↦ filed id a (ground (arith, lookup-insert id k new d))
]

pub snapshot_for_scope-found :
    (state : CommittedRuntimeState) (scope : MemoryScope) (id : ExecutionId)
    {snapshot : ExecutionSnapshot}
    → snapshot_for_scope state scope id ≡ ok snapshot
    → (lookup id state.snapshots ≡ some snapshot) × (snapshot.scope ≡ scope)
unfolding snapshot_for_scope
snapshot_for_scope-found state scope id h = elim (Option-cases (lookup id state.snapshots)) [
  | inl missing ↦ ground arith
  | inr (s, e) ↦ ground (arith, scope_beq_iff s.scope scope)
]

pub snapshot_for_scope-error :
    (state : CommittedRuntimeState) (scope : MemoryScope) (id : ExecutionId) {e : Error}
    → snapshot_for_scope state scope id ≡ err e
    → e ≡ execution_not_found
unfolding snapshot_for_scope
snapshot_for_scope-error state scope id h = ground arith

-- Two dictionaries of one operation: the new one holds valid snapshots and advances the old one.
abbrev pub Keeps : Snapshots → Snapshots → Type 0
Keeps old new = IsFiled new × Advances old new

module _ (now : Datetime) (new_event_id : ℕ → EventId) (execution_id : ExecutionId)
    (state : CommittedRuntimeState) (filed : IsFiled state.snapshots) where
  same_state :
      (later : CommittedRuntimeState) → later ≡ state → Keeps state.snapshots later.snapshots
  same_state later e = rw e (filed, Advances-refl state.snapshots)

  cancel_outcome-Keeps :
      (c : Course) (snapshot : ExecutionSnapshot)
      → c ≡ course snapshot.status
      → lookup execution_id state.snapshots ≡ some snapshot
      → is_aware now ≡ true
      → Keeps state.snapshots
          (cancel_outcome now new_event_id c execution_id snapshot state).1.snapshots
  unfolding can_transition_execution
  cancel_outcome-Keeps refused snapshot e found aware = (filed, Advances-refl state.snapshots)
  cancel_outcome-Keeps done snapshot e found aware = (filed, Advances-refl state.snapshots)
  cancel_outcome-Keeps finish snapshot e found aware =
      let (named, built) = filed execution_id snapshot found in
      let (_, built', _) = advance-ok snapshot ExecutionStatus.cancelled now built aware in
      let cancelled = moved snapshot ExecutionStatus.cancelled now in
      (
        insert-IsFiled execution_id cancelled state.snapshots filed named built',
        insert-Advances execution_id snapshot cancelled state.snapshots found (record {
          legal = next here (ground arith);
          revised = omega (arith, +ℤ_parts snapshot.revision (pos 1));
          scoped = refl;
          named = refl;
        }),
      )
  cancel_outcome-Keeps whole snapshot e found aware =
      let (named, built) = filed execution_id snapshot found in
      let cancelling = moved snapshot ExecutionStatus.cancelling now in
      let cancelled = moved cancelling ExecutionStatus.cancelled now in
      let (_, built', _) = advance-ok snapshot ExecutionStatus.cancelling now built aware in
      let (_, built'', _) = advance-ok cancelling ExecutionStatus.cancelled now built' aware in
      (
        insert-IsFiled execution_id cancelled state.snapshots filed named built'',
        insert-Advances execution_id snapshot cancelled state.snapshots found (record {
          legal = next {t = ExecutionStatus.cancelling} (next here (ground arith)) refl;
          revised =
              omega
                (arith, +ℤ_parts snapshot.revision (pos 1), +ℤ_parts cancelling.revision (pos 1));
          scoped = refl;
          named = refl;
        }),
      )

  cancel-Keeps :
      (scope : MemoryScope)
      → Keeps state.snapshots (cancel now new_event_id scope execution_id state).1.snapshots
  cancel-Keeps scope = elim (Bool-cases (is_aware now)) [
    | inr naive ↦ same_state _ (cancel_naive now new_event_id scope execution_id state naive)
    | inl aware ↦ elim (Result-cases (snapshot_for_scope state scope execution_id)) [
      | inl (e, missing) ↦
          let e' = snapshot_for_scope-error state scope execution_id missing in
          same_state _ (
            ap (λ r. r.1)
              (cancel_missing now new_event_id scope execution_id state (rw e' at missing)))
      | inr (snapshot, ok_found) ↦
          let (found, mine) = snapshot_for_scope-found state scope execution_id ok_found in
          let (named, built) = filed execution_id snapshot found in
          rw
            (cancel-outcome now new_event_id aware scope execution_id state snapshot found named
              mine built)
            (cancel_outcome-Keeps (course snapshot.status) snapshot refl found aware)
    ]
  ]

  -- A start under an identifier that no execution has.
  start-Keeps :
      (spec : ExecutionSpec)
      → lookup spec.id state.snapshots ≡ none
      → Keeps state.snapshots (start now new_event_id spec state).1.snapshots
  start-Keeps spec fresh = elim (Bool-cases (is_aware now)) [
    | inr naive ↦ same_state _ (start_naive now new_event_id spec state naive)
    | inl aware ↦
        elim (Option-cases (lookup (index_key now new_event_id spec) state.idempotency_index)) [
          | inl unused ↦ rw (start-new now new_event_id spec state aware unused) (
            insert-IsFiled spec.id (pending_snapshot now spec) state.snapshots filed refl
                (record { numbered = omega arith; planned = refl; timed = aware }),
            insert_new-Advances spec.id (pending_snapshot now spec) state.snapshots fresh,
          )
          | inr (existing, used) ↦
              same_state _ (start_used now new_event_id spec state existing used)
        ]
  ]

-- One operation on the committed state, with whatever clock and identities; a start comes with an
-- identifier that is new.
pub data Step : CommittedRuntimeState → CommittedRuntimeState → Type 0 where
  start_step :
      (now : Datetime) (new_event_id : ℕ → EventId) (spec : ExecutionSpec)
      {before later : CommittedRuntimeState}
      → lookup spec.id before.snapshots ≡ none
      → (start now new_event_id spec before).1 ≡ later
      → Step before later
  cancel_step :
      (now : Datetime) (new_event_id : ℕ → EventId) (scope : MemoryScope)
      (execution_id : ExecutionId) {before later : CommittedRuntimeState}
      → (cancel now new_event_id scope execution_id before).1 ≡ later
      → Step before later

pub data History (first : CommittedRuntimeState) : CommittedRuntimeState → Type 0 where
  unchanged : History first first
  then_step :
      {before later : CommittedRuntimeState}
      → History first before
      → Step before later
      → History first later

Step-Keeps :
    {before later : CommittedRuntimeState}
    → Step before later
    → IsFiled before.snapshots
    → Keeps before.snapshots later.snapshots
Step-Keeps (start_step now new_event_id spec {before = before} fresh e) filed =
    subst (λ (s : CommittedRuntimeState). Keeps before.snapshots s.snapshots) e
      (start-Keeps now new_event_id spec.id before filed spec fresh)
Step-Keeps (cancel_step now new_event_id scope execution_id {before = before} e) filed =
    subst (λ (s : CommittedRuntimeState). Keeps before.snapshots s.snapshots) e
      (cancel-Keeps now new_event_id execution_id before filed scope)

Leads-trans : (s t u : ExecutionStatus) → Leads s t → Leads t u → Leads s u
Leads-trans s t u p here = p
Leads-trans s t u p (next {t = v} q step) = next {t = v} (Leads-trans s t v p q) step

Follows-trans : (a b c : ExecutionSnapshot) → Follows a b → Follows b c → Follows a c
Follows-trans a b c f g = record {
  legal = Leads-trans a.status b.status c.status f.legal g.legal;
  revised = omega arith;
  scoped = g.scoped ∙ f.scoped;
  named = g.named ∙ f.named;
}

Advances-trans : (d e f : Snapshots) → Advances d e → Advances e f → Advances d f
Advances-trans d e f p q id a h =
    let (b, hb, fb) = p id a h in let (c, hc, fc) = q id b hb in (c, hc, Follows-trans a b c fb fc)

-- Over any history of starts and cancellations, by whatever callers, successful or not: an execution that
-- is stored stays stored, under its identifier and in its scope; its status has moved by legal transitions
-- only; its revision has not fallen; and every stored snapshot stands under its own identifier and is one
-- that its constructor accepts.
pub History-Advances :
    {first last : CommittedRuntimeState}
    → History first last
    → IsFiled first.snapshots
    → IsFiled last.snapshots × Advances first.snapshots last.snapshots
History-Advances {first} unchanged filed = (filed, Advances-refl first.snapshots)
History-Advances {first} {last} (then_step {before = before} h step) filed =
    let (filed', advanced) = History-Advances h filed in
    let (filed'', further) = Step-Keeps step filed' in
    (filed'', Advances-trans first.snapshots before.snapshots last.snapshots advanced further)
