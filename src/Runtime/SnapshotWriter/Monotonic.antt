-- ===== src/Runtime/SnapshotWriter/Monotonic.antt =====
-- The snapshots that remain after any deliveries.
use engram_mesh.Common.{
  Among, Option, some, List, [], ◌∷◌, ◌≡◌, sym, ◌∙◌, ◌⊎◌, ap, inl, inr, arith, nat_eq, eqb, eqb_iff,
  Bool-cases, Option-cases, All,
}
use engram_mesh.Common.Dict.{lookup, lookup-insert, lookup-insert_self}
use engram_mesh.Common.Int.{◌≤ℤ◌}
use engram_mesh.Kernel.Ids.{ExecutionId}
use engram_mesh.Runtime.Model.{ExecutionSnapshot}
use engram_mesh.Runtime.SnapshotWriter.{
  SnapshotWriter, new_snapshot_writer, is_stale, upsert_snapshot, upsert_all,
}

abbrev pub stored : SnapshotWriter → ExecutionId → Option ExecutionSnapshot
stored writer id = lookup id writer.snapshots

-- The snapshot of an execution is there, at this revision or a later one.
abbrev pub HasReached : SnapshotWriter → ExecutionSnapshot → Type 0
HasReached writer snapshot =
    (kept : ExecutionSnapshot) × (stored writer snapshot.execution_id ≡ some kept)
    × (snapshot.revision ≤ℤ kept.revision)

upsert_snapshot-HasReached :
    (writer : SnapshotWriter) (snapshot : ExecutionSnapshot)
    → HasReached (upsert_snapshot writer snapshot) snapshot
unfolding upsert_snapshot
upsert_snapshot-HasReached writer snapshot = elim (Bool-cases (is_stale writer snapshot)) [
  | inl stale ↦ elim (Option-cases (stored writer snapshot.execution_id)) [
    | inl missing ↦ absurd (ground arith)
    | inr (kept, is) ↦ (kept, ground arith, ground arith)
  ]
  | inr new ↦ (
    snapshot,
    (let self = lookup-insert_self snapshot.execution_id snapshot writer.snapshots in ground arith),
    omega arith,
  )
]

HasReached-upsert_snapshot :
    (writer : SnapshotWriter) (old snapshot : ExecutionSnapshot)
    → HasReached writer old
    → HasReached (upsert_snapshot writer snapshot) old
unfolding upsert_snapshot
HasReached-upsert_snapshot writer old snapshot (kept, is, le) =
    let step = lookup-insert old.execution_id snapshot.execution_id snapshot writer.snapshots in
    elim (Bool-cases (is_stale writer snapshot)) [
      | inl stale ↦ (kept, ground arith, le)
      | inr new ↦ elim (Bool-cases (eqb old.execution_id snapshot.execution_id)) [
        | inl same ↦
            let is' : stored writer snapshot.execution_id ≡ some kept =
              ap (stored writer) (sym ((eqb_iff old.execution_id snapshot.execution_id).0 same))
              ∙ is in
            (snapshot, ground arith, ground arith)
        | inr other ↦ (kept, ground arith, le)
      ]
    ]

HasReached-upsert_all :
    (writer : SnapshotWriter) (old : ExecutionSnapshot) (snapshots : List ExecutionSnapshot)
    → HasReached writer old
    → HasReached (upsert_all writer snapshots) old
unfolding upsert_all
HasReached-upsert_all writer old [] reached = reached
HasReached-upsert_all writer old (snapshot ∷ snapshots) reached =
    HasReached-upsert_all (upsert_snapshot writer snapshot) old snapshots
      (HasReached-upsert_snapshot writer old snapshot reached)

upsert_all-HasReached :
    (writer : SnapshotWriter) (snapshots : List ExecutionSnapshot)
    → All (HasReached (upsert_all writer snapshots)) snapshots
unfolding upsert_all
upsert_all-HasReached writer [] = tt
upsert_all-HasReached writer (snapshot ∷ snapshots) = (
  HasReached-upsert_all (upsert_snapshot writer snapshot) snapshot snapshots
      (upsert_snapshot-HasReached writer snapshot),
  upsert_all-HasReached (upsert_snapshot writer snapshot) snapshots,
)

stored-upsert_snapshot :
    (writer : SnapshotWriter) (snapshot : ExecutionSnapshot) (id : ExecutionId)
    (kept : ExecutionSnapshot)
    → stored (upsert_snapshot writer snapshot) id ≡ some kept
    → (stored writer id ≡ some kept) ⊎ (kept.execution_id ≡ id) × (kept ≡ snapshot)
unfolding upsert_snapshot
stored-upsert_snapshot writer snapshot id kept is =
    let step = lookup-insert id snapshot.execution_id snapshot writer.snapshots in
    elim (Bool-cases (is_stale writer snapshot)) [
      | inl stale ↦ inl (ground arith)
      | inr new ↦ elim (Bool-cases (eqb id snapshot.execution_id)) [
        | inr other ↦ inl (ground arith)
        | inl same ↦
            let e : kept ≡ snapshot = ground arith in
            inr (ap (λ s. s.execution_id) e ∙ sym ((eqb_iff id snapshot.execution_id).0 same), e)
      ]
    ]

stored-upsert_all :
    (writer : SnapshotWriter) (snapshots : List ExecutionSnapshot) (id : ExecutionId)
    (kept : ExecutionSnapshot)
    → stored (upsert_all writer snapshots) id ≡ some kept
    → (stored writer id ≡ some kept) ⊎ (kept.execution_id ≡ id) × Among kept snapshots
unfolding upsert_all
stored-upsert_all writer [] id kept is = inl is
stored-upsert_all writer (snapshot ∷ snapshots) id kept is =
    elim (stored-upsert_all (upsert_snapshot writer snapshot) snapshots id kept is) [
      | inr (same, among) ↦ inr (same, inr among)
      | inl before ↦ elim (stored-upsert_snapshot writer snapshot id kept before) [
        | inl older ↦ inl older
        | inr (same, now) ↦ inr (same, inl now)
      ]
    ]

-- Whatever snapshots are delivered to a new writer, in whatever order and however often: each delivered
-- snapshot's execution is stored at its revision or a later one, and what is stored for an execution is
-- one of the delivered snapshots of that execution.
pub upsert_all-newest :
    (snapshots : List ExecutionSnapshot)
    → All (HasReached (upsert_all new_snapshot_writer snapshots)) snapshots
      × ((id : ExecutionId) (kept : ExecutionSnapshot)
          → stored (upsert_all new_snapshot_writer snapshots) id ≡ some kept
          → (kept.execution_id ≡ id) × Among kept snapshots)
upsert_all-newest snapshots = (
  upsert_all-HasReached new_snapshot_writer snapshots,
  λ id kept is. elim (stored-upsert_all new_snapshot_writer snapshots id kept is) [
    | inl before ↦ absurd (ground arith)
    | inr newest ↦ newest
  ],
)
