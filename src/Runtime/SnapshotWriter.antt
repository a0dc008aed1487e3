-- ===== src/Runtime/SnapshotWriter.antt =====
-- modules/runtime/adapters/in_memory/snapshot_writer.py: the writer that activities deliver snapshots to.
pub mod Monotonic
use engram_mesh.Common.{Bool, true, false, if◌then◌else◌, none, some, List, [], ◌∷◌, ◌++◌, nat_eq}
use engram_mesh.Common.Dict.{Dict, lookup, insert}
use engram_mesh.Common.Int.{leb_ℤ}
use engram_mesh.Kernel.Ids.{ExecutionId}
use engram_mesh.Runtime.Model.{ExecutionSnapshot}

pub record SnapshotWriter : Type 0 where
  pub snapshots : Dict ExecutionId ExecutionSnapshot
  pub upsert_history : List ExecutionSnapshot

abbrev pub new_snapshot_writer : SnapshotWriter
new_snapshot_writer = record { snapshots = []; upsert_history = [] }

-- `existing is not None and existing.revision >= snapshot.revision`
abbrev pub is_stale : SnapshotWriter → ExecutionSnapshot → Bool
is_stale writer snapshot = elim (lookup snapshot.execution_id writer.snapshots) [
  | none ↦ false
  | some existing ↦ leb_ℤ snapshot.revision existing.revision
]

unfoldable pub upsert_snapshot : SnapshotWriter → ExecutionSnapshot → SnapshotWriter
upsert_snapshot writer snapshot = if is_stale writer snapshot then writer else record {
  snapshots = insert snapshot.execution_id snapshot writer.snapshots;
  upsert_history = writer.upsert_history ++ snapshot ∷ [];
}

-- Deliveries in the order in which they arrive.
unfoldable pub upsert_all : SnapshotWriter → List ExecutionSnapshot → SnapshotWriter
unfolding upsert_snapshot
upsert_all writer [] = writer
upsert_all writer (snapshot ∷ snapshots) = upsert_all (upsert_snapshot writer snapshot) snapshots
