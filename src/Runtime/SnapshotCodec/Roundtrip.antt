-- ===== src/Runtime/SnapshotCodec/Roundtrip.antt =====
-- modules/runtime/adapters/shared/snapshot_codec.py: `snapshot_from_json` after `snapshot_to_json`.
use engram_mesh.Common.{String, Option, none, some, ◌≡◌, refl, All, arith}
use engram_mesh.Common.Int.{ℤ}
use engram_mesh.Common.Result.{ok}
use engram_mesh.Kernel.Datetime.{isoformat, require_aware}
use engram_mesh.Kernel.Ids.{UuidValue}
use engram_mesh.Kernel.Parse.{TextParsers, parse_optional_uuid_value}
use engram_mesh.Memory.Scope.{MemoryScope, memory_scope}
use engram_mesh.Runtime.Model.{ExecutionSnapshot, execution_snapshot}
use engram_mesh.Runtime.SnapshotCodec.{
  snapshot_to_json, snapshot_from_json, scope_to_payload, scope_from_payload, optional_uuid,
  optional_int, optional_text, workspace_of, plan_revision_of,
}
use engram_mesh.Runtime.SnapshotCodec.Nodes.{
  execution_status_of-value, HasDistinctNodes, Reads, read_nodes-written,
}

abbrev pub ReadsOptional : TextParsers → Option UuidValue → Type 0
ReadsOptional parsers none = Unit
ReadsOptional parsers (some u) = Reads parsers u

-- `UUID` and `fromisoformat` read the texts of the snapshot's own identifiers and time.
pub record IsReadable (parsers : TextParsers) (snapshot : ExecutionSnapshot) : Type 0 where
  pub execution_id : Reads parsers snapshot.execution_id
  pub tenant_id : Reads parsers snapshot.scope.tenant_id
  pub subject_id : Reads parsers snapshot.scope.subject_id
  pub agent_id : ReadsOptional parsers snapshot.scope.agent_id
  pub node_ids : All (λ e. Reads parsers e.0) snapshot.node_statuses
  pub result_ref : ReadsOptional parsers snapshot.result_ref
  pub updated_at : parsers.fromisoformat (isoformat snapshot.updated_at) ≡ ok snapshot.updated_at

-- The snapshot was built by the constructors, and its dict has distinct keys.
pub record IsBuilt (snapshot : ExecutionSnapshot) : Type 0 where
  pub whole : execution_snapshot snapshot ≡ ok snapshot
  pub scope : memory_scope snapshot.scope ≡ ok snapshot.scope
  pub nodes : HasDistinctNodes snapshot.node_statuses

workspace_of-optional_text :
    (workspace_id : Option String) → workspace_of (optional_text workspace_id) ≡ ok workspace_id
workspace_of-optional_text none = refl
workspace_of-optional_text (some s) = refl

plan_revision_of-optional_int : (n : Option ℤ) → plan_revision_of (optional_int n) ≡ ok n
plan_revision_of-optional_int none = refl
plan_revision_of-optional_int (some n) = refl

-- The time of a snapshot that was built is aware.
built-aware :
    (snapshot : ExecutionSnapshot)
    → execution_snapshot snapshot ≡ ok snapshot
    → require_aware snapshot.updated_at "updated_at" ≡ ok tt
unfolding execution_snapshot
built-aware snapshot whole = ground arith

built-cleared :
    (snapshot : ExecutionSnapshot)
    → execution_snapshot snapshot ≡ ok snapshot
    → execution_snapshot (record snapshot { suspension = none; failure = none })
      ≡ ok (record snapshot { suspension = none; failure = none })
unfolding execution_snapshot
built-cleared snapshot whole = ground arith

module _ (parsers : TextParsers) where
  parse_optional_uuid_value-optional_uuid :
      (u : Option UuidValue)
      → ReadsOptional parsers u
      → parse_optional_uuid_value parsers (optional_uuid u) ≡ ok u
  parse_optional_uuid_value-optional_uuid none reads = refl
  parse_optional_uuid_value-optional_uuid (some u) reads = rw reads refl

  scope_from_payload-written :
      (scope : MemoryScope)
      → Reads parsers scope.tenant_id
      → Reads parsers scope.subject_id
      → ReadsOptional parsers scope.agent_id
      → memory_scope scope ≡ ok scope
      → scope_from_payload parsers (scope_to_payload scope) ≡ ok scope
  unfolding scope_from_payload scope_to_payload
  scope_from_payload-written scope tenant subject agent built = rw tenant (
      rw subject (
        rw (parse_optional_uuid_value-optional_uuid scope.agent_id agent)
          (rw (workspace_of-optional_text scope.workspace_id) built)))

  -- A snapshot that the constructors accept, with distinct nodes, and whose identifiers and time the parsers
  -- read back from their texts, comes back from its JSON object without its suspension and failure.
  pub snapshot_from_json-to_json :
      (snapshot : ExecutionSnapshot)
      → IsReadable parsers snapshot
      → IsBuilt snapshot
      → snapshot_from_json parsers (snapshot_to_json snapshot)
        ≡ ok (record snapshot { suspension = none; failure = none })
  unfolding snapshot_from_json snapshot_to_json
  snapshot_from_json-to_json snapshot reads built = rw (execution_status_of-value snapshot.status) (
      rw (read_nodes-written parsers snapshot.node_statuses built.nodes reads.node_ids) (
        rw reads.execution_id (
          rw
            (scope_from_payload-written snapshot.scope reads.tenant_id reads.subject_id
              reads.agent_id built.scope)
            (rw (parse_optional_uuid_value-optional_uuid snapshot.result_ref reads.result_ref) (
              rw reads.updated_at (
                rw (built-aware snapshot built.whole) (
                  rw (plan_revision_of-optional_int snapshot.plan_revision)
                    (built-cleared snapshot built.whole))))))))
