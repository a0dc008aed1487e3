-- ===== src/Runtime/SnapshotCodec/Examples.antt =====
-- A snapshot as JSON, and the round trip there.
use engram_mesh.Common.{
  String, eq_refl, [], ◌∷◌, none, some, ◌≡◌, refl, ◌==◌, string_eq, if◌then◌else◌,
}
use engram_mesh.Common.Int.{pos}
use engram_mesh.Common.Result.{ok, err, value_error}
use engram_mesh.Kernel.Datetime.{aware, isoformat, require_aware}
use engram_mesh.Kernel.Ids.{uuid_text}
use engram_mesh.Kernel.Text.{digits_of, require_non_blank, is_blank}
use engram_mesh.Memory.Scope.{memory_scope}
use engram_mesh.Kernel.Parse.{TextParsers}
use engram_mesh.Runtime.Status.{ExecutionStatus, NodeStatus}
use engram_mesh.Runtime.Model.{ExecutionSnapshot, execution_snapshot}
use engram_mesh.Runtime.SnapshotCodec.{snapshot_to_json, snapshot_from_json}
use engram_mesh.Runtime.SnapshotCodec.Roundtrip.{IsReadable, IsBuilt, snapshot_from_json-to_json}

abbrev clock_text : String
clock_text = isoformat (aware (pos 63_745_056_000_000_000) (pos 0))

-- Parsers that know a few texts.
abbrev parsers : TextParsers
parsers = record {
  uuid = λ s.
      if s == uuid_text 1
      then ok 1
      else if s == uuid_text 2
      then ok 2
      else if s == uuid_text 7
      then ok 7
      else if s == uuid_text 8
      then ok 8
      else err (value_error "badly formed hexadecimal UUID string");
  fromisoformat = λ s.
      if s == clock_text
      then ok (aware (pos 63_745_056_000_000_000) (pos 0))
      else err (value_error "Invalid isoformat string");
}

abbrev running : ExecutionSnapshot
running = record {
  execution_id = 7;
  scope = record { tenant_id = 1; subject_id = 2; workspace_id = some "w"; agent_id = some 8 };
  revision = pos 3;
  status = ExecutionStatus.running;
  plan_revision = some (pos 1);
  node_statuses = (1, NodeStatus.succeeded) ∷ (2, NodeStatus.running) ∷ [];
  suspension = none;
  result_ref = none;
  failure = none;
  updated_at = aware (pos 63_745_056_000_000_000) (pos 0);
}

running-IsReadable : IsReadable parsers running
unfolding uuid_text digits_of
running-IsReadable = record {
  execution_id = refl;
  tenant_id = refl;
  subject_id = refl;
  agent_id = refl;
  node_ids = (refl, (refl, tt));
  result_ref = tt;
  updated_at = rw (eq_refl clock_text) refl;
}

running-IsBuilt : IsBuilt running
unfolding execution_snapshot memory_scope require_aware require_non_blank is_blank
running-IsBuilt = record { whole = refl; scope = refl; nodes = ((refl, tt), (tt, tt)) }

snapshot_from_json-to_json_example :
    snapshot_from_json parsers (snapshot_to_json running) ≡ ok running
snapshot_from_json-to_json_example =
    snapshot_from_json-to_json parsers running running-IsReadable running-IsBuilt
