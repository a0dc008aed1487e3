-- ===== src/Runtime/ListExecutions/Examples.antt =====
-- Two executions of a scope, in pages of one.
use engram_mesh.Common.{
  ℕ, ◌+◌, true, String, none, some, List, [], ◌∷◌, Among, length, map, ◌≡◌, ◌↔◌, refl, eqb,
  if◌then◌else◌, ◌==◌, string_eq, nat_eq,
}
use engram_mesh.Common.Int.{pos, ◌+ℤ◌}
use engram_mesh.Common.Keyset.{follow, IsIncreasing}
use engram_mesh.Common.Result.{ok, err, invalid_execution_cursor}
use engram_mesh.Kernel.Datetime.{Datetime, aware}
use engram_mesh.Kernel.TimeKey.{above}
use engram_mesh.Kernel.Cursor.{CursorCodec}
use engram_mesh.Memory.Scope.{MemoryScope, scope_beq}
use engram_mesh.Runtime.Status.{ExecutionStatus}
use engram_mesh.Runtime.Model.{ExecutionSnapshot}
use engram_mesh.Runtime.Database.{CommittedRuntimeState, empty_runtime_state}
use engram_mesh.Runtime.ListExecutions.{
  ListExecutionsQuery, handle, stream, to_item, update_key, values,
}
use engram_mesh.Runtime.ListExecutions.Pages.{rows, fetch, follow-handle_executions}

abbrev at : ℕ → Datetime
at micros = aware (pos micros) (pos 0)

abbrev codec : CursorCodec
codec = record {
  encode = λ time id. ok (if eqb id 7 then "a" else "b");
  decode = λ cursor.
      if cursor == "a"
      then ok (at 5, 7)
      else if cursor == "b"
      then ok (at 9, 8)
      else err invalid_execution_cursor;
}

abbrev scope : MemoryScope
scope = record { tenant_id = 1; subject_id = 2; workspace_id = none; agent_id = none }

abbrev snapshot : ℕ → ℕ → ExecutionSnapshot
snapshot id time = record {
  execution_id = id;
  scope = scope;
  revision = pos 1;
  status = ExecutionStatus.pending;
  plan_revision = none;
  node_statuses = [];
  suspension = none;
  result_ref = none;
  failure = none;
  updated_at = at time;
}

abbrev state : CommittedRuntimeState
state = record empty_runtime_state { snapshots = (7, snapshot 7 5) ∷ (8, snapshot 8 9) ∷ [] }

abbrev query : ListExecutionsQuery
query = record { actor_id = 2; scope = scope; limit = pos 1; cursor = none }

-- The latest update comes first.
first_page : handle codec (λ request. true) query state ≡ ok (to_item (snapshot 8 9) ∷ [], some "b")
unfolding handle stream ◌+ℤ◌ scope_beq
first_page = refl

abbrev cursor_of : ExecutionSnapshot → String
cursor_of s = if eqb s.execution_id 7 then "a" else "b"

follow-handle_executions_example :
    (found : List ExecutionSnapshot) × (follow
        (length (rows codec (λ request. true) query state) + 1)
        (fetch codec (λ request. true) query state)
        none
      ≡ some (ok (map to_item found)))
    × IsIncreasing update_key above found
    × ((s : ExecutionSnapshot)
        → Among s found ↔ Among s (values state.snapshots) × (s.scope ≡ scope))
follow-handle_executions_example =
    follow-handle_executions codec (λ request. true) query state refl 0 refl cursor_of
      (
        record { written = refl; read_back = refl },
        (record { written = refl; read_back = refl }, tt),
      )
      (refl, refl, (refl, refl, tt))
