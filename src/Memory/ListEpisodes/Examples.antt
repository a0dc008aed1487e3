-- ===== src/Memory/ListEpisodes/Examples.antt =====
-- Three episodes, of which two are of the scope, in pages of one.
use engram_mesh.Common.{
  ℕ, ◌+◌, true, false, String, none, some, List, [], ◌∷◌, Among, length, ◌≡◌, ◌↔◌, refl, eqb,
  if◌then◌else◌, ◌==◌, string_eq,
}
use engram_mesh.Common.Int.{pos, ◌+ℤ◌}
use engram_mesh.Common.Keyset.{follow, IsIncreasing}
use engram_mesh.Common.Result.{ok, err, invalid_episode_cursor}
use engram_mesh.Kernel.Datetime.{Datetime, aware}
use engram_mesh.Kernel.TimeKey.{below}
use engram_mesh.Kernel.Cursor.{CursorCodec}
use engram_mesh.Memory.Scope.{MemoryScope, scope_beq}
use engram_mesh.Memory.Episode.{Episode, user, internal, standard}
use engram_mesh.Memory.Query.{ListQuery}
use engram_mesh.Memory.Database.{Database}
use engram_mesh.Memory.UnitOfWork.{call, enter, exit}
use engram_mesh.Memory.UnitOfWork.Stream.{ingestion_key, stream}
use engram_mesh.Memory.Session.{with_unit_of_work}
use engram_mesh.Memory.ListEpisodes.{handle}
use engram_mesh.Memory.ListEpisodes.Pages.{rows, fetch, follow-handle}

abbrev at : ℕ → Datetime
at micros = aware (pos micros) (pos 0)

-- Its cursors are one letter long.
abbrev codec : CursorCodec
codec = record {
  encode = λ time id. ok (if eqb id 10 then "a" else if eqb id 11 then "b" else "c");
  decode = λ cursor.
      if cursor == "a"
      then ok (at 5, 10)
      else if cursor == "b"
      then ok (at 3, 11)
      else if cursor == "c"
      then ok (at 4, 12)
      else err invalid_episode_cursor;
}

abbrev scope : ℕ → MemoryScope
scope tenant = record { tenant_id = tenant; subject_id = 2; workspace_id = none; agent_id = none }

abbrev episode : ℕ → ℕ → ℕ → Episode
episode tenant id time = record {
  id = id;
  scope = scope tenant;
  actor_id = 2;
  source_type = user;
  content_ref = 4;
  observed_at = at 1;
  ingested_at = at time;
  content_hash = "sha256:0";
  idempotency_key = "k";
  sensitivity = internal;
  retention_class = standard;
  consent_basis = "contract";
}

abbrev database : Database
database = record {
  locked = false;
  state = record {
    episodes = episode 1 10 5 ∷ episode 1 11 3 ∷ episode 9 12 4 ∷ [];
    idempotency_index = [];
    events = [];
  };
}

abbrev query : ListQuery
query = record { actor_id = 2; scope = scope 1; limit = pos 1; cursor = none }

-- The first page holds the episode that was ingested first.
first_page :
    handle codec (λ request. true) query database
    ≡ some (ok (episode 1 11 3 ∷ [], some "b"), database)
unfolding handle with_unit_of_work call enter exit stream ◌+ℤ◌ scope_beq
first_page = refl

abbrev cursor_of : Episode → String
cursor_of e = if eqb e.id 10 then "a" else if eqb e.id 11 then "b" else "c"

follow-handle_example :
    (found : List Episode) × (follow
        (length (rows codec (λ request. true) query database) + 1)
        (fetch codec (λ request. true) query database)
        none
      ≡ some (ok found))
    × IsIncreasing ingestion_key below found
    × ((e : Episode) → Among e found ↔ Among e database.state.episodes × (e.scope ≡ scope 1))
follow-handle_example =
    follow-handle codec (λ request. true) query database refl refl 0 refl cursor_of
      (
        record { written = refl; read_back = refl },
        (
          record { written = refl; read_back = refl },
          (record { written = refl; read_back = refl }, tt),
        ),
      )
      (refl, (refl, (refl, tt)))
