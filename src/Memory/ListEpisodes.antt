-- ===== src/Memory/ListEpisodes.antt =====
-- modules/memory/application/list_episodes.py over the in-memory adapter.
pub mod Pages
mod Examples
use engram_mesh.Common.{Bool, not, String, Option, none, some, List, if◌then◌else◌}
use engram_mesh.Common.Int.{ℤ, pos, ◌+ℤ◌}
use engram_mesh.Common.Slice.{page}
use engram_mesh.Common.Result.{Result, ok, err, episode_read_authorization_denied}
use engram_mesh.Kernel.Cursor.{CursorCodec}
use engram_mesh.Memory.Episode.{Episode, internal}
use engram_mesh.Memory.Query.{ListQuery}
use engram_mesh.Memory.Database.{Database}
use engram_mesh.Memory.UnitOfWork.{call}
use engram_mesh.Memory.UnitOfWork.Stream.{stream}
use engram_mesh.Memory.Session.{with_unit_of_work}
use engram_mesh.Memory.RecordEpisode.{AuthorizationRequest}

abbrev pub list_request : ListQuery → AuthorizationRequest
list_request query = record {
  actor_id = query.actor_id;
  scope = query.scope;
  action = "read_episode";
  sensitivity = internal;
}

-- Items and the next cursor; None where the transaction waits for the lock.
unfoldable pub handle :
    CursorCodec
    → (AuthorizationRequest → Bool)
    → ListQuery
    → Database
    → Option (Result (List Episode × Option String) × Database)
handle codec authorize query database =
    if not (authorize (list_request query))
    then some (err episode_read_authorization_denied, database)
    else elim (with_unit_of_work
        (call (stream codec query.scope (some (query.limit +ℤ pos 1)) query.cursor)) database) [
          | none ↦ none
          | some (err e, database') ↦ some (err e, database')
          | some (ok rows, database') ↦
              some (page (λ e. codec.encode e.ingested_at e.id) query.limit rows, database')
        ]
