-- ===== src/Memory/GetEpisode.antt =====
-- modules/memory/application/get_episode.py over the in-memory adapter, with its query (contracts.py).
pub mod Reads
use engram_mesh.Common.{Bool, not, String, Option, none, some, if◌then◌else◌}
use engram_mesh.Common.Result.{
  Result, ok, err, episode_read_authorization_denied, episode_not_found,
}
use engram_mesh.Kernel.Ids.{MemoryId, SubjectId}
use engram_mesh.Memory.Scope.{MemoryScope}
use engram_mesh.Memory.Episode.{Episode, internal}
use engram_mesh.Memory.Database.{Database}
use engram_mesh.Memory.UnitOfWork.{get, call}
use engram_mesh.Memory.Session.{with_unit_of_work}
use engram_mesh.Memory.RecordEpisode.{AuthorizationRequest}

pub record GetEpisodeQuery : Type 0 where
  pub actor_id : SubjectId
  pub scope : MemoryScope
  pub episode_id : MemoryId

abbrev pub read_request : GetEpisodeQuery → AuthorizationRequest
read_request query = record {
  actor_id = query.actor_id;
  scope = query.scope;
  action = "read_episode";
  sensitivity = internal;
}

-- None where the transaction waits for the lock.
unfoldable pub handle :
    (AuthorizationRequest → Bool) → GetEpisodeQuery → Database → Option (Result Episode × Database)
handle authorize query database =
    if not (authorize (read_request query))
    then some (err episode_read_authorization_denied, database)
    else elim (with_unit_of_work (call (get query.scope query.episode_id)) database) [
      | none ↦ none
      | some (err e, database') ↦ some (err e, database')
      | some (ok none, database') ↦ some (err episode_not_found, database')
      | some (ok (some episode), database') ↦ some (ok episode, database')
    ]
