-- ===== src/Memory/Database.antt =====
-- modules/memory/adapters/in_memory/database.py: the committed state and its lock.
use engram_mesh.Common.{String, Bool, false, List, []}
use engram_mesh.Common.Dict.{Dict}
use engram_mesh.Kernel.Ids.{MemoryId, TenantId}
use engram_mesh.Kernel.Events.{EventEnvelope}
use engram_mesh.Memory.Episode.{Episode}

pub record CommittedMemoryState : Type 0 where
  pub episodes : List Episode
  pub idempotency_index : Dict (TenantId × String) MemoryId
  pub events : List EventEnvelope

abbrev pub empty_state : CommittedMemoryState
empty_state = record { episodes = []; idempotency_index = []; events = [] }

-- `locked` is the state of the `asyncio.Lock`.
pub record Database : Type 0 where
  pub locked : Bool
  pub state : CommittedMemoryState

abbrev pub new_database : Database
new_database = record { locked = false; state = empty_state }
