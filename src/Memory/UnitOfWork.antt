-- ===== src/Memory/UnitOfWork.antt =====
-- modules/memory/adapters/in_memory/unit_of_work.py: transactions that copy the committed state,
-- work on the copy, and put it back at `commit`.
pub mod Append
pub mod Stream
use engram_mesh.Common.{
  String, Bool, true, false, not, ◌&&◌, Option, none, some, List, [], ◌∷◌, ◌++◌, find, nat_eq,
  string_eq, pair_eq, ◌==◌, if◌then◌else◌, Eq,
}
use engram_mesh.Common.Dict.{Dict, lookup, insert}
use engram_mesh.Common.Result.{
  Error, Result, ok, err, runtime_error, value_error, episode_idempotency_conflict,
  claims_unavailable, raise_if, ◌>>=◌, ◌>>◌,
}
use engram_mesh.Kernel.Ids.{MemoryId, TenantId}
use engram_mesh.Kernel.Datetime.{same_time}
use engram_mesh.Kernel.Events.{EventEnvelope}
use engram_mesh.Memory.Scope.{MemoryScope, scope_eq}
use engram_mesh.Memory.Episode.{Episode, source_type_eq, sensitivity_eq, retention_class_eq}
use engram_mesh.Memory.Database.{CommittedMemoryState, Database}

unfoldable pub same_episode_request : Episode → Episode → Bool
same_episode_request first second =
    first.scope == second.scope
    && first.actor_id == second.actor_id
    && first.source_type == second.source_type
    && first.content_ref == second.content_ref
    && same_time first.observed_at second.observed_at
    && first.content_hash == second.content_hash
    && first.sensitivity == second.sensitivity
    && first.retention_class == second.retention_class
    && first.consent_basis == second.consent_basis

pub record TransactionState : Type 0 where
  pub active : Bool
  pub committed : Bool
  pub episodes : List Episode
  pub idempotency_index : Dict (TenantId × String) MemoryId
  pub events : List EventEnvelope

abbrev pub begin : CommittedMemoryState → TransactionState
begin committed = record {
  active = true;
  committed = false;
  episodes = committed.episodes;
  idempotency_index = committed.idempotency_index;
  events = committed.events;
}

abbrev pub not_active : Error
not_active = runtime_error "memory transaction is not active"

abbrev pub require_usable : TransactionState → Result (Unit {0})
require_usable state = do
  raise_if (not state.active) not_active
  raise_if state.committed (runtime_error "memory transaction has already been committed")

-- A method of a store works on the transaction's state. It checks before it writes, so that the state
-- is as it was where it raises.
abbrev pub Method : Type 0 → Type 0
Method A = TransactionState → Result (A × TransactionState)

pub record AppendResult : Type 0 where
  pub episode_id : MemoryId
  pub created : Bool

abbrev pub idempotency_scope : Episode → TenantId × String
idempotency_scope episode = (episode.scope.tenant_id, episode.idempotency_key)

-- The branch of `append` for a key that is in the index. `next` without a default ends a coroutine
-- with a RuntimeError where it finds nothing.
unfoldable pub replay : Episode → MemoryId → List Episode → Result AppendResult
replay episode existing_id episodes = elim (find (λ item. item.id == existing_id) episodes) [
  | none ↦ err (runtime_error "coroutine raised StopIteration")
  | some existing_episode ↦ do
    raise_if (not (same_episode_request existing_episode episode)) episode_idempotency_conflict
    ok (record { episode_id = existing_id; created = false })
]

unfoldable pub append : Episode → Method AppendResult
append episode state = do
  require_usable state
  elim (lookup (idempotency_scope episode) state.idempotency_index) [
    | some existing_id ↦ do result ← replay episode existing_id state.episodes; ok (result, state)
    | none ↦ ok (
      record { episode_id = episode.id; created = true },
      record state {
        episodes = state.episodes ++ episode ∷ [];
        idempotency_index = insert (idempotency_scope episode) episode.id state.idempotency_index;
      },
    )
  ]

unfoldable pub get : MemoryScope → MemoryId → Method (Option Episode)
get scope episode_id state = do
  require_usable state
  ok (find (λ episode. episode.id == episode_id && episode.scope == scope) state.episodes, state)

-- The claim store of this adapter: every method raises.
unfoldable pub unavailable : {A : Type 0} → Method A
unavailable state = do require_usable state; err claims_unavailable

abbrev pub episode_recorded : String
episode_recorded = "memory.episode-recorded"

-- The checks of `publish` on an event about an episode.
unfoldable pub check_aggregate : EventEnvelope → List Episode → Result (Unit {0})
check_aggregate event episodes =
    elim (find (λ episode. episode.id == event.aggregate_id) episodes) [
      | none ↦ err (value_error "outbox episode event aggregate is unknown")
      | some aggregate ↦
          raise_if (not (aggregate.scope.tenant_id == event.tenant_id))
            (value_error "outbox event tenant does not match episode tenant")
    ]

unfoldable pub publish : EventEnvelope → Method (Unit {0})
publish event state = do
  require_usable state
  if event.event_type == episode_recorded then check_aggregate event state.episodes else ok tt
  ok (tt, record state { events = state.events ++ event ∷ [] })

-- `entered` is set by the first `__aenter__`; `state` is None before it.
pub record UnitOfWork : Type 0 where
  pub entered : Bool
  pub state : Option TransactionState

abbrev pub new_unit_of_work : UnitOfWork
new_unit_of_work = record { entered = false; state = none }

-- The database and the unit of work that is open on it.
pub record Session : Type 0 where
  pub database : Database
  pub unit_of_work : UnitOfWork

-- What was written stays written when a call raises.
abbrev pub Action : Type 0 → Type 0
Action A = Session → Result A × Session

-- `__aenter__`. None: the lock is held, and the caller waits.
unfoldable pub enter : Session → Option (Result (Unit {0}) × Session)
enter s =
    if s.unit_of_work.entered
    then some (err (runtime_error "memory transaction cannot be entered more than once"), s)
    else if s.database.locked
    then none
    else some (
      ok tt,
      record {
        database = record { locked = true; state = s.database.state };
        unit_of_work = record { entered = true; state = some (begin s.database.state) };
      },
    )

-- `__aexit__`, on both ways out of the body.
unfoldable pub exit : Action (Unit {0})
exit s = elim s.unit_of_work.state [
  | none ↦ (err not_active, s)
  | some state ↦
      if state.active
      then (
        ok tt,
        record {
          database = record { locked = false; state = s.database.state };
          unit_of_work = record {
            entered = s.unit_of_work.entered;
            state = some (record state { active = false });
          };
        },
      )
      else (err not_active, s)
]

-- `unit_of_work.<store>.<method>(…)`: the property checks that the transaction is usable.
unfoldable pub call : {A : Type 0} → Method A → Action A
call method s = elim s.unit_of_work.state [
  | none ↦ (err not_active, s)
  | some state ↦ elim (require_usable state >> method state) [
    | err e ↦ (err e, s)
    | ok (a, state') ↦ (
      ok a,
      record s { unit_of_work = record { entered = s.unit_of_work.entered; state = some state' } },
    )
  ]
]

unfoldable pub commit : Action (Unit {0})
commit s = elim s.unit_of_work.state [
  | none ↦ (err not_active, s)
  | some state ↦ elim (require_usable state) [
    | err e ↦ (err e, s)
    | ok _ ↦ (
      ok tt,
      record {
        database = record {
          locked = s.database.locked;
          state = record {
            episodes = state.episodes;
            idempotency_index = state.idempotency_index;
            events = state.events;
          };
        };
        unit_of_work = record {
          entered = s.unit_of_work.entered;
          state = some (record state { committed = true });
        };
      },
    )
  ]
]
