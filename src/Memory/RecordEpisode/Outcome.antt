-- ===== src/Memory/RecordEpisode/Outcome.antt =====
-- The handler against the log of episodes: its answer, and the database that it leaves.
use engram_mesh.Common.{
  true, false, none, some, List, [], ◌∷◌, ◌++◌, map, find, nat_eq, ◌==◌, ◌≡◌, refl, arith,
  Option-cases, inl, inr, if◌then◌else◌,
}
use mathlib.Core.List.{append-nil}
use engram_mesh.Common.Result.{Result-cases, Result, ok, err}
use engram_mesh.Kernel.Ids.{MemoryId, TenantId}
use engram_mesh.Kernel.Events.{EventEnvelope}
use engram_mesh.Memory.Episode.{Episode}
use engram_mesh.Memory.Database.{CommittedMemoryState, Database, new_database}
use engram_mesh.Memory.UnitOfWork.{
  AppendResult, begin, idempotency_scope, publish, call, commit, enter, exit,
}
use engram_mesh.Memory.UnitOfWork.Append.{
  IsDistinct, IsDistinct-append, map-append_one, index_entry, find_by_key, append_spec,
  append-refines,
}
use engram_mesh.Memory.Session.{with_unit_of_work}
use engram_mesh.Memory.RecordEpisode.{
  Ports, RecordEpisodeCommand, RecordEpisodeResult, prepare, recorded_event, publish_recorded, body,
  handle,
}
use engram_mesh.Memory.RecordEpisode.Steps.{
  event-envelope, prepare-IsPrepared, check_aggregate-append,
}

-- The subject of an event, and the event that an episode is to have.
abbrev pub subject : EventEnvelope → MemoryId × TenantId
subject event = (event.aggregate_id, event.tenant_id)

abbrev pub owner : Episode → MemoryId × TenantId
owner episode = (episode.id, episode.scope.tenant_id)

-- The index lists the episodes by tenant and key, identifiers are distinct, and the events of the outbox
-- are those of the episodes: one for each, in order, of its tenant.
pub record IsConsistent (state : CommittedMemoryState) : Type 0 where
  pub index : state.idempotency_index ≡ map index_entry state.episodes
  pub distinct : IsDistinct state.episodes
  pub announced : map subject state.events ≡ map owner state.episodes

module _ (ports : Ports) (command : RecordEpisodeCommand) where
  abbrev pub announce : Episode → AppendResult → List EventEnvelope
  announce episode result =
      if result.created
      then recorded_event ports command true episode result.episode_id ∷ []
      else []

  -- The committed state after an accepted append.
  abbrev pub after :
      Episode → AppendResult → List Episode → CommittedMemoryState → CommittedMemoryState
  after episode result log state = record {
    episodes = log;
    idempotency_index = map index_entry log;
    events = state.events ++ announce episode result;
  }

  -- What the handler promises, on the log alone: it raises and leaves the database alone, or it answers
  -- by the log, and commits the log with its index and at most one new event.
  abbrev pub outcome : Result Episode → Database → Result RecordEpisodeResult × Database
  outcome (err e) database = (err e, database)
  outcome (ok episode) database = elim (append_spec episode database.state.episodes) [
    | err e ↦ (err e, database)
    | ok (result, log) ↦ (
      ok (record { episode_id = result.episode_id; created = result.created }),
      record { locked = false; state = after episode result log database.state },
    )
  ]

  module _ (database : Database) (free : database.locked ≡ false)
      (valid : IsConsistent database.state)
      (fresh : find (λ item. item.id == ports.new_memory_id) database.state.episodes ≡ none) where
    prepared :
        (episode : Episode)
        → prepare ports command ≡ ok episode
        → handle ports command database ≡ some (outcome (ok episode) database)
    unfolding handle with_unit_of_work body publish_recorded call commit enter exit publish
        append_spec
    prepared episode e =
        let p = prepare-IsPrepared ports command e in
        elim (Option-cases (find_by_key (idempotency_scope episode) database.state.episodes)) [
          | inl new ↦ ground (
            arith,
            append-refines episode (begin database.state) refl refl valid.index valid.distinct,
            event-envelope ports command episode episode.id p.aware,
            check_aggregate-append (recorded_event ports command true episode episode.id)
                database.state.episodes episode,
          )
          | inr (existing, found) ↦ ground (
            arith,
            append-refines episode (begin database.state) refl refl valid.index valid.distinct,
            append-nil database.state.events,
          )
        ]

    pub handle-outcome :
        handle ports command database ≡ some (outcome (prepare ports command) database)
    unfolding handle
    handle-outcome = elim (Result-cases (prepare ports command)) [
      | inl (e, refused) ↦ ground arith
      | inr (episode, built) ↦ rw built (prepared episode built)
    ]

    outcome-IsConsistent :
        (episode : Episode)
        → prepare ports command ≡ ok episode
        → IsConsistent (outcome (ok episode) database).1.state
          × ((outcome (ok episode) database).1.locked ≡ false)
    unfolding append_spec
    outcome-IsConsistent episode e =
        let p = prepare-IsPrepared ports command e in
        elim (Option-cases (find_by_key (idempotency_scope episode) database.state.episodes)) [
          | inl new ↦ ground (
            arith,
            IsDistinct-append database.state.episodes episode valid.distinct,
            map-append_one owner database.state.episodes episode,
            map-append_one subject database.state.events
                (recorded_event ports command true episode episode.id),
          )
          | inr (existing, found) ↦ ground (arith, append-nil database.state.events)
        ]

    -- In a consistent database that no transaction holds, with a new identifier that no episode has, the
    -- handler always returns. It raises what the preparation or the log demands and leaves the database as
    -- it was, or it answers by the log and commits the log, its index, and an event for a new episode; and
    -- the database that it leaves is consistent and free again.
    pub handle-refines :
        (handle ports command database ≡ some (outcome (prepare ports command) database))
        × IsConsistent (outcome (prepare ports command) database).1.state
        × ((outcome (prepare ports command) database).1.locked ≡ false)
    handle-refines = elim (Result-cases (prepare ports command)) [
      | inl (e, refused) ↦ (handle-outcome, rw refused valid, rw refused free)
      | inr (episode, built) ↦
          let (valid', free') = outcome-IsConsistent episode built in
          (handle-outcome, rw built valid', rw built free')
    ]

-- The databases that a history of requests can leave, from an empty one; each request comes with an
-- identifier that is new.
pub data Recorded : Database → Type 0 where
  start : Recorded new_database
  request :
      (ports : Ports) (command : RecordEpisodeCommand) (answer : Result RecordEpisodeResult)
      {before later : Database}
      → Recorded before
      → find (λ item. item.id == ports.new_memory_id) before.state.episodes ≡ none
      → handle ports command before ≡ some (answer, later)
      → Recorded later

-- After any history of requests from an empty database the lock is free, each episode has exactly one
-- event, with its identifier and tenant and in the same order, no two episodes share an identifier, and
-- the index lists the episodes by tenant and key.
pub Recorded-IsConsistent :
    {database : Database}
    → Recorded database
    → IsConsistent database.state × (database.locked ≡ false)
Recorded-IsConsistent start = ground arith
Recorded-IsConsistent (request ports command answer r fresh h) =
    let (valid, free) = Recorded-IsConsistent r in
    let (e, valid', free') = handle-refines ports command _ free valid fresh in ground arith
