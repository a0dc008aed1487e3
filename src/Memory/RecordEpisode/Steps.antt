-- ===== src/Memory/RecordEpisode/Steps.antt =====
-- The steps of the handler: what `prepare` gives, and that the event is built and accepted.
use engram_mesh.Common.{
  true, false, none, some, List, [], ◌∷◌, ◌++◌, find, nat_eq, ◌==◌, ◌≡◌, arith, ◌∙◌, find-append,
}
use engram_mesh.Common.Result.{ok}
use engram_mesh.Kernel.Datetime.{is_aware, canonical_utc, require_aware}
use engram_mesh.Kernel.Text.{is_blank}
use engram_mesh.Kernel.Ids.{MemoryId}
use engram_mesh.Kernel.Freeze.{freeze_json_value}
use engram_mesh.Kernel.Events.{EventEnvelope, event_envelope}
use engram_mesh.Memory.Episode.{Episode, make_episode}
use engram_mesh.Memory.UnitOfWork.{check_aggregate}
use engram_mesh.Memory.RecordEpisode.{
  Ports, RecordEpisodeCommand, prepare, recorded_event, episode_payload,
}

module _ (ports : Ports) (command : RecordEpisodeCommand) where
  pub event-envelope :
      (episode : Episode) (episode_id : MemoryId)
      → is_aware episode.ingested_at ≡ true
      → event_envelope (recorded_event ports command false episode episode_id)
        ≡ ok (recorded_event ports command true episode episode_id)
  unfolding event_envelope episode_payload freeze_json_value is_blank
  event-envelope episode episode_id h = ground arith

  -- An episode that `prepare` returns carries the command's fields, the new identifier, and the two
  -- times in UTC.
  pub record IsPrepared (episode : Episode) : Type 0 where
    pub id : episode.id ≡ ports.new_memory_id
    pub scope : episode.scope ≡ command.scope
    pub key : episode.idempotency_key ≡ command.idempotency_key
    pub aware : is_aware episode.ingested_at ≡ true
    pub actor : episode.actor_id ≡ command.actor_id
    pub source : episode.source_type ≡ command.source_type
    pub content : episode.content_ref ≡ command.content_ref
    pub observed : canonical_utc command.observed_at "observed_at" ≡ ok episode.observed_at
    pub hash : episode.content_hash ≡ command.content_hash
    pub sensitivity : episode.sensitivity ≡ command.sensitivity
    pub retention : episode.retention_class ≡ command.retention_class
    pub consent : episode.consent_basis ≡ command.consent_basis

  pub prepare-IsPrepared :
      {episode : Episode} → prepare ports command ≡ ok episode → IsPrepared episode
  unfolding prepare make_episode require_aware
  prepare-IsPrepared h = ground arith

-- Right after the append of a new episode its event passes the checks of `publish`.
pub check_aggregate-append :
    (event : EventEnvelope) (log : List Episode) (episode : Episode)
    → find (λ item. item.id == episode.id) log ≡ none
    → event.aggregate_id ≡ episode.id
    → event.tenant_id ≡ episode.scope.tenant_id
    → check_aggregate event (log ++ episode ∷ []) ≡ ok tt
unfolding check_aggregate
check_aggregate-append event log episode fresh a t =
    let found : find (λ item. item.id == event.aggregate_id) (log ++ episode ∷ []) ≡ some episode =
      rw a (find-append (λ item. item.id == episode.id) log (episode ∷ []) fresh ∙ ground arith) in
    ground (arith, found)
