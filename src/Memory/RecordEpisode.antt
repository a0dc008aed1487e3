-- ===== src/Memory/RecordEpisode.antt =====
-- modules/memory/application/record_episode.py, with its command (contracts.py). The ports are inputs:
-- the authorization is a function of the request, the clock and the identities give one value each.
use engram_mesh.Common.{
  String, Bool, true, false, not, ◌&&◌, Option, none, some, ◌==◌, nat_eq, if◌then◌else◌,
}
use engram_mesh.Common.Int.{pos}
use engram_mesh.Common.Result.{
  Result, ok, err, runtime_error, episode_authorization_denied, raise_if,
}
use engram_mesh.Common.Result
use engram_mesh.Kernel.Text.{require_non_blank}
use engram_mesh.Kernel.Datetime.{Datetime, canonical_utc, require_aware, isoformat}
use engram_mesh.Kernel.Ids.{MemoryId, SubjectId, ArtifactId, CorrelationId, EventId, uuid_text}
use engram_mesh.Kernel.Json.{Value, null, str, mapping, Fields, end, field, text}
use engram_mesh.Kernel.Events.{EventEnvelope, event_envelope}
use engram_mesh.Memory.Scope.{MemoryScope}
use engram_mesh.Memory.Episode.{
  SourceType, Sensitivity, RetentionClass, Episode, make_episode, source_type_value,
  sensitivity_value, retention_class_value,
}
use engram_mesh.Memory.Database.{Database}
use engram_mesh.Memory.UnitOfWork.{
  Action, AppendResult, append, publish, episode_recorded, call, commit,
}
use engram_mesh.Memory.Session.{◌>>=◌, ◌>>◌, lift, with_unit_of_work}
pub mod Steps
pub mod Outcome
pub mod Replay

pub record AuthorizationRequest : Type 0 where
  pub actor_id : SubjectId
  pub scope : MemoryScope
  pub action : String
  pub sensitivity : Sensitivity

pub record Ports : Type 0 where
  pub authorize : AuthorizationRequest → Bool
  pub now : Datetime
  pub new_memory_id : MemoryId
  pub new_event_id : EventId

pub record RecordEpisodeCommand : Type 0 where
  pub correlation_id : CorrelationId
  pub actor_id : SubjectId
  pub scope : MemoryScope
  pub source_type : SourceType
  pub content_ref : ArtifactId
  pub observed_at : Datetime
  pub content_hash : String
  pub idempotency_key : String
  pub sensitivity : Sensitivity
  pub retention_class : RetentionClass
  pub consent_basis : String

-- The constructor of the command.
unfoldable pub make_command : RecordEpisodeCommand → Result RecordEpisodeCommand
make_command command = Result.◌>>◌ (require_aware command.observed_at "observed_at") (
    Result.◌>>◌ (require_non_blank command.content_hash "content_hash") (
      Result.◌>>◌ (require_non_blank command.idempotency_key "idempotency_key")
        (Result.◌>>◌ (require_non_blank command.consent_basis "consent_basis") (ok command))))

-- A text, or None.
abbrev pub optional_str : Option String → Value
optional_str none = null
optional_str (some s) = str s

abbrev pub optional_id : Option SubjectId → Value
optional_id none = null
optional_id (some u) = str (uuid_text u)

-- The payload of the event, as the handler writes it down from the episode that it has built: the
-- episode's fields are the command's and the two canonical times.
unfoldable pub episode_payload : Bool → Episode → MemoryId → Value
episode_payload frozen episode episode_id = mapping frozen (
    field (text "episode_id") (str (uuid_text episode_id)) (
      field (text "scope")
        (mapping frozen (
          field (text "subject_id") (str (uuid_text episode.scope.subject_id)) (
            field (text "workspace_id") (optional_str episode.scope.workspace_id)
              (field (text "agent_id") (optional_id episode.scope.agent_id) end))))
        (field (text "actor_id") (str (uuid_text episode.actor_id)) (
          field (text "source_type") (str (source_type_value episode.source_type)) (
            field (text "content_ref") (str (uuid_text episode.content_ref)) (
              field (text "observed_at") (str (isoformat episode.observed_at)) (
                field (text "ingested_at") (str (isoformat episode.ingested_at)) (
                  field (text "content_hash") (str episode.content_hash) (
                    field (text "idempotency_key") (str episode.idempotency_key) (
                      field (text "sensitivity") (str (sensitivity_value episode.sensitivity)) (
                        field (text "retention_class")
                          (str (retention_class_value episode.retention_class))
                          (field (text "consent_basis") (str episode.consent_basis) end))))))))))))

pub record RecordEpisodeResult : Type 0 where
  pub episode_id : MemoryId
  pub created : Bool

module _ (ports : Ports) (command : RecordEpisodeCommand) where
  -- The handler up to the transaction.
  unfoldable pub prepare : Result Episode
  prepare =
      Result.◌>>◌
        (raise_if
          (not (
            ports.authorize (record {
              actor_id = command.actor_id;
              scope = command.scope;
              action = "record_episode";
              sensitivity = command.sensitivity;
            })))
          episode_authorization_denied)
        (Result.◌>>=◌ (canonical_utc ports.now "clock now") λ ingested_at.
          Result.◌>>=◌ (canonical_utc command.observed_at "observed_at") λ observed_at.
            make_episode (record {
              id = ports.new_memory_id;
              scope = command.scope;
              actor_id = command.actor_id;
              source_type = command.source_type;
              content_ref = command.content_ref;
              observed_at = observed_at;
              ingested_at = ingested_at;
              content_hash = command.content_hash;
              idempotency_key = command.idempotency_key;
              sensitivity = command.sensitivity;
              retention_class = command.retention_class;
              consent_basis = command.consent_basis;
            }))

  -- The event, with its payload as a plain dict (`frozen` is false) or as the envelope keeps it.
  abbrev pub recorded_event : Bool → Episode → MemoryId → EventEnvelope
  recorded_event frozen episode episode_id = record {
    event_id = ports.new_event_id;
    event_type = episode_recorded;
    schema_version = pos 1;
    tenant_id = command.scope.tenant_id;
    aggregate_id = episode_id;
    aggregate_version = pos 1;
    correlation_id = command.correlation_id;
    causation_id = none;
    occurred_at = episode.ingested_at;
    payload = episode_payload frozen episode episode_id;
  }

  unfoldable pub publish_recorded : Episode → AppendResult → Action (Unit {0})
  publish_recorded episode result =
      if result.created
      then (do
        event ← lift (event_envelope (recorded_event false episode result.episode_id))
        call (publish event))
      else lift (ok tt)

  -- The body of the transaction.
  unfoldable pub body : Episode → Action RecordEpisodeResult
  unfolding publish_recorded
  body episode = do
    result ← call (append episode)
    lift (
        raise_if (result.created && not (result.episode_id == episode.id))
          (runtime_error "created episode ID does not match generated episode ID"))
    publish_recorded episode result
    commit
    lift (ok (record { episode_id = result.episode_id; created = result.created }))

  -- `RecordEpisodeHandler.handle`; None where the caller waits for the lock.
  unfoldable pub handle : Database → Option (Result RecordEpisodeResult × Database)
  unfolding prepare body
  handle database = elim prepare [
    | err e ↦ some (err e, database)
    | ok episode ↦ with_unit_of_work (body episode) database
  ]
