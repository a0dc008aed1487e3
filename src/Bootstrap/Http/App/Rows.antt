-- ===== src/Bootstrap/Http/App/Rows.antt =====
-- bootstrap/http/app.py and errors.py: the table of the statuses that requests to record an episode
-- are answered with.
use engram_mesh.Common.{
  ℕ, String, Bool, true, false, ◌&&◌, Option, none, some, List, ltb, nat_eq, string_eq, ◌≡◌,
}
use engram_mesh.Common.Int.{pos, negsuc}
use engram_mesh.Kernel.Datetime.{Datetime, naive, aware, is_aware, instant_of}
use engram_mesh.Kernel.Ids.{TenantId, SubjectId}
use engram_mesh.Memory.Episode.{Episode, source_type_eq, sensitivity_eq, retention_class_eq}
use engram_mesh.Memory.Scope.{scope_eq}
use engram_mesh.Memory.Database.{Database}
use engram_mesh.Memory.UnitOfWork.Append.{find_by_key}
use engram_mesh.Memory.RecordEpisode.{Ports}
use engram_mesh.Bootstrap.Http.Schemas.{RecordEpisodeRequest, RecordEpisodeResponse}
use engram_mesh.Bootstrap.Http.Requests.{scope_fields}
use engram_mesh.Bootstrap.Http.Requests.Episodes.{complaint}
use engram_mesh.Bootstrap.Http.Errors.Table.{code_of}
use engram_mesh.Bootstrap.Http.App.{Answer, answered, refused}

-- The status of an answer, and the code in its body if it is an error.
abbrev pub status : Option (Answer RecordEpisodeResponse × Database) → Option (ℕ × Option String)
status none = none
status (some (answered code body, _)) = some (code, none)
status (some (refused response, _)) = some (response.status_code, code_of response.content)

-- A time whose UTC clock is in the years 1 to 9999.
abbrev pub has_utc : Datetime → Bool
has_utc (naive _) = false
has_utc (aware (pos n) _) = ltb n 315_537_897_600_000_000
has_utc (aware (negsuc _) _) = false

-- A recorded episode is what the request describes; times may differ in their offsets.
pub record IsDescribed (episode : Episode) (tenant_id : TenantId) (actor_id : SubjectId)
    (body : RecordEpisodeRequest) : Type 0 where
  pub scope : episode.scope ≡ scope_fields tenant_id body.scope
  pub actor : episode.actor_id ≡ actor_id
  pub source : episode.source_type ≡ body.source_type
  pub content : episode.content_ref ≡ body.content_ref
  pub aware_time : is_aware episode.observed_at ≡ true
  pub moment : instant_of episode.observed_at ≡ instant_of body.observed_at
  pub hash : episode.content_hash ≡ body.content_hash
  pub sensitivity : episode.sensitivity ≡ body.sensitivity
  pub retention : episode.retention_class ≡ body.retention_class
  pub consent : episode.consent_basis ≡ body.consent_basis

module _ (ports : Ports) (log : List Episode) (tenant_id : TenantId) (actor_id : SubjectId)
    (body : RecordEpisodeRequest) where
  abbrev pub may_record : Bool
  may_record = ports.authorize (record {
    actor_id = actor_id;
    scope = scope_fields tenant_id body.scope;
    action = "record_episode";
    sensitivity = body.sensitivity;
  })

  abbrev pub recorded : Option Episode
  recorded = find_by_key (tenant_id, body.idempotency_key) log

  -- The rows of the table: which request gets which status and code.
  pub data IsRow : ℕ × Option String → Type 0 where
    malformed :
        (message : String) → complaint body ≡ some message → IsRow (500, some "internal_error")
    denied :
        complaint body ≡ none
        → may_record ≡ false
        → IsRow (403, some "episode_authorization_denied")
    out_of_range :
        complaint body ≡ none
        → may_record ≡ true
        → has_utc ports.now && has_utc body.observed_at ≡ false
        → IsRow (500, some "internal_error")
    created :
        complaint body ≡ none
        → may_record ≡ true
        → has_utc ports.now && has_utc body.observed_at ≡ true
        → recorded ≡ none
        → IsRow (201, none)
    replayed :
        complaint body ≡ none
        → may_record ≡ true
        → has_utc ports.now && has_utc body.observed_at ≡ true
        → (existing : Episode) → recorded ≡ some existing
        → IsDescribed existing tenant_id actor_id body
        → IsRow (200, none)
    conflicting :
        complaint body ≡ none
        → may_record ≡ true
        → has_utc ports.now && has_utc body.observed_at ≡ true
        → (existing : Episode) → recorded ≡ some existing
        → (IsDescribed existing tenant_id actor_id body → ⊥)
        → IsRow (409, some "episode_idempotency_conflict")
