-- ===== src/Memory/Examples.antt =====
-- A first request, the same request again, and the theorems at these inputs.
use engram_mesh.Common.{Among, true, false, none, some, [], ◌∷◌, ◌≡◌, subst, ◌≢◌, ◌↔◌, refl, nat_eq}
use engram_mesh.Common.Int.{pos, negsuc}
use engram_mesh.Common.Result.{Result, ok, err, episode_idempotency_conflict}
use engram_mesh.Kernel.Text.{is_blank, require_non_blank}
use engram_mesh.Kernel.Datetime.{Datetime, aware, canonical_utc}
use engram_mesh.Kernel.Json.{finite}
use engram_mesh.Memory.Scope.{MemoryScope, scope_beq}
use engram_mesh.Memory.Episode.{Episode, user, internal, standard, make_episode}
use engram_mesh.Memory.Claim.{Claim, extracted, proposed, make_claim}
use engram_mesh.Memory.Claim.Laws.{IsInterval, IsConfidence, make_claim_iff}
use engram_mesh.Memory.Database.{Database, new_database}
use engram_mesh.Memory.UnitOfWork.{begin, append, same_episode_request}
use engram_mesh.Memory.UnitOfWork.Append.{append_spec, on_log, append-refines}
use engram_mesh.Memory.RecordEpisode.{
  Ports, RecordEpisodeCommand, RecordEpisodeResult, prepare, handle, recorded_event,
}
use engram_mesh.Memory.RecordEpisode.Outcome.{
  IsConsistent, outcome, handle-refines, Recorded, start, request, Recorded-IsConsistent,
}
use engram_mesh.Memory.GetEpisode.{GetEpisodeQuery, handle as get_handle}
use engram_mesh.Memory.GetEpisode.Reads.{read_answer, handle-reads}
use engram_mesh.Memory.RecordEpisode.Replay.{handle-replay}

abbrev scope : MemoryScope
scope = record { tenant_id = 1; subject_id = 2; workspace_id = some "w"; agent_id = none }

-- One hour east of Greenwich.
abbrev observed : Datetime
observed = aware (pos 63_745_056_000_000_000) (pos 3_600_000_000)

abbrev ports : Ports
ports = record {
  authorize = λ request. true;
  now = aware (pos 63_745_056_100_000_000) (negsuc 3_599_999_999);
  new_memory_id = 10;
  new_event_id = 20;
}

abbrev later_ports : Ports
later_ports = record ports { new_memory_id = 11; new_event_id = 21 }

abbrev command : RecordEpisodeCommand
command = record {
  correlation_id = 3;
  actor_id = 2;
  scope = scope;
  source_type = user;
  content_ref = 4;
  observed_at = observed;
  content_hash = "sha256:0";
  idempotency_key = "k";
  sensitivity = internal;
  retention_class = standard;
  consent_basis = "contract";
}

abbrev episode : Episode
episode = record {
  id = 10;
  scope = scope;
  actor_id = 2;
  source_type = user;
  content_ref = 4;
  observed_at = aware (pos 63_745_056_000_000_000) (pos 0);
  ingested_at = aware (pos 63_745_056_100_000_000) (pos 0);
  content_hash = "sha256:0";
  idempotency_key = "k";
  sensitivity = internal;
  retention_class = standard;
  consent_basis = "contract";
}

abbrev created : RecordEpisodeResult
created = record { episode_id = 10; created = true }

abbrev first_database : Database
first_database = record {
  locked = false;
  state = record {
    episodes = episode ∷ [];
    idempotency_index = ((1, "k"), 10) ∷ [];
    events = recorded_event ports command true episode 10 ∷ [];
  };
}

prepared : prepare ports command ≡ ok episode
unfolding prepare make_episode canonical_utc require_non_blank is_blank
prepared = refl

prepared_again : prepare later_ports command ≡ ok (record episode { id = 11 })
unfolding prepare make_episode canonical_utc require_non_blank is_blank
prepared_again = refl

empty_IsConsistent : IsConsistent new_database.state
empty_IsConsistent = record { index = refl; distinct = tt; announced = refl }

first_request : handle ports command new_database ≡ some (ok created, first_database)
unfolding append_spec
first_request =
    subst
      (λ (r : Result Episode).
        handle ports command new_database ≡ some (outcome ports command r new_database))
      prepared (handle-refines ports command new_database refl empty_IsConsistent refl).0

handle-refines_example :
    (handle ports command new_database
      ≡ some (outcome ports command (prepare ports command) new_database))
    × IsConsistent (outcome ports command (prepare ports command) new_database).1.state
    × ((outcome ports command (prepare ports command) new_database).1.locked ≡ false)
handle-refines_example = handle-refines ports command new_database refl empty_IsConsistent refl

first_Recorded : Recorded first_database
first_Recorded = request ports command (ok created) start refl first_request

Recorded-IsConsistent_example : IsConsistent first_database.state × (first_database.locked ≡ false)
Recorded-IsConsistent_example = Recorded-IsConsistent first_Recorded

handle-replay_example :
    handle later_ports command first_database
    ≡ some (ok (record { episode_id = 10; created = false }), first_database)
handle-replay_example =
    handle-replay ports later_ports command new_database refl empty_IsConsistent refl refl
      first_request prepared_again

append-refines_example :
    append (record episode { id = 11 }) (begin first_database.state)
    ≡ on_log (append_spec (record episode { id = 11 }) (episode ∷ [])) (begin first_database.state)
append-refines_example =
    append-refines (record episode { id = 11 }) (begin first_database.state) refl refl refl
      (refl, tt)

-- What the log answers to an episode of another content under the same key.
append_conflict :
    append_spec (record episode { content_hash = "sha256:1" }) (episode ∷ [])
    ≡ err episode_idempotency_conflict
unfolding append_spec same_episode_request scope_beq
append_conflict = refl

abbrev claim : Claim
claim = record {
  id = 0;
  scope = scope;
  subject = "s";
  predicate = "observed_content_hash";
  object_value = "sha256:0";
  polarity = true;
  epistemic_kind = extracted;
  confidence = finite (pos 5);
  valid_from = observed;
  valid_to = some (aware (pos 63_745_056_000_000_001) (pos 0));
  recorded_from = observed;
  recorded_to = none;
  status = proposed;
  evidence =
      record {
        episode_id = 10;
        source_span = "metadata";
        extractor_version = "1";
        model_ref = none;
        prompt_version = none;
      }
      ∷ [];
}

make_claim_iff_example : (make_claim claim ≡ ok claim) ↔ (
    IsInterval claim.valid_from claim.valid_to
    × IsInterval claim.recorded_from claim.recorded_to
    × IsConfidence claim.confidence
    × (claim.evidence ≢ []))
make_claim_iff_example = make_claim_iff claim

abbrev read_query : GetEpisodeQuery
read_query = record { actor_id = 2; scope = scope; episode_id = 10 }

handle-reads_example :
    (get_handle (λ request. true) read_query first_database
      ≡ some (read_answer (λ request. true) read_query first_database, first_database))
    × ((found : Episode)
        → (read_answer (λ request. true) read_query first_database ≡ ok found) ↔ (
            (true ≡ true)
            × Among found first_database.state.episodes
            × (found.id ≡ 10)
            × (found.scope ≡ scope)))
handle-reads_example = handle-reads (λ request. true) read_query first_database refl (refl, tt)
