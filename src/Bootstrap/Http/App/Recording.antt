-- ===== src/Bootstrap/Http/App/Recording.antt =====
-- bootstrap/http/app.py: the route that records an episode, from the headers to the store.
use mathlib.Core.List.{append-nil}
use engram_mesh.Common.{
  true, false, none, some, [], ◌∷◌, ◌++◌, find, ◌≡◌, refl, ◌∙◌, ap, ◌==◌, nat_eq, ◌⊎◌, inl, inr,
  Option-cases, Bool-cases, arith,
}
use engram_mesh.Common.Result.{Result, ok, Result-cases, episode_idempotency_conflict}
use engram_mesh.Kernel.Ids.{CorrelationId, MemoryId, uuid_text}
use engram_mesh.Kernel.Parse.{TextParsers}
use engram_mesh.Memory.Episode.{Episode}
use engram_mesh.Memory.Database.{Database}
use engram_mesh.Memory.UnitOfWork.{idempotency_scope, same_episode_request}
use engram_mesh.Memory.UnitOfWork.Append.{find_by_key, append_spec}
use engram_mesh.Memory.RecordEpisode.{Ports, RecordEpisodeCommand, prepare}
use engram_mesh.Memory.RecordEpisode.Steps.{prepare-IsPrepared}
use engram_mesh.Memory.RecordEpisode.Outcome.{IsConsistent, after, handle-outcome}
use engram_mesh.Bootstrap.Auth.{AuthSettings}
use engram_mesh.Bootstrap.Http.Schemas.{RecordEpisodeRequest, RecordEpisodeResponse}
use engram_mesh.Bootstrap.Http.Responses.{to_response}
use engram_mesh.Bootstrap.Http.Errors.{JsonResponse, handle_exception}
use engram_mesh.Bootstrap.Http.App.{
  Head, Answer, answered, refused, record_episode_command, record_episode,
}
use engram_mesh.Bootstrap.Http.App.Identity.{IsFrom, record_command-IsFrom}

-- The request is refused, and the database is as it was.
pub record IsRefusal (database : Database) (answer : Answer RecordEpisodeResponse)
    (later : Database) : Type 0 where
  pub response : JsonResponse
  pub answer_is : answer ≡ refused response
  pub kept : later ≡ database

-- The request is known: it is answered 200, and the episodes and events are as they were.
pub record IsReplay (database : Database) (answer : Answer RecordEpisodeResponse) (later : Database)
    : Type 0 where
  pub episode_id : MemoryId
  pub answer_is :
      answer ≡ answered 200 (record { episode_id = uuid_text episode_id; created = false })
  pub episodes : later.state.episodes ≡ database.state.episodes
  pub events : later.state.events ≡ database.state.events

-- The request is new: it is answered 201 with the new identifier, and its episode joins the log.
pub record IsCreation (episode : Episode) (database : Database)
    (answer : Answer RecordEpisodeResponse) (later : Database) : Type 0 where
  pub answer_is :
      answer ≡ answered 201 (record { episode_id = uuid_text episode.id; created = true })
  pub episodes : later.state.episodes ≡ database.state.episodes ++ episode ∷ []

module _ (ports : Ports) (database : Database) (free : database.locked ≡ false)
    (valid : IsConsistent database.state)
    (fresh : find (λ item. item.id == ports.new_memory_id) database.state.episodes ≡ none) where
  -- The route's way with a command, if each episode that it may add has the property.
  abbrev pub Course : (Episode → Type 0) → Result RecordEpisodeCommand → Type 0
  Course Holds command =
      (answer : Answer RecordEpisodeResponse) × (later : Database) × (record_episode ports command
          database
        ≡ some (answer, later))
      × (IsRefusal database answer later
          ⊎ IsReplay database answer later
          ⊎ ((episode : Episode) × Holds episode × IsCreation episode database answer later))

  built_course :
      (Holds : Episode → Type 0) (command : RecordEpisodeCommand) (episode : Episode)
      → prepare ports command ≡ ok episode
      → Holds episode
      → Course Holds (ok command)
  unfolding record_episode to_response append_spec
  built_course Holds command episode built holds =
      let handled = handle-outcome ports command database free valid fresh in
      elim (Option-cases (find_by_key (idempotency_scope episode) database.state.episodes)) [
        | inl new ↦ (
          answered 201 (record { episode_id = uuid_text episode.id; created = true }),
          record {
            locked = false;
            state =
                after ports command episode (record { episode_id = episode.id; created = true })
                  (database.state.episodes ++ episode ∷ []) database.state;
          },
          ground (arith, handled),
          inr (inr (episode, holds, record { answer_is = refl; episodes = refl })),
        )
        | inr (existing, known) ↦ elim (Bool-cases (same_episode_request existing episode)) [
          | inl same ↦ (
            answered 200 (record { episode_id = uuid_text existing.id; created = false }),
            record {
              locked = false;
              state =
                  after ports command episode (record { episode_id = existing.id; created = false })
                    database.state.episodes database.state;
            },
            ground (arith, handled),
            inr (
                inl (record {
                  episode_id = existing.id;
                  answer_is = refl;
                  episodes = refl;
                  events = append-nil database.state.events;
                })),
          )
          | inr other ↦ (
            refused (handle_exception episode_idempotency_conflict),
            database,
            ground (arith, handled),
            inl (record {
              response = handle_exception episode_idempotency_conflict;
              answer_is = refl;
              kept = refl;
            }),
          )
        ]
      ]

  command_course :
      (Holds : Episode → Type 0) (command : RecordEpisodeCommand)
      → ((episode : Episode) → prepare ports command ≡ ok episode → Holds episode)
      → Course Holds (ok command)
  unfolding record_episode
  command_course Holds command holds = elim (Result-cases (prepare ports command)) [
    | inl (e, refusal) ↦ (
      refused (handle_exception e),
      database,
      ground (arith, handle-outcome ports command database free valid fresh),
      inl (record { response = handle_exception e; answer_is = refl; kept = refl }),
    )
    | inr (episode, built) ↦ built_course Holds command episode built (holds episode built)
  ]

-- With OIDC on, in a consistent database that no transaction holds, and with a new identifier that no
-- episode has, the route always answers, in one of three ways. It refuses and leaves the database as it was; it answers
-- 200 and leaves the episodes and events as they were; or it answers 201 and one episode joins the log. That
-- episode is of the path's tenant and its actor is the principal of the request's token.
pub record_episode-course :
    (ports : Ports) (database : Database) (free : database.locked ≡ false)
    (valid : IsConsistent database.state)
    (fresh : find (λ item. item.id == ports.new_memory_id) database.state.episodes ≡ none)
    (settings : AuthSettings) (on : settings.oidc_enabled ≡ true) (parsers : TextParsers)
    (new_correlation_id : CorrelationId) (head : Head) (body : RecordEpisodeRequest)
    → Course ports database free valid fresh
        (λ episode.
          IsFrom settings head.tenant_id head.authorization episode.actor_id episode.scope)
        (record_episode_command settings parsers new_correlation_id head body)
unfolding record_episode
record_episode-course ports database free valid fresh settings on parsers new_correlation_id head
      body =
    elim (Result-cases (record_episode_command settings parsers new_correlation_id head body)) [
      | inl (e, refusal) ↦ rw refusal (
        refused (handle_exception e),
        database,
        refl,
        inl (record { response = handle_exception e; answer_is = refl; kept = refl }),
      )
      | inr (command, mapped) ↦
          let from =
            record_command-IsFrom settings on parsers new_correlation_id head body command mapped in
          rw mapped (
            command_course ports database free valid fresh _ command λ episode built.
              let p = prepare-IsPrepared ports command built in
              record {
                principal = from.principal;
                authenticated = from.authenticated;
                actor = p.actor ∙ from.actor;
                tenant = ap (λ s. s.tenant_id) p.scope ∙ from.tenant;
              })
    ]
