-- ===== src/Bootstrap/Http/App/Statuses.antt =====
-- bootstrap/http/app.py and errors.py: the status, and the code of the error, that each request to
-- record an episode is answered with.
use engram_mesh.Common.{
  ℕ, String, true, false, ◌&&◌, Option, none, some, find, nat_eq, string_eq, ◌==◌, ◌≡◌, refl, arith,
  Bool-cases, Option-cases, inl, inr,
}
use engram_mesh.Common.Result.{Error, ok, err, episode_authorization_denied}
use engram_mesh.Kernel.Ids.{TenantId, CorrelationId, SubjectId}
use engram_mesh.Memory.Episode.{source_type_eq, sensitivity_eq, retention_class_eq}
use engram_mesh.Memory.Scope.{scope_eq}
use engram_mesh.Memory.Database.{Database}
use engram_mesh.Memory.UnitOfWork.{same_episode_request}
use engram_mesh.Memory.UnitOfWork.Append.{append_spec}
use engram_mesh.Memory.RecordEpisode.{Ports, prepare}
use engram_mesh.Memory.RecordEpisode.Outcome.{IsConsistent, handle-outcome}
use engram_mesh.Bootstrap.Auth.{AuthenticatedPrincipal}
use engram_mesh.Bootstrap.Http.Schemas.{
  RecordEpisodeRequest, RecordEpisodeResponse, validate_record_episode,
}
use engram_mesh.Bootstrap.Http.Requests.{to_command}
use engram_mesh.Bootstrap.Http.Requests.Bounds.{IsActor}
use engram_mesh.Bootstrap.Http.Requests.Episodes.{complaint, command_of, to_command-complaint}
use engram_mesh.Bootstrap.Http.Errors.{handle_exception, error_envelope}
use engram_mesh.Bootstrap.Http.App.{Answer, refused, record_episode}
use engram_mesh.Bootstrap.Http.App.Rows.{
  status, has_utc, IsRow, may_record, recorded, malformed, denied, out_of_range, created, replayed,
  conflicting,
}
use engram_mesh.Bootstrap.Http.App.Prepared.{
  described, same_episode_request_iff, prepare-denied, prepare-described, prepare-raises,
}

-- The answer is of a row of the table.
abbrev pub Tabled :
    Ports
    → TenantId
    → SubjectId
    → RecordEpisodeRequest
    → Database
    → Option (Answer RecordEpisodeResponse × Database)
    → Type 0
Tabled ports tenant_id actor_id body database answer =
    (row : ℕ × Option String) × (status answer ≡ some row)
    × IsRow ports database.state.episodes tenant_id actor_id body row

module _ (ports : Ports) (database : Database) (free : database.locked ≡ false)
    (valid : IsConsistent database.state)
    (fresh : find (λ item. item.id == ports.new_memory_id) database.state.episodes ≡ none)
    (tenant_id : TenantId) (correlation_id : CorrelationId) (actor_id : SubjectId)
    (body : RecordEpisodeRequest) where
  -- What the preparation raises is what the route answers.
  raised_status :
      (e : Error)
      → prepare ports (command_of tenant_id correlation_id body actor_id) ≡ err e
      → record_episode ports (ok (command_of tenant_id correlation_id body actor_id)) database
        ≡ some (refused (handle_exception e), database)
  unfolding record_episode
  raised_status e raised = ground (
    arith,
    handle-outcome ports (command_of tenant_id correlation_id body actor_id) database free valid
        fresh,
  )

  known_row :
      complaint body ≡ none
      → may_record ports database.state.episodes tenant_id actor_id body ≡ true
      → has_utc ports.now && has_utc body.observed_at ≡ true
      → Tabled ports tenant_id actor_id body database
          (record_episode ports (ok (command_of tenant_id correlation_id body actor_id)) database)
  unfolding record_episode append_spec handle_exception error_envelope
  known_row c may fits =
      let built =
        prepare-described ports tenant_id actor_id body correlation_id database.state.episodes c may
          fits in
      let handled =
        handle-outcome ports (command_of tenant_id correlation_id body actor_id) database free valid
          fresh in
      let log = database.state.episodes in
      elim (Option-cases (recorded ports log tenant_id actor_id body)) [
        | inl new ↦ ((201, none), ground (arith, handled), created c may fits new)
        | inr (existing, known) ↦
            let same_iff = same_episode_request_iff ports tenant_id actor_id body existing in
            elim (Bool-cases
              (same_episode_request existing (described ports tenant_id actor_id body))) [
                | inl same ↦ (
                  (200, none),
                  ground (arith, handled),
                  replayed c may fits existing known (same_iff.0 same),
                )
                | inr other ↦ (
                  (409, some "episode_idempotency_conflict"),
                  ground (arith, handled),
                  conflicting c may fits existing known (λ is. ground (arith, same_iff.1 is)),
                )
              ]
      ]

  prepared_row :
      complaint body ≡ none
      → Tabled ports tenant_id actor_id body database
          (record_episode ports (ok (command_of tenant_id correlation_id body actor_id)) database)
  unfolding handle_exception error_envelope
  prepared_row c =
      let log = database.state.episodes in
      elim (Bool-cases (may_record ports log tenant_id actor_id body)) [
        | inr refusal ↦
            let denial = prepare-denied ports tenant_id actor_id body correlation_id log refusal in
            (
              (403, some "episode_authorization_denied"),
              rw (raised_status episode_authorization_denied denial) refl,
              denied c refusal,
            )
        | inl may ↦ elim (Bool-cases (has_utc ports.now && has_utc body.observed_at)) [
          | inl fits ↦ known_row c may fits
          | inr no_fit ↦
              let (e, raised, internal) =
                prepare-raises ports tenant_id actor_id body correlation_id log may no_fit in
              (
                (500, some "internal_error"),
                rw (raised_status e raised, internal) refl,
                out_of_range c may no_fit,
              )
        ]
      ]

  -- A body that has passed its validator, for the path's tenant and with the right actor, in a consistent
  -- database that no transaction holds, with a new identifier that no episode has, is always answered, with
  -- the status and the code of its row: 500 internal_error if its time is naive or a text is blank; 403
  -- episode_authorization_denied if the actor may not record it; 500 internal_error if the clock or its
  -- time has no UTC time in the years 1 to 9999; 201 if the tenant has not used its key; 200 if the episode
  -- under the key is what the body describes, times equal as moments; and 409
  -- episode_idempotency_conflict if it is not.
  pub record_episode-IsRow :
      (principal : Option AuthenticatedPrincipal)
      → validate_record_episode body ≡ ok tt
      → body.scope.tenant_id ≡ tenant_id
      → IsActor principal body.actor_id actor_id
      → Tabled ports tenant_id actor_id body database
          (record_episode ports (to_command tenant_id correlation_id body principal) database)
  unfolding record_episode handle_exception error_envelope
  record_episode-IsRow principal passed same actor =
      rw (to_command-complaint tenant_id correlation_id body principal actor_id passed same actor)
        (elim (Option-cases (complaint body)) [
          | inl c ↦ rw c (prepared_row c)
          | inr (message, c) ↦ rw c ((500, some "internal_error"), refl, malformed message c)
        ])
