-- ===== src/Memory/RecordEpisode/Replay.antt =====
-- Sending a request again.
use engram_mesh.Common.{
  true, false, none, some, [], ◌∷◌, ◌++◌, find, nat_eq, ◌==◌, ◌≡◌, sym, subst, arith, Option-cases,
  inl, inr, ◌∙◌, find-append, string_eq, pair_eq,
}
use mathlib.Core.List.{append-nil}
use engram_mesh.Common.Result.{Result-cases, ok, err}
use engram_mesh.Kernel.Datetime.{Datetime, same_time, naive, aware}
use engram_mesh.Memory.Scope.{scope_beq_iff}
use engram_mesh.Memory.Episode.{
  Episode, same_source_type_iff, same_sensitivity_iff, same_retention_class_iff,
}
use engram_mesh.Memory.Database.{Database}
use engram_mesh.Memory.UnitOfWork.{same_episode_request, idempotency_scope}
use engram_mesh.Memory.UnitOfWork.Append.{append_spec, find_by_key}
use engram_mesh.Memory.RecordEpisode.{
  Ports, RecordEpisodeCommand, RecordEpisodeResult, prepare, handle,
}
use engram_mesh.Memory.RecordEpisode.Steps.{IsPrepared, prepare-IsPrepared}
use engram_mesh.Memory.RecordEpisode.Outcome.{IsConsistent, outcome, handle-refines}

same_time_refl : (t : Datetime) → same_time t t ≡ true
same_time_refl (naive wall) = ground arith
same_time_refl (aware i o) = ground arith

same_episode_request_refl : (e : Episode) → same_episode_request e e ≡ true
unfolding same_episode_request
same_episode_request_refl e = ground (
  arith,
  scope_beq_iff e.scope e.scope,
  same_source_type_iff e.source_type e.source_type,
  same_sensitivity_iff e.sensitivity e.sensitivity,
  same_retention_class_iff e.retention_class e.retention_class,
  string_eq.same_iff e.content_hash e.content_hash,
  string_eq.same_iff e.consent_basis e.consent_basis,
  same_time_refl e.observed_at,
)

-- Two preparations of one command ask for the same.
same_episode_request-prepared :
    (p q : Ports) (command : RecordEpisodeCommand) (x a b : Episode)
    → IsPrepared p command a
    → IsPrepared q command b
    → same_episode_request x a ≡ same_episode_request x b
unfolding same_episode_request
same_episode_request-prepared p q command x a b f g = cc (
  f.scope, g.scope, f.actor, g.actor, f.source, g.source, f.content, g.content, f.observed,
  g.observed, f.hash, g.hash, f.sensitivity, g.sensitivity, f.retention, g.retention, f.consent,
  g.consent,
)

-- A request whose key is in the log under a request for the same changes nothing.
handle-known :
    (ports : Ports) (command : RecordEpisodeCommand) (database : Database)
    (episode existing : Episode)
    → database.locked ≡ false
    → IsConsistent database.state
    → find (λ item. item.id == ports.new_memory_id) database.state.episodes ≡ none
    → prepare ports command ≡ ok episode
    → find_by_key (idempotency_scope episode) database.state.episodes ≡ some existing
    → same_episode_request existing episode ≡ true
    → handle ports command database
      ≡ some (ok (record { episode_id = existing.id; created = false }), database)
unfolding append_spec
handle-known ports command database episode existing free valid fresh built found same =
    (handle-refines ports command database free valid fresh).0
    ∙ rw built (ground (arith, append-nil database.state.events, valid.index))

module _ (first again : Ports) (command : RecordEpisodeCommand) (before : Database)
    {later : Database} (free : before.locked ≡ false) (valid : IsConsistent before.state)
    (fresh : find (λ item. item.id == first.new_memory_id) before.state.episodes ≡ none)
    (fresh_again : find (λ item. item.id == again.new_memory_id) later.state.episodes ≡ none)
    {answer : RecordEpisodeResult}
    (recorded : handle first command before ≡ some (ok answer, later)) {episode : Episode}
    (built : prepare again command ≡ ok episode) where
  -- The episode that the first request has left under its key.
  left :
      (e : Episode)
      → prepare first command ≡ ok e
      → (existing : Episode) × (find_by_key (idempotency_scope e) later.state.episodes
          ≡ some existing)
        × (same_episode_request existing e ≡ true)
        × (answer.episode_id ≡ existing.id)
  unfolding append_spec
  left e prepared =
      let (h, _, _) = handle-refines first command before free valid fresh in
      let known : some (outcome first command (ok e) before) ≡ some (ok answer, later) =
        cc (h, prepared, recorded) in
      elim (Option-cases (find_by_key (idempotency_scope e) before.state.episodes)) [
        | inl new ↦
            let log : later.state.episodes ≡ before.state.episodes ++ e ∷ [] = ground arith in
            (
              e,
              rw log (
                  find-append (λ item. idempotency_scope e == idempotency_scope item)
                    before.state.episodes (e ∷ []) new
                  ∙ ground (arith, string_eq.same_iff e.idempotency_key e.idempotency_key)),
              same_episode_request_refl e,
              ground arith,
            )
        | inr (existing, found) ↦ (existing, ground arith, ground arith, ground arith)
      ]

  -- After a request has been answered, sending it again, with any identity and clock that are accepted
  -- and an identifier that no episode has, gives the same episode's identifier, says that nothing was
  -- created, and changes nothing: no second episode and no second event.
  pub handle-replay :
      handle again command later
      ≡ some (ok (record { episode_id = answer.episode_id; created = false }), later)
  unfolding append_spec
  handle-replay = elim (Result-cases (prepare first command)) [
    | inl (e, refused) ↦
        let (h, _, _) = handle-refines first command before free valid fresh in
        let failed : some (outcome first command (err e) before) ≡ some (ok answer, later) =
          cc (h, refused, recorded) in
        ground arith
    | inr (e, prepared) ↦
        let (h, valid', free') = handle-refines first command before free valid fresh in
        let f = prepare-IsPrepared first command prepared in
        let g = prepare-IsPrepared again command built in
        let (existing, found, same, named) = left e prepared in
        let key : idempotency_scope episode ≡ idempotency_scope e = ground arith in
        let reached : (outcome first command (prepare first command) before).1 ≡ later =
          ground arith in
        rw named (
          handle-known again command later episode existing (rw reached at free')
            (subst (λ (d : Database). IsConsistent d.state) reached valid') fresh_again built
            (subst (λ k. find_by_key k later.state.episodes ≡ some existing) (sym key) found)
            (same_episode_request-prepared again first command existing episode e g f ∙ same))
  ]
