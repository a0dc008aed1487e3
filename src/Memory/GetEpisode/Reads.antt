-- ===== src/Memory/GetEpisode/Reads.antt =====
-- What a reader of one episode is told.
use engram_mesh.Common.{
  Bool, Among, true, false, not, ◌&&◌, none, some, List, [], ◌∷◌, find, find-holds, nat_eq, ◌==◌,
  ◌≡◌, ◌↔◌, inl, inr, sym, ap, ◌∙◌, arith, if◌then◌else◌, Bool-cases, Option-cases,
}
use engram_mesh.Common.Result.{
  Result, ok, err, episode_read_authorization_denied, episode_not_found,
}
use engram_mesh.Memory.Scope.{scope_eq, scope_beq_iff}
use engram_mesh.Memory.Episode.{Episode}
use engram_mesh.Memory.Database.{Database}
use engram_mesh.Memory.UnitOfWork.{get, call, enter, exit}
use engram_mesh.Memory.UnitOfWork.Append.{IsDistinct}
use engram_mesh.Memory.Session.{with_unit_of_work}
use engram_mesh.Memory.RecordEpisode.{AuthorizationRequest}
use engram_mesh.Memory.GetEpisode.{GetEpisodeQuery, read_request, handle}

abbrev is_asked : GetEpisodeQuery → Episode → Bool
is_asked query episode = episode.id == query.episode_id && episode.scope == query.scope

Among-find :
    (p : Episode → Bool) (log : List Episode) (e : Episode) → find p log ≡ some e → Among e log
Among-find p [] e h = absurd (ground arith)
Among-find p (x ∷ xs) e h = elim (Bool-cases (p x)) [
  | inl here ↦ inl (ground arith)
  | inr later ↦ inr (Among-find p xs e (ground arith))
]

find-missing :
    (p : Episode → Bool) (log : List Episode) (e : Episode)
    → find p log ≡ none
    → Among e log
    → p e ≡ false
find-missing p [] e h there = absurd there.lower
find-missing p (x ∷ xs) e h (inl same) = ap p same ∙ ground arith
find-missing p (x ∷ xs) e h (inr later) = find-missing p xs e (ground arith) later

-- Identifiers are distinct, so that the first episode found is the one asked for.
find-asked :
    (query : GetEpisodeQuery) (log : List Episode) (e : Episode)
    → IsDistinct log
    → Among e log
    → is_asked query e ≡ true
    → find (is_asked query) log ≡ some e
find-asked query [] e d there asked = absurd there.lower
find-asked query (x ∷ xs) e d (inl same) asked =
    let here : is_asked query x ≡ true = ap (is_asked query) (sym same) ∙ asked in
    (let found : find (is_asked query) (x ∷ xs) ≡ some x = ground (arith, here) in
      found ∙ ap some (sym same))
find-asked query (x ∷ xs) e d (inr later) asked =
    let rest = find-asked query xs e d.1 later asked in
    let other = find-missing (λ item. item.id == x.id) xs e d.0 later in
    elim (Bool-cases (x.id == query.episode_id)) [
      | inl same ↦ absurd (ground arith)
      | inr differ ↦ ground arith
    ]

module _ (authorize : AuthorizationRequest → Bool) (query : GetEpisodeQuery)
    (database : Database) where
  abbrev pub read_answer : Result Episode
  read_answer =
      if not (authorize (read_request query))
      then err episode_read_authorization_denied
      else elim (find (is_asked query) database.state.episodes) [
        | none ↦ err episode_not_found
        | some episode ↦ ok episode
      ]

  answers : database.locked ≡ false → handle authorize query database ≡ some (read_answer, database)
  unfolding handle with_unit_of_work call enter exit get
  answers free = elim (Option-cases (find (is_asked query) database.state.episodes)) [
    | inl missing ↦ ground arith
    | inr (episode, found) ↦ ground arith
  ]

  -- On a free database whose episodes have distinct identifiers the handler returns, and leaves the
  -- database as it was. It gives an episode exactly when the reader is authorized and the episode is
  -- recorded under the identifier and in the scope asked for.
  pub handle-reads :
      database.locked ≡ false
      → IsDistinct database.state.episodes
      → (handle authorize query database ≡ some (read_answer, database))
        × ((episode : Episode)
            → (read_answer ≡ ok episode) ↔ (
                (authorize (read_request query) ≡ true)
                × Among episode database.state.episodes
                × (episode.id ≡ query.episode_id)
                × (episode.scope ≡ query.scope)))
  handle-reads free distinct = (
    answers free,
    λ episode. (
      λ given. elim (Option-cases (find (is_asked query) database.state.episodes)) [
        | inl missing ↦ absurd (ground arith)
        | inr (found, is) ↦
            let it : find (is_asked query) database.state.episodes ≡ some episode = ground arith in
            let asked = find-holds (is_asked query) database.state.episodes episode it in
            (
              ground arith,
              Among-find (is_asked query) database.state.episodes episode it,
              ground arith,
              (scope_beq_iff episode.scope query.scope).0 (ground arith),
            )
      ],
      λ (allowed, there, same_id, same_scope).
          let asked : is_asked query episode ≡ true =
            ground (arith, (scope_beq_iff episode.scope query.scope).1 same_scope) in
          let found = find-asked query database.state.episodes episode distinct there asked in
          ground arith,
    ),
  )
