-- ===== src/Memory/UnitOfWork/Append.antt =====
-- The idempotent append against a plain log of episodes.
use engram_mesh.Common.{
  String, true, false, Option, none, some, List, [], ◌∷◌, ◌++◌, map, find, nat_eq, string_eq,
  pair_eq, ◌==◌, ◌≡◌, refl, sym, ap, subst, arith, eqb_iff, Bool-cases, Option-cases, inl, inr,
  if◌then◌else◌, ◌∙◌, find-append,
}
use engram_mesh.Common.Dict.{lookup, insert, insert_of_none}
use engram_mesh.Common.Result.{Result, ok, err, episode_idempotency_conflict}
use engram_mesh.Kernel.Ids.{MemoryId, TenantId}
use engram_mesh.Memory.Episode.{Episode}
use engram_mesh.Memory.UnitOfWork.{
  same_episode_request, TransactionState, AppendResult, idempotency_scope, replay, append,
}

-- No two episodes of the log have one identifier.
abbrev pub IsDistinct : List Episode → Type 0
IsDistinct [] = Unit
IsDistinct (x ∷ xs) = (find (λ item. item.id == x.id) xs ≡ none) × IsDistinct xs

abbrev pub index_entry : Episode → (TenantId × String) × MemoryId
index_entry episode = (idempotency_scope episode, episode.id)

-- The first episode of the log that was recorded under the key.
abbrev pub find_by_key : TenantId × String → List Episode → Option Episode
find_by_key key = find (λ item. key == idempotency_scope item)

abbrev pub id_of : Option Episode → Option MemoryId
id_of none = none
id_of (some episode) = some episode.id

-- What an append promises: a key of the log is answered with its episode's identifier if the request is
-- the same, and is a conflict if not; the log does not change. An episode with a new key joins the log.
unfoldable pub append_spec : Episode → List Episode → Result (AppendResult × List Episode)
append_spec episode log = elim (find_by_key (idempotency_scope episode) log) [
  | none ↦ ok (record { episode_id = episode.id; created = true }, log ++ episode ∷ [])
  | some existing ↦
      if same_episode_request existing episode
      then ok (record { episode_id = existing.id; created = false }, log)
      else err episode_idempotency_conflict
]

lookup-index :
    (key : TenantId × String) (log : List Episode)
    → lookup key (map index_entry log) ≡ id_of (find_by_key key log)
lookup-index key [] = refl
lookup-index key (x ∷ xs) = ground (arith, lookup-index key xs)

-- The identifier of an episode that is found by its key finds that episode.
find-id_of_find :
    (key : TenantId × String) (log : List Episode) (existing : Episode)
    → IsDistinct log
    → find_by_key key log ≡ some existing
    → find (λ item. item.id == existing.id) log ≡ some existing
find-id_of_find key [] existing d h = ground arith
find-id_of_find key (x ∷ xs) existing d h = elim (Bool-cases (key == idempotency_scope x)) [
  | inl here ↦ let e : x ≡ existing = ground arith in rw (← e) (ground (arith, eqb_iff x.id x.id))
  | inr there ↦
      let found = find-id_of_find key xs existing d.1 (ground arith) in
      elim (Bool-cases (x.id == existing.id)) [
        | inl same ↦
            let e = (eqb_iff x.id existing.id).0 same in
            let missing : find (λ item. item.id == existing.id) xs ≡ none =
              subst (λ (u : MemoryId). find (λ item. item.id == u) xs ≡ none) e d.0 in
            cc
        | inr other ↦ ground arith
      ]
]

pub IsDistinct-append :
    (log : List Episode) (episode : Episode)
    → IsDistinct log
    → find (λ item. item.id == episode.id) log ≡ none
    → IsDistinct (log ++ episode ∷ [])
IsDistinct-append [] episode d h = (refl, tt)
IsDistinct-append (x ∷ xs) episode d h = (
  find-append (λ item. item.id == x.id) xs (episode ∷ []) d.0 ∙ ground arith,
  IsDistinct-append xs episode d.1 (ground arith),
)

pub map-append_one {ℓ κ} :
    {A : Type ℓ} {B : Type κ} (f : A → B) (xs : List A) (a : A)
    → map f (xs ++ a ∷ []) ≡ map f xs ++ f a ∷ []
map-append_one f [] a = refl
map-append_one f (x ∷ xs) a = ap (◌∷◌ (f x)) (map-append_one f xs a)

insert-index :
    (episode : Episode) (log : List Episode)
    → find_by_key (idempotency_scope episode) log ≡ none
    → insert (idempotency_scope episode) episode.id (map index_entry log)
      ≡ map index_entry (log ++ episode ∷ [])
insert-index episode log new =
    insert_of_none (idempotency_scope episode) episode.id (map index_entry log)
      (lookup-index (idempotency_scope episode) log ∙ ap id_of new)
    ∙ sym (map-append_one index_entry log episode)

-- The state over another log, with the index that belongs to it.
abbrev pub with_log : List Episode → TransactionState → TransactionState
with_log log state = record state { episodes = log; idempotency_index = map index_entry log }

-- The outcome that the log demands of a call on the state.
abbrev pub on_log :
    Result (AppendResult × List Episode)
    → TransactionState
    → Result (AppendResult × TransactionState)
on_log (err e) state = err e
on_log (ok (result, log)) state = ok (result, with_log log state)

-- In a usable transaction whose index lists its episodes by their keys, with distinct identifiers,
-- `append` does what the log demands: the answer, the conflict, the log afterwards and its index.
pub append-refines :
    (episode : Episode) (state : TransactionState)
    → state.active ≡ true
    → state.committed ≡ false
    → state.idempotency_index ≡ map index_entry state.episodes
    → IsDistinct state.episodes
    → append episode state ≡ on_log (append_spec episode state.episodes) state
unfolding append replay append_spec
append-refines episode state a c i d =
    elim (Option-cases (find_by_key (idempotency_scope episode) state.episodes)) [
      | inl new ↦ ground (
        arith,
        ap (lookup (idempotency_scope episode)) i,
        lookup-index (idempotency_scope episode) state.episodes,
        ap (insert (idempotency_scope episode) episode.id) i,
        insert-index episode state.episodes new,
      )
      | inr (existing, e) ↦ ground (
        arith,
        ap (lookup (idempotency_scope episode)) i,
        lookup-index (idempotency_scope episode) state.episodes,
        find-id_of_find (idempotency_scope episode) state.episodes existing d e,
      )
    ]

-- An accepted append has either added its episode, under a key that was not there, or changed nothing.
pub data Accepted (episode : Episode) (log : List Episode)
    : AppendResult → List Episode → Type 0 where
  added :
      find_by_key (idempotency_scope episode) log ≡ none
      → Accepted episode log
          (record { episode_id = episode.id; created = true })
          (log ++ episode ∷ [])
  replayed :
      (existing : Episode)
      → find_by_key (idempotency_scope episode) log ≡ some existing
      → Accepted episode log (record { episode_id = existing.id; created = false }) log
