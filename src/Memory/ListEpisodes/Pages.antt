-- ===== src/Memory/ListEpisodes/Pages.antt =====
-- A client that follows the cursors of the episode list.
use engram_mesh.Common.{
  ℕ, suc, ◌+◌, Bool, true, false, String, Option, none, some, List, [], ◌∷◌, length, take, keep,
  find, All, All-keep, All-map, Among, Among-keep, Among-keep, ◌==◌, nat_eq, ◌≡◌, ◌≢◌, ◌↔◌, ap, ◌∙◌,
  arith, Bool-cases, inl, inr,
}
use engram_mesh.Common.Int.{ℤ, pos, ◌+ℤ◌, pos-plus_one}
use engram_mesh.Common.Keyset.{
  behind, follow, IsIncreasing, HasDistinctKeys, sorted-IsIncreasing, All-sorted, Among-sorted,
}
use engram_mesh.Common.Slice.{page, follow-page}
use engram_mesh.Common.Result.{Result, ok, err, runtime_error}
use engram_mesh.Kernel.TimeKey.{below, below_order}
use engram_mesh.Kernel.Cursor.{CursorCodec, IsCursor}
use engram_mesh.Memory.Scope.{scope_eq, scope_beq_iff}
use engram_mesh.Memory.Episode.{Episode}
use engram_mesh.Memory.Query.{ListQuery}
use engram_mesh.Memory.Database.{Database}
use engram_mesh.Memory.UnitOfWork.{begin, call, enter, exit}
use engram_mesh.Memory.UnitOfWork.Append.{IsDistinct}
use engram_mesh.Memory.UnitOfWork.Stream.{ingestion_key, scope_rows, stream}
use engram_mesh.Memory.Session.{with_unit_of_work}
use engram_mesh.Memory.RecordEpisode.{AuthorizationRequest}
use engram_mesh.Memory.ListEpisodes.{list_request, handle}

distinct_keys :
    (p : Episode → Bool) (x : Episode) (xs : List Episode)
    → find (λ item. item.id == x.id) xs ≡ none
    → All (λ y. ingestion_key x ≢ ingestion_key y) (keep p xs)
distinct_keys p x [] h = tt
distinct_keys p x (y ∷ ys) h = elim (Bool-cases (p y)) [
  | inl kept ↦ rw kept (
    λ e. (let same = ap (λ (k : ℤ × ℕ). k.1) e in ground arith),
    distinct_keys p x ys (ground arith),
  )
  | inr dropped ↦ rw dropped (distinct_keys p x ys (ground arith))
]

keep-HasDistinctKeys :
    (p : Episode → Bool) (log : List Episode)
    → IsDistinct log
    → HasDistinctKeys ingestion_key below (keep p log)
keep-HasDistinctKeys p [] d = tt
keep-HasDistinctKeys p (x ∷ xs) d = elim (Bool-cases (p x)) [
  | inl kept ↦ rw kept (distinct_keys p x xs d.0, keep-HasDistinctKeys p xs d.1)
  | inr dropped ↦ rw dropped (keep-HasDistinctKeys p xs d.1)
]

abbrev pub answer_of : {A : Type 0} → Option (Result A × Database) → Result A
answer_of none = err (runtime_error "the lock is held")
answer_of (some (answer, database)) = answer

module _ (codec : CursorCodec) (authorize : AuthorizationRequest → Bool) (query : ListQuery)
    (database : Database) where
  abbrev pub rows : List Episode
  rows = scope_rows query.scope database.state.episodes

  -- What the client is answered.
  abbrev pub fetch : Option String → Result (List Episode × Option String)
  fetch cursor = answer_of (handle codec authorize (record query { cursor = cursor }) database)

  module _ (free : database.locked ≡ false) (allowed : authorize (list_request query) ≡ true) where
    handle-page :
        (cursor : Option String) (found : List Episode)
        → stream codec query.scope (some (query.limit +ℤ pos 1)) cursor (begin database.state)
          ≡ ok (found, begin database.state)
        → handle codec authorize (record query { cursor = cursor }) database
          ≡ some (page (λ e. codec.encode e.ingested_at e.id) query.limit found, database)
    unfolding handle with_unit_of_work call enter exit
    handle-page cursor found is = ground arith

    module _ (n : ℕ) (limit_is : query.limit ≡ pos (suc n)) (cursor_of : Episode → String)
        (cursors : All
          (λ e. IsCursor codec e.ingested_at e.id (cursor_of e))
          database.state.episodes)
        (distinct : IsDistinct database.state.episodes) where
      limit_plus : query.limit +ℤ pos 1 ≡ pos (suc n + 1)
      limit_plus = pos-plus_one (suc n) query.limit limit_is

      stream_first :
          stream codec query.scope (some (query.limit +ℤ pos 1)) none (begin database.state)
          ≡ ok (take (suc n + 1) rows, begin database.state)
      unfolding stream
      stream_first = ground (arith, limit_plus)

      stream_later :
          (x : Episode)
          → IsCursor codec x.ingested_at x.id (cursor_of x)
          → stream codec query.scope
              (some (query.limit +ℤ pos 1))
              (some (cursor_of x))
              (begin database.state)
            ≡ ok (
              take (suc n + 1) (behind ingestion_key below (ingestion_key x) rows),
              begin database.state,
            )
      unfolding stream
      stream_later x is = ground (arith, limit_plus, is.read_back)

      All-cursors : All (λ e. IsCursor codec e.ingested_at e.id (cursor_of e)) rows
      All-cursors =
          All-sorted ingestion_key below (λ e. IsCursor codec e.ingested_at e.id (cursor_of e))
            (keep (λ e. e.scope == query.scope) database.state.episodes)
            (All-keep (λ e. IsCursor codec e.ingested_at e.id (cursor_of e))
              (λ e. e.scope == query.scope) database.state.episodes cursors)

      fetch-page :
          (cursor : Option String) (found : List Episode)
          → stream codec query.scope (some (query.limit +ℤ pos 1)) cursor (begin database.state)
            ≡ ok (found, begin database.state)
          → fetch cursor ≡ page (λ e. codec.encode e.ingested_at e.id) (pos (suc n)) found
      fetch-page cursor found is =
          ap answer_of (handle-page cursor found is)
          ∙ ap (λ limit. page (λ e. codec.encode e.ingested_at e.id) limit found) limit_is

      -- The rows of the scope, in strictly increasing order, each of them once.
      rows-IsIncreasing : IsIncreasing ingestion_key below rows
      rows-IsIncreasing =
          sorted-IsIncreasing ingestion_key below below_order
            (keep (λ e. e.scope == query.scope) database.state.episodes)
            (keep-HasDistinctKeys (λ e. e.scope == query.scope) database.state.episodes distinct)

      written : All (λ e. codec.encode e.ingested_at e.id ≡ ok (cursor_of e)) rows
      written =
          All-map (λ e. IsCursor codec e.ingested_at e.id (cursor_of e))
            (λ e. codec.encode e.ingested_at e.id ≡ ok (cursor_of e)) rows (λ e c. c.written)
            All-cursors

      follow_rows : follow (length rows + 1) fetch none ≡ some (ok rows)
      follow_rows =
          follow-page (λ e. codec.encode e.ingested_at e.id) cursor_of n ingestion_key below
            below_order fetch rows rows-IsIncreasing written
            (fetch-page none (take (suc n + 1) rows) stream_first)
            (All-map (λ e. IsCursor codec e.ingested_at e.id (cursor_of e))
              (λ x.
                fetch (some (cursor_of x))
                ≡ page (λ e. codec.encode e.ingested_at e.id) (pos (suc n))
                    (take (suc n + 1) (behind ingestion_key below (ingestion_key x) rows)))
              rows
              (λ x is.
                fetch-page (some (cursor_of x))
                  (take (suc n + 1) (behind ingestion_key below (ingestion_key x) rows))
                  (stream_later x is))
              All-cursors)

      -- On a free database, for an authorized reader and a limit of one or more, and where the cursor of
      -- each episode is read back: the client that follows the cursors from the first page to the last is
      -- answered by the episodes of the scope, by time of ingestion and identifier, each of them once.
      pub follow-handle :
          (found : List Episode) × (follow (length rows + 1) fetch none ≡ some (ok found))
          × IsIncreasing ingestion_key below found
          × ((e : Episode)
              → Among e found ↔ Among e database.state.episodes × (e.scope ≡ query.scope))
      follow-handle = (
        rows,
        follow_rows,
        rows-IsIncreasing,
        λ e.
            (let (to, from) =
                Among-sorted ingestion_key below e
                  (keep (λ x. x.scope == query.scope) database.state.episodes) in
              let (kept, back) =
                Among-keep (λ x. x.scope == query.scope) e database.state.episodes in
              let same = scope_beq_iff e.scope query.scope in
              (
                λ h. (let (there, is) = kept (to h) in (there, same.0 is)),
                λ (there, is). from (back (there, same.1 is)),
              )),
      )
