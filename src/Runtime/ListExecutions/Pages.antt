-- ===== src/Runtime/ListExecutions/Pages.antt =====
-- A client that follows the cursors of the execution list.
use engram_mesh.Common.{
  ℕ, suc, ◌+◌, Bool, true, false, String, Option, none, some, List, [], ◌∷◌, length, take, keep,
  map, All, All-keep, All-map, Among, Among-keep, ◌==◌, nat_eq, eqb, eqb_iff, ◌≡◌, ◌≢◌, ◌↔◌, refl,
  ap, ◌∙◌, arith, Bool-cases, inl, inr,
}
use engram_mesh.Common.Int.{ℤ, pos, ◌+ℤ◌, pos-plus_one}
use engram_mesh.Common.Dict.{Dict, lookup, insert, lookup-insert}
use engram_mesh.Common.Keyset.{
  behind, follow, follow-map, IsIncreasing, HasDistinctKeys, sorted-IsIncreasing, All-sorted,
  Among-sorted,
}
use engram_mesh.Common.Slice.{page, follow-page}
use engram_mesh.Common.Result.{Result, ok}
use engram_mesh.Kernel.Ids.{ExecutionId}
use engram_mesh.Kernel.TimeKey.{above, above_order}
use engram_mesh.Kernel.Cursor.{CursorCodec, IsCursor}
use engram_mesh.Memory.Scope.{scope_eq, scope_beq_iff}
use engram_mesh.Runtime.Model.{ExecutionSnapshot}
use engram_mesh.Runtime.Database.{CommittedRuntimeState}
use engram_mesh.Runtime.UseCases.{RuntimeAuthorizationRequest}
use engram_mesh.Runtime.ListExecutions.{
  ListExecutionsQuery, list_request, update_key, values, scope_rows, stream, page_of_snapshots,
  ExecutionListItem, to_item, handle,
}

-- A dict has each key once, and snapshots stand under their own identifiers.
abbrev pub IsKeyed : Dict ExecutionId ExecutionSnapshot → Type 0
IsKeyed [] = Unit
IsKeyed ((id, snapshot) ∷ d) = (snapshot.execution_id ≡ id) × (lookup id d ≡ none) × IsKeyed d

lookup-insert-none :
    (k id : ExecutionId) (new : ExecutionSnapshot) (d : Dict ExecutionId ExecutionSnapshot)
    → eqb id k ≡ false
    → lookup id d ≡ none
    → lookup id (insert k new d) ≡ none
lookup-insert-none k id new d other h = ground (arith, lookup-insert id k new d)

-- Writing a snapshot under its identifier keeps the dict so.
pub insert-IsKeyed :
    (k : ExecutionId) (new : ExecutionSnapshot) (d : Dict ExecutionId ExecutionSnapshot)
    → new.execution_id ≡ k
    → IsKeyed d
    → IsKeyed (insert k new d)
insert-IsKeyed k new [] named keyed = (named, refl, tt)
insert-IsKeyed k new ((id, old) ∷ d) named keyed = elim (Bool-cases (eqb k id)) [
  | inl same ↦
      let e : k ≡ id = (eqb_iff k id).0 same in
      rw same (named, ap (λ i. lookup i d) e ∙ keyed.1, keyed.2)
  | inr other ↦ rw other (
    keyed.0,
    lookup-insert-none k id new d (ground arith) keyed.1,
    insert-IsKeyed k new d named keyed.2,
  )
]

distinct_keys :
    (p : ExecutionSnapshot → Bool) (id : ExecutionId) (x : ExecutionSnapshot)
    (d : Dict ExecutionId ExecutionSnapshot)
    → x.execution_id ≡ id
    → lookup id d ≡ none
    → IsKeyed d
    → All (λ y. update_key x ≢ update_key y) (keep p (values d))
distinct_keys p id x [] named h keyed = tt
distinct_keys p id x ((j, y) ∷ d) named h keyed =
    let rest = distinct_keys p id x d named (ground arith) keyed.2 in
    elim (Bool-cases (p y)) [
      | inl kept ↦ rw kept (λ e. (let same = ap (λ (k : ℤ × ℕ). k.1) e in ground arith), rest)
      | inr dropped ↦ rw dropped rest
    ]

keep-HasDistinctKeys :
    (p : ExecutionSnapshot → Bool) (d : Dict ExecutionId ExecutionSnapshot)
    → IsKeyed d
    → HasDistinctKeys update_key above (keep p (values d))
keep-HasDistinctKeys p [] keyed = tt
keep-HasDistinctKeys p ((id, x) ∷ d) keyed = elim (Bool-cases (p x)) [
  | inl kept ↦
      rw kept (distinct_keys p id x d keyed.0 keyed.1 keyed.2, keep-HasDistinctKeys p d keyed.2)
  | inr dropped ↦ rw dropped (keep-HasDistinctKeys p d keyed.2)
]

module _ (codec : CursorCodec) (authorize : RuntimeAuthorizationRequest → Bool)
    (query : ListExecutionsQuery) (state : CommittedRuntimeState) where
  abbrev pub rows : List ExecutionSnapshot
  rows = scope_rows query.scope state

  abbrev pub fetch : Option String → Result (List ExecutionListItem × Option String)
  fetch cursor = handle codec authorize (record query { cursor = cursor }) state

  abbrev fetch_snapshots : Option String → Result (List ExecutionSnapshot × Option String)
  fetch_snapshots cursor =
      page_of_snapshots codec authorize (record query { cursor = cursor }) state

  module _ (allowed : authorize (list_request query) ≡ true) (n : ℕ)
      (limit_is : query.limit ≡ pos (suc n)) (cursor_of : ExecutionSnapshot → String)
      (cursors : All
        (λ s. IsCursor codec s.updated_at s.execution_id (cursor_of s))
        (values state.snapshots))
      (keyed : IsKeyed state.snapshots) where
    abbrev encode : ExecutionSnapshot → Result String
    encode s = codec.encode s.updated_at s.execution_id

    limit_plus : query.limit +ℤ pos 1 ≡ pos (suc n + 1)
    limit_plus = pos-plus_one (suc n) query.limit limit_is

    fetch-page :
        (cursor : Option String) (found : List ExecutionSnapshot)
        → stream codec query.scope (some (query.limit +ℤ pos 1)) cursor state ≡ ok found
        → fetch_snapshots cursor ≡ page encode (pos (suc n)) found
    unfolding page_of_snapshots
    fetch-page cursor found is = rw (allowed, is) (ap (λ limit. page encode limit found) limit_is)

    stream_first :
        stream codec query.scope (some (query.limit +ℤ pos 1)) none state
        ≡ ok (take (suc n + 1) rows)
    unfolding stream
    stream_first = ground (arith, limit_plus)

    stream_later :
        (x : ExecutionSnapshot)
        → IsCursor codec x.updated_at x.execution_id (cursor_of x)
        → stream codec query.scope (some (query.limit +ℤ pos 1)) (some (cursor_of x)) state
          ≡ ok (take (suc n + 1) (behind update_key above (update_key x) rows))
    unfolding stream
    stream_later x is = ground (arith, limit_plus, is.read_back)

    All-cursors : All (λ s. IsCursor codec s.updated_at s.execution_id (cursor_of s)) rows
    All-cursors =
        All-sorted update_key above (λ s. IsCursor codec s.updated_at s.execution_id (cursor_of s))
          (keep (λ s. s.scope == query.scope) (values state.snapshots))
          (All-keep (λ s. IsCursor codec s.updated_at s.execution_id (cursor_of s))
            (λ s. s.scope == query.scope) (values state.snapshots) cursors)

    rows-IsIncreasing : IsIncreasing update_key above rows
    rows-IsIncreasing =
        sorted-IsIncreasing update_key above above_order
          (keep (λ s. s.scope == query.scope) (values state.snapshots))
          (keep-HasDistinctKeys (λ s. s.scope == query.scope) state.snapshots keyed)

    follow_rows : follow (length rows + 1) fetch_snapshots none ≡ some (ok rows)
    follow_rows =
        follow-page encode cursor_of n update_key above above_order fetch_snapshots rows
          rows-IsIncreasing
          (All-map (λ s. IsCursor codec s.updated_at s.execution_id (cursor_of s))
            (λ s. encode s ≡ ok (cursor_of s)) rows (λ s c. c.written) All-cursors)
          (fetch-page none (take (suc n + 1) rows) stream_first)
          (All-map (λ s. IsCursor codec s.updated_at s.execution_id (cursor_of s))
            (λ x.
              fetch_snapshots (some (cursor_of x))
              ≡ page encode (pos (suc n))
                  (take (suc n + 1) (behind update_key above (update_key x) rows)))
            rows
            (λ x is.
              fetch-page (some (cursor_of x))
                (take (suc n + 1) (behind update_key above (update_key x) rows))
                (stream_later x is))
            All-cursors)

    -- For an authorized reader and a limit of one or more, and where the cursor of each execution is read
    -- back: the client that follows the cursors from the first page to the last is answered by the
    -- executions of the scope, the latest update first, each of them once.
    pub follow-handle_executions :
        (found : List ExecutionSnapshot) × (follow (length rows + 1) fetch none
          ≡ some (ok (map to_item found)))
        × IsIncreasing update_key above found
        × ((s : ExecutionSnapshot)
            → Among s found ↔ Among s (values state.snapshots) × (s.scope ≡ query.scope))
    unfolding handle
    follow-handle_executions = (
      rows,
      follow-map to_item fetch_snapshots (length rows + 1) none rows follow_rows,
      rows-IsIncreasing,
      λ s.
          (let (to, from) =
              Among-sorted update_key above s
                (keep (λ x. x.scope == query.scope) (values state.snapshots)) in
            let (kept, back) =
              Among-keep (λ x. x.scope == query.scope) s (values state.snapshots) in
            let same = scope_beq_iff s.scope query.scope in
            (
              λ h. (let (there, is) = kept (to h) in (there, same.0 is)),
              λ (there, is). from (back (there, same.1 is)),
            )),
    )
