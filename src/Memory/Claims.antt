-- ===== src/Memory/Claims.antt =====
-- modules/memory/application/get_claim.py and list_claims.py, over any claim store: its two reads are
-- inputs, made in a transaction of their own.
use engram_mesh.Common.{Bool, not, String, Option, List, [], ◌∷◌}
use engram_mesh.Common.Int.{ℤ, pos, ◌+ℤ◌}
use engram_mesh.Common.Slice.{page}
use engram_mesh.Common.Result.{
  Result, ok, err, raise_if, claim_not_found, claim_read_authorization_denied, ◌>>=◌, ◌>>◌,
}
use engram_mesh.Kernel.Cursor.{CursorCodec}
use engram_mesh.Kernel.Ids.{MemoryId, SubjectId}
use engram_mesh.Memory.Scope.{MemoryScope}
use engram_mesh.Memory.Episode.{internal}
use engram_mesh.Memory.Claim.{Claim}
use engram_mesh.Memory.Query.{GetClaimQuery, ListQuery}
use engram_mesh.Memory.RecordEpisode.{AuthorizationRequest}

-- The reads of `ClaimStore`, with what they raise.
pub record ClaimReads : Type 0 where
  pub history : MemoryScope → MemoryId → Result (List Claim)
  pub stream : MemoryScope → ℤ → Option String → Result (List Claim)

abbrev pub claim_request : SubjectId → MemoryScope → AuthorizationRequest
claim_request actor_id scope = record {
  actor_id = actor_id;
  scope = scope;
  action = "read_claim";
  sensitivity = internal;
}

-- `claims[0]`, if there is one.
abbrev pub first_claim : List Claim → Result Claim
first_claim [] = err claim_not_found
first_claim (claim ∷ claims) = ok claim

module _ (store : ClaimReads) (authorize : AuthorizationRequest → Bool) where
  unfoldable pub handle_get_claim : GetClaimQuery → Result Claim
  handle_get_claim query = do
    raise_if (not (authorize (claim_request query.actor_id query.scope)))
        claim_read_authorization_denied
    store.history query.scope query.claim_id >>= first_claim

  unfoldable pub handle_list_claims : CursorCodec → ListQuery → Result (List Claim × Option String)
  handle_list_claims codec query = do
    raise_if (not (authorize (claim_request query.actor_id query.scope)))
        claim_read_authorization_denied
    store.stream query.scope (query.limit +ℤ pos 1) query.cursor >>= λ rows.
        page (λ c. codec.encode c.recorded_from c.id) query.limit rows
