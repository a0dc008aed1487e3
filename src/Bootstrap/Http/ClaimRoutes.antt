-- ===== src/Bootstrap/Http/ClaimRoutes.antt =====
-- bootstrap/http/app.py: the claim routes from their queries to the answers, over any claim store.
use engram_mesh.Common.{String, Bool, Option, List}
use engram_mesh.Common.Result.{Result, ok, err, traverse, ◌>>=◌}
use engram_mesh.Kernel.Cursor.{CursorCodec}
use engram_mesh.Memory.Claim.{Claim}
use engram_mesh.Memory.Query.{GetClaimQuery, ListQuery}
use engram_mesh.Memory.RecordEpisode.{AuthorizationRequest}
use engram_mesh.Memory.Claims.{ClaimReads, handle_get_claim, handle_list_claims}
use engram_mesh.Bootstrap.Http.Schemas.{ListResponse}
use engram_mesh.Bootstrap.Http.ClaimResponses.{ClaimResponse, claim_to_response}
use engram_mesh.Bootstrap.Http.Errors.{handle_exception}
use engram_mesh.Bootstrap.Http.App.{Answer, answered, refused}

module _ (store : ClaimReads) (authorize : AuthorizationRequest → Bool) where
  unfoldable pub get_claim : Result GetClaimQuery → Answer ClaimResponse
  get_claim query = elim (query >>= λ q. handle_get_claim store authorize q >>= claim_to_response) [
    | err e ↦ refused (handle_exception e)
    | ok response ↦ answered 200 response
  ]

  -- The items with their validators, and the next cursor.
  abbrev pub claim_page : List Claim × Option String → Result (List ClaimResponse × Option String)
  claim_page (items, next_cursor) =
      traverse claim_to_response items >>= λ responses. ok (responses, next_cursor)

  unfoldable pub list_claims : CursorCodec → Result ListQuery → Answer (ListResponse ClaimResponse)
  list_claims codec query =
      elim (query >>= λ q. handle_list_claims store authorize codec q >>= claim_page) [
        | err e ↦ refused (handle_exception e)
        | ok (items, next_cursor) ↦
            answered 200 (record { items = items; next_cursor = next_cursor })
      ]
