-- ===== src/Memory/Query.antt =====
-- modules/memory/ports.py: the scoped query, the candidates of an index, and the limits of the list
-- queries of modules/memory/application/contracts.py.
use engram_mesh.Common.{String, not, ◌||◌, Option, List, any, ◌==◌}
use engram_mesh.Common.Int.{ℤ, pos, leb_ℤ, ltb_ℤ}
use engram_mesh.Common.Result.{Result, ok, value_error, raise_if, ◌>>◌}
use engram_mesh.Kernel.Text.{is_blank}
use engram_mesh.Kernel.Datetime.{Datetime, require_optional_aware}
use engram_mesh.Kernel.Ids.{SubjectId, MemoryId}
use engram_mesh.Memory.Scope.{MemoryScope, scope_eq}
use engram_mesh.Memory.Claim.{EvidenceItem}

pub record MemoryQuery : Type 0 where
  pub query_id : String
  pub scope : MemoryScope
  pub text : String
  pub valid_at : Option Datetime
  pub recorded_at : Option Datetime
  pub limit : ℤ

unfoldable pub make_memory_query : MemoryQuery → Result MemoryQuery
make_memory_query query = do
  raise_if (is_blank query.query_id) (value_error "query_id must not be blank")
  raise_if (is_blank query.text) (value_error "text must not be blank")
  require_optional_aware query.valid_at "valid_at"
  require_optional_aware query.recorded_at "recorded_at"
  raise_if (leb_ℤ query.limit (pos 0)) (value_error "limit must be positive")
  ok query

pub record CandidateSet : Type 0 where
  pub scope : MemoryScope
  pub items : List EvidenceItem

unfoldable pub candidate_set : CandidateSet → Result CandidateSet
candidate_set candidates = do
  raise_if (any (λ item. not (item.claim.scope == candidates.scope)) candidates.items)
      (value_error "every evidence item claim scope must match candidate scope")
  ok candidates

-- `ListEpisodesQuery` and `ListClaimsQuery`.
pub record ListQuery : Type 0 where
  pub actor_id : SubjectId
  pub scope : MemoryScope
  pub limit : ℤ
  pub cursor : Option String

unfoldable pub make_list_query : ListQuery → Result ListQuery
make_list_query query = do
  raise_if (leb_ℤ query.limit (pos 0) || ltb_ℤ (pos 100) query.limit)
      (value_error "limit must be between 1 and 100")
  ok query

pub record GetClaimQuery : Type 0 where
  pub actor_id : SubjectId
  pub scope : MemoryScope
  pub claim_id : MemoryId
