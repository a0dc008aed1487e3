-- ===== src/Runtime/ListExecutions.antt =====
-- modules/runtime/application/list_executions.py, over `stream` of adapters/in_memory/database.py.
pub mod Pages
mod Examples
use engram_mesh.Common.{
  ℕ, String, Bool, not, ◌&&◌, ◌||◌, Option, none, some, is_some, is_none, List, [], ◌∷◌, map, keep,
  ◌==◌, if◌then◌else◌,
}
use engram_mesh.Common.Int.{ℤ, pos, leb_ℤ, ltb_ℤ, ◌+ℤ◌}
use engram_mesh.Common.Dict.{Dict}
use engram_mesh.Common.Keyset.{sorted, behind}
use engram_mesh.Common.Slice.{cut, page}
use engram_mesh.Common.Result.{
  Result, ok, err, value_error, raise_if, execution_authorization_denied, ◌>>=◌, ◌>>◌,
}
use engram_mesh.Kernel.Datetime.{Datetime, instant_of}
use engram_mesh.Kernel.Ids.{ExecutionId, SubjectId}
use engram_mesh.Kernel.TimeKey.{TimeKey, above}
use engram_mesh.Kernel.Cursor.{CursorCodec}
use engram_mesh.Memory.Scope.{MemoryScope, scope_eq}
use engram_mesh.Memory.UnitOfWork.Stream.{is_not_positive}
use engram_mesh.Runtime.Status.{ExecutionStatus}
use engram_mesh.Runtime.Model.{ExecutionSnapshot}
use engram_mesh.Runtime.Database.{CommittedRuntimeState}
use engram_mesh.Runtime.UseCases.{RuntimeAuthorizationRequest, get_execution}

-- `(snapshot.updated_at, snapshot.execution_id.value)`
abbrev pub update_key : ExecutionSnapshot → TimeKey
update_key snapshot = (instant_of snapshot.updated_at, snapshot.execution_id)

-- `state.snapshots.values()`
abbrev pub values : Dict ExecutionId ExecutionSnapshot → List ExecutionSnapshot
values snapshots = map (λ entry. entry.1) snapshots

-- The rows of the scope, the latest update first.
abbrev pub scope_rows : MemoryScope → CommittedRuntimeState → List ExecutionSnapshot
scope_rows scope state =
    sorted update_key above (keep (λ s. s.scope == scope) (values state.snapshots))

unfoldable pub stream :
    CursorCodec
    → MemoryScope
    → Option ℤ
    → Option String
    → CommittedRuntimeState
    → Result (List ExecutionSnapshot)
stream codec scope limit cursor state = do
  raise_if (is_some cursor && is_none limit) (value_error "cursor requires limit")
  raise_if (is_not_positive limit) (value_error "limit must be positive")
  elim cursor [
    | none ↦ ok (cut limit (scope_rows scope state))
    | some text ↦ codec.decode text >>= λ (at, id).
        ok (cut limit (behind update_key above (instant_of at, id) (scope_rows scope state)))
  ]

pub record ListExecutionsQuery : Type 0 where
  pub actor_id : SubjectId
  pub scope : MemoryScope
  pub limit : ℤ
  pub cursor : Option String

-- The constructor.
unfoldable pub list_executions_query : ListExecutionsQuery → Result ListExecutionsQuery
list_executions_query query = do
  raise_if (leb_ℤ query.limit (pos 0) || ltb_ℤ (pos 100) query.limit)
      (value_error "limit must be between 1 and 100")
  ok query

pub record ExecutionListItem : Type 0 where
  pub execution_id : ExecutionId
  pub scope : MemoryScope
  pub revision : ℤ
  pub status : ExecutionStatus
  pub updated_at : Datetime

unfoldable pub to_item : ExecutionSnapshot → ExecutionListItem
to_item snapshot = record {
  execution_id = snapshot.execution_id;
  scope = snapshot.scope;
  revision = snapshot.revision;
  status = snapshot.status;
  updated_at = snapshot.updated_at;
}

abbrev pub list_request : ListExecutionsQuery → RuntimeAuthorizationRequest
list_request query = record {
  actor_id = query.actor_id;
  scope = query.scope;
  action = get_execution;
}

-- The snapshots of the page and the next cursor.
unfoldable pub page_of_snapshots :
    CursorCodec
    → (RuntimeAuthorizationRequest → Bool)
    → ListExecutionsQuery
    → CommittedRuntimeState
    → Result (List ExecutionSnapshot × Option String)
page_of_snapshots codec authorize query state = do
  raise_if (not (authorize (list_request query))) execution_authorization_denied
  stream codec query.scope (some (query.limit +ℤ pos 1)) query.cursor state >>= λ rows.
      page (λ s. codec.encode s.updated_at s.execution_id) query.limit rows

unfoldable pub handle :
    CursorCodec
    → (RuntimeAuthorizationRequest → Bool)
    → ListExecutionsQuery
    → CommittedRuntimeState
    → Result (List ExecutionListItem × Option String)
unfolding to_item page_of_snapshots
handle codec authorize query state =
    page_of_snapshots codec authorize query state >>= λ (rows, next). ok (map to_item rows, next)
