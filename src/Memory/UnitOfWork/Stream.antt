-- ===== src/Memory/UnitOfWork/Stream.antt =====
-- `stream` of the episode store: the episodes of a scope by time of ingestion, from behind a cursor.
use engram_mesh.Common.{
  String, Bool, false, ◌&&◌, Option, none, some, is_some, is_none, List, keep, ◌==◌,
}
use engram_mesh.Common.Int.{ℤ, pos, leb_ℤ}
use engram_mesh.Common.Keyset.{sorted, behind}
use engram_mesh.Common.Slice.{cut}
use engram_mesh.Common.Result.{ok, value_error, raise_if, ◌>>=◌, ◌>>◌}
use engram_mesh.Kernel.Datetime.{instant_of}
use engram_mesh.Kernel.TimeKey.{TimeKey, below}
use engram_mesh.Kernel.Cursor.{CursorCodec}
use engram_mesh.Memory.Scope.{MemoryScope, scope_eq}
use engram_mesh.Memory.Episode.{Episode}
use engram_mesh.Memory.UnitOfWork.{Method, require_usable}

-- `(episode.ingested_at, episode.id.value)`
abbrev pub ingestion_key : Episode → TimeKey
ingestion_key episode = (instant_of episode.ingested_at, episode.id)

abbrev pub scope_rows : MemoryScope → List Episode → List Episode
scope_rows scope episodes = sorted ingestion_key below (keep (λ e. e.scope == scope) episodes)

abbrev pub is_not_positive : Option ℤ → Bool
is_not_positive none = false
is_not_positive (some limit) = leb_ℤ limit (pos 0)

unfoldable pub stream : CursorCodec → MemoryScope → Option ℤ → Option String → Method (List Episode)
stream codec scope limit cursor state = do
  require_usable state
  raise_if (is_some cursor && is_none limit) (value_error "cursor requires limit")
  raise_if (is_not_positive limit) (value_error "limit must be positive")
  elim cursor [
    | none ↦ ok (cut limit (scope_rows scope state.episodes), state)
    | some text ↦ codec.decode text >>= λ (at, id). ok (
      cut limit (behind ingestion_key below (instant_of at, id) (scope_rows scope state.episodes)),
      state,
    )
  ]
