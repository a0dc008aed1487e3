-- ===== src/Kernel/Cursor.antt =====
-- The codec of list cursors as the lists use it: a text for a time and an identifier, and back.
use engram_mesh.Common.{String, ◌≡◌}
use engram_mesh.Common.Int.{pos}
use engram_mesh.Common.Result.{Result, ok}
use engram_mesh.Kernel.Ids.{UuidValue}
use engram_mesh.Kernel.Datetime.{Datetime, aware, instant_of}

pub record CursorCodec : Type 0 where
  pub encode : Datetime → UuidValue → Result String
  pub decode : String → Result (Datetime × UuidValue)

-- A cursor that the codec gives for a time and an identifier, and that it reads back: the same instant
-- in UTC, and the identifier.
pub record IsCursor (codec : CursorCodec) (time : Datetime) (id : UuidValue) (cursor : String)
    : Type 0 where
  pub written : codec.encode time id ≡ ok cursor
  pub read_back : codec.decode cursor ≡ ok (aware (instant_of time) (pos 0), id)
