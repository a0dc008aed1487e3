-- ===== src/Kernel/Datetime.antt =====
-- Python's `datetime`. A value is naive (no tzinfo, or one whose `utcoffset` is None) or aware.
-- Times are microseconds from 0001-01-01T00:00.
use Prim.Native.String.{◌++◌}
use engram_mesh.Common.{
  ℕ, ◌+◌, ◌/◌, ◌%◌, String, Bool, true, false, not, ◌&&◌, Option, none, some, eqb, ltb,
  if◌then◌else◌, ◌≡◌, refl, arith,
}
use engram_mesh.Common.Int.{ℤ, pos, negsuc, pos_part, neg_part, ◌+ℤ◌, ltb_ℤ, leb_ℤ, eqb_ℤ}
use engram_mesh.Common.Result.{Result, ok, err, value_error, overflow_error, raise_if, ◌>>◌}
use engram_mesh.Kernel.Text.{digits_of}
use engram_mesh.Kernel.Calendar.{wall_text}

pub data Datetime : Type 0 where
  naive : (wall : ℕ) → Datetime
  aware : (instant offset : ℤ) → Datetime

abbrev pub is_aware : Datetime → Bool
is_aware (naive wall) = false
is_aware (aware instant offset) = true

-- The time on the UTC axis, by which aware values are compared. A naive value is compared by its
-- clock, and with naive values only.
abbrev pub instant_of : Datetime → ℤ
instant_of (naive wall) = pos wall
instant_of (aware instant offset) = instant

-- `a == b`: by the instant, whatever the offsets; a naive value equals no aware one.
abbrev pub same_time : Datetime → Datetime → Bool
same_time (naive a) (naive b) = eqb a b
same_time (aware a _) (aware b _) = eqb_ℤ a b
same_time _ _ = false

abbrev pub same_optional_time : Option Datetime → Option Datetime → Bool
same_optional_time none none = true
same_optional_time (some a) (some b) = same_time a b
same_optional_time _ _ = false

-- `a < b` and `a <= b` of two aware, or two naive, values.
abbrev pub earlier : Datetime → Datetime → Bool
earlier a b = ltb_ℤ (instant_of a) (instant_of b)

abbrev pub not_later : Datetime → Datetime → Bool
not_later a b = leb_ℤ (instant_of a) (instant_of b)

-- One past the last microsecond of 9999-12-31.
abbrev pub datetime_end : ℕ
datetime_end = 315_537_897_600_000_000

in_range : ℤ → Bool
in_range (pos n) = ltb n datetime_end
in_range (negsuc n) = false

-- `value.astimezone(UTC)` of an aware value: it overflows where the UTC clock leaves the years 1 to 9999.
unfoldable pub astimezone_utc : Datetime → Result Datetime
unfolding in_range
astimezone_utc (naive wall) = ok (naive wall)
astimezone_utc (aware instant offset) =
    if in_range instant then ok (aware instant (pos 0)) else err overflow_error

-- `_require_aware` of the domain models and the contracts.
unfoldable pub require_aware : Datetime → String → Result (Unit {0})
require_aware value field_name =
    raise_if (not (is_aware value)) (value_error (field_name ++ " must be timezone-aware"))

unfoldable pub require_optional_aware : Option Datetime → String → Result (Unit {0})
unfolding require_aware
require_optional_aware none field_name = ok tt
require_optional_aware (some value) field_name = require_aware value field_name

-- `_canonical_utc` of record_episode.py and of the cursors.
unfoldable pub canonical_utc : Datetime → String → Result Datetime
unfolding astimezone_utc require_aware
canonical_utc value field_name = do require_aware value field_name; astimezone_utc value

-- A canonical time is aware, in UTC, and the same instant.
pub canonical_utc-same :
    (value : Datetime) (name : String) {utc : Datetime}
    → canonical_utc value name ≡ ok utc
    → (is_aware value ≡ true) × (utc ≡ aware (instant_of value) (pos 0))
unfolding canonical_utc
canonical_utc-same (naive wall) name h = ground arith
canonical_utc-same (aware instant offset) name h = ground arith

-- `+HH:MM[:SS[.ffffff]]` of an offset in microseconds.
offset_text : ℤ → String
offset_text offset =
    let size = pos_part offset + neg_part offset in
    let seconds = size / 1_000_000 in
    let fraction = size % 1_000_000 in
    (if ltb_ℤ offset (pos 0) then "-" else "+")
    ++ (digits_of 10 2 (seconds / 3600)
        ++ (":"
            ++ (digits_of 10 2 (seconds / 60 % 60)
                ++ (if eqb (seconds % 60) 0 && eqb fraction 0
                    then ""
                    else ":"
                      ++ (digits_of 10 2 (seconds % 60)
                          ++ (if eqb fraction 0 then "" else "." ++ digits_of 10 6 fraction))))))

-- `value.isoformat()`
unfoldable pub isoformat : Datetime → String
unfolding wall_text offset_text ◌+ℤ◌
isoformat (naive wall) = wall_text wall
isoformat (aware instant offset) = wall_text (pos_part (instant +ℤ offset)) ++ offset_text offset

isoformat_negative_offset :
    isoformat (aware (pos 63_745_056_000_000_000) (negsuc 5_399_999_999))
    ≡ "2020-12-31T22:30:00-01:30"
unfolding isoformat digits_of
isoformat_negative_offset = refl
