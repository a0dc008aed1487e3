-- ===== src/Kernel/Parse.antt =====
-- What decoders ask of payloads: the fields of a JSON object, and the texts that Python's `UUID` and
-- `datetime.fromisoformat` read.
use engram_mesh.Common.{String, false, Option, none, some, ◌==◌, string_eq, if◌then◌else◌}
use engram_mesh.Common.Result.{Result, ok, err, type_error, key_error, ◌>>=◌, ◌>>◌}
use engram_mesh.Common.Int.{ℤ}
use engram_mesh.Kernel.Ids.{UuidValue}
use engram_mesh.Kernel.Datetime.{Datetime, require_aware}
use engram_mesh.Kernel.Json.{Value, null, int, str, mapping, Fields, end, field, text, other_key}

-- `UUID(text)` and `datetime.fromisoformat(text)`: a ValueError where the text is none.
pub record TextParsers : Type 0 where
  pub uuid : String → Result UuidValue
  pub fromisoformat : String → Result Datetime

-- `fields.get(name)`; None where there is no such field.
abbrev pub field_of : String → Fields → Option Value
field_of name end = none
field_of name (field (text key) value fields) =
    let rest = field_of name fields in if name == key then some value else rest
field_of name (field other_key value fields) = field_of name fields

-- `fields[name]`
abbrev pub require_field : String → Fields → Result Value
require_field name fields = elim (field_of name fields) [ none ↦ err key_error | some v ↦ ok v ]

-- `fields.get(name)`
abbrev pub get_or_null : String → Fields → Value
get_or_null name fields = elim (field_of name fields) [ none ↦ null | some v ↦ v ]

-- `fields[name] = value`
abbrev pub set_field : String → Value → Fields → Fields
set_field name value end = field (text name) value end
set_field name value (field (text key) old fields) =
    let rest = set_field name value fields in
    if name == key then field (text key) value fields else field (text key) old rest
set_field name value (field other_key old fields) =
    field other_key old (set_field name value fields)

abbrev pub require_dict : Value → Result Fields
require_dict (mapping false fields) = ok fields
require_dict _ = err (type_error "value must be a mapping")

abbrev pub require_str : Value → Result String
require_str (str s) = ok s
require_str _ = err (type_error "value must be a string")

abbrev pub require_int : Value → Result ℤ
require_int (int n) = ok n
require_int _ = err (type_error "value must be an integer")

module _ (parsers : TextParsers) where
  abbrev pub parse_uuid_value : Value → Result UuidValue
  parse_uuid_value value = require_str value >>= parsers.uuid

  abbrev pub parse_optional_uuid_value : Value → Result (Option UuidValue)
  parse_optional_uuid_value null = ok none
  parse_optional_uuid_value value = parse_uuid_value value >>= λ u. ok (some u)

  abbrev pub parse_datetime : Value → String → Result Datetime
  parse_datetime value field_name = require_str value >>= λ s.
      parsers.fromisoformat s >>= λ parsed. require_aware parsed field_name >> ok parsed
