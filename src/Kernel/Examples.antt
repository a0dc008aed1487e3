-- ===== src/Kernel/Examples.antt =====
-- A payload with a nested dict and a list, frozen.
use engram_mesh.Common.{true, false, ◌≡◌, refl}
use engram_mesh.Common.Int.{pos}
use engram_mesh.Common.Result.{ok}
use engram_mesh.Kernel.Json.{
  Value, null, int, float, finite, mapping, sequence, field, end, text, item, nil, IsFrozen,
}
use engram_mesh.Kernel.Freeze.{freeze_json_value, freeze_schema_value, canonical_effect_value}
use engram_mesh.Kernel.Freeze.Laws.{freeze_json_value-stable}

abbrev payload : Value
payload = mapping false (
    field (text "a") (sequence false (item (int (pos 1)) (item (float (finite (pos 2))) nil)))
      (field (text "b") (mapping false (field (text "c") null end)) end))

abbrev frozen : Value
frozen = mapping true (
    field (text "a") (sequence true (item (int (pos 1)) (item (float (finite (pos 2))) nil)))
      (field (text "b") (mapping true (field (text "c") null end)) end))

payload_frozen : freeze_json_value payload ≡ ok frozen
unfolding freeze_json_value
payload_frozen = refl

freeze_json_value-stable_example :
    IsFrozen frozen
    × (freeze_json_value frozen ≡ ok frozen)
    × (canonical_effect_value frozen ≡ canonical_effect_value payload)
    × (freeze_schema_value payload ≡ ok frozen)
freeze_json_value-stable_example = freeze_json_value-stable payload payload_frozen
