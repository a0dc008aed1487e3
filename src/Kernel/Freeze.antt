-- ===== src/Kernel/Freeze.antt =====
-- The walkers of Python values: `_freeze_json_value` (shared/kernel/events.py and
-- modules/runtime/domain/model.py), `_freeze_schema_value` (modules/memory/domain/model.py) and
-- `_canonical_effect_value` (modules/runtime/domain/model.py). They differ in what they build and in
-- whether they look at floats. The place of a fault, which the source puts in front of a message,
-- is left out.
pub mod Laws
use engram_mesh.Common.{Bool, true, false, not, ◌&&◌, if◌then◌else◌}
use engram_mesh.Common.Result.{Result, ok, err, type_error, value_error, raise_if, ◌>>=◌, ◌>>◌}
use engram_mesh.Kernel.Json.{
  Float, is_finite, Key, text, other_key, Value, null, bool, int, float, str, mapping, sequence,
  other, Fields, end, field, Items, nil, item, is_mapping,
}

-- A dict's keys are distinct, so that writing them one after another keeps their order.
unfoldable mutual
  unfolding is_finite

  pub walk : (frozen finite_only : Bool) → Value → Result Value
  walk frozen finite_only (mapping _ fields) = do
    walked ← walk_fields frozen finite_only fields
    ok (mapping frozen walked)
  walk frozen finite_only (sequence _ items) = do
    walked ← walk_items frozen finite_only items
    ok (sequence frozen walked)
  walk frozen finite_only (float x) = do
    raise_if (finite_only && not (is_finite x)) (value_error "must contain only finite numbers")
    ok (float x)
  walk frozen finite_only null = ok null
  walk frozen finite_only (bool b) = ok (bool b)
  walk frozen finite_only (int n) = ok (int n)
  walk frozen finite_only (str s) = ok (str s)
  walk frozen finite_only other = err (type_error "contains unsupported value type")

  pub walk_fields : (frozen finite_only : Bool) → Fields → Result Fields
  walk_fields frozen finite_only end = ok end
  walk_fields frozen finite_only (field (text k) v fields) = do
    walked ← walk frozen finite_only v
    rest ← walk_fields frozen finite_only fields
    ok (field (text k) walked rest)
  walk_fields frozen finite_only (field other_key v fields) =
      err (type_error "keys must be strings")

  pub walk_items : (frozen finite_only : Bool) → Items → Result Items
  walk_items frozen finite_only nil = ok nil
  walk_items frozen finite_only (item v items) = do
    walked ← walk frozen finite_only v
    rest ← walk_items frozen finite_only items
    ok (item walked rest)

-- `_freeze_json_value`, in both of its copies.
unfoldable pub freeze_json_value : Value → Result Value
unfolding walk
freeze_json_value = walk true true

-- `_freeze_schema_value`, which takes floats as they are.
unfoldable pub freeze_schema_value : Value → Result Value
unfolding walk
freeze_schema_value = walk true false

-- `_canonical_effect_value`, which builds plain dicts and lists.
unfoldable pub canonical_effect_value : Value → Result Value
unfolding walk
canonical_effect_value = walk false true

-- `_freeze_schema` of modules/runtime/domain/model.py.
unfoldable pub freeze_schema : Value → Result Value
freeze_schema schema = do
  frozen ← freeze_json_value schema
  raise_if (not (is_mapping frozen)) (type_error "must be a mapping")
  ok frozen
