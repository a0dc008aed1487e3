-- ===== src/Kernel/Freeze/Laws.antt =====
-- What the walkers keep of a value.
use engram_mesh.Common.{Bool, true, false, ◌≡◌, ◌∙◌, arith}
use engram_mesh.Common.Result.{ok, returned}
use engram_mesh.Kernel.Json.{
  is_finite, text, other_key, Value, null, bool, int, float, str, mapping, sequence, other, Fields,
  end, field, Items, nil, item, IsFrozen, IsFrozenFields, IsFrozenItems,
}
use engram_mesh.Kernel.Freeze.{
  walk, walk_fields, walk_items, freeze_json_value, freeze_schema_value, canonical_effect_value,
}

-- A second walk, of whatever kind, sees no difference between a value and its first walk.
mutual
  unfolding walk walk_fields walk_items is_finite

  walk-walk : (a b c d : Bool) (v : Value) {w : Value} → walk a b v ≡ ok w → walk c d w ≡ walk c d v
  walk-walk a b c d (mapping f fields) h =
      let (gs, e, k) = returned (walk_fields a b fields) (λ gs. ok (mapping a gs)) h in
      ground (arith, walk_fields-walk_fields a b c d fields e)
  walk-walk a b c d (sequence f items) h =
      let (gs, e, k) = returned (walk_items a b items) (λ gs. ok (sequence a gs)) h in
      ground (arith, walk_items-walk_items a b c d items e)
  walk-walk a b c d (float x) h = ground arith
  walk-walk a b c d null h = ground arith
  walk-walk a b c d (bool x) h = ground arith
  walk-walk a b c d (int x) h = ground arith
  walk-walk a b c d (str x) h = ground arith
  walk-walk a b c d other h = ground arith

  walk_fields-walk_fields :
      (a b c d : Bool) (v : Fields) {w : Fields}
      → walk_fields a b v ≡ ok w
      → walk_fields c d w ≡ walk_fields c d v
  walk_fields-walk_fields a b c d end h = ground arith
  walk_fields-walk_fields a b c d (field (text k) v fields) h =
      let (w, e, h') = returned (walk a b v) _ h in
      let (ws, es, h'') = returned (walk_fields a b fields) _ h' in
      ground (arith, walk-walk a b c d v e, walk_fields-walk_fields a b c d fields es)
  walk_fields-walk_fields a b c d (field other_key v fields) h = ground arith

  walk_items-walk_items :
      (a b c d : Bool) (v : Items) {w : Items}
      → walk_items a b v ≡ ok w
      → walk_items c d w ≡ walk_items c d v
  walk_items-walk_items a b c d nil h = ground arith
  walk_items-walk_items a b c d (item v items) h =
      let (w, e, h') = returned (walk a b v) _ h in
      let (ws, es, h'') = returned (walk_items a b items) _ h' in
      ground (arith, walk-walk a b c d v e, walk_items-walk_items a b c d items es)

mutual
  unfolding walk walk_fields walk_items is_finite

  walk-IsFrozen : (b : Bool) (v : Value) {w : Value} → walk true b v ≡ ok w → IsFrozen w
  walk-IsFrozen b (mapping f fields) h =
      let (gs, e, k) = returned (walk_fields true b fields) (λ gs. ok (mapping true gs)) h in
      ground (arith, walk_fields-IsFrozenFields b fields e)
  walk-IsFrozen b (sequence f items) h =
      let (gs, e, k) = returned (walk_items true b items) (λ gs. ok (sequence true gs)) h in
      ground (arith, walk_items-IsFrozenItems b items e)
  walk-IsFrozen b (float x) h = ground arith
  walk-IsFrozen b null h = ground arith
  walk-IsFrozen b (bool x) h = ground arith
  walk-IsFrozen b (int x) h = ground arith
  walk-IsFrozen b (str x) h = ground arith
  walk-IsFrozen b other h = ground arith

  walk_fields-IsFrozenFields :
      (b : Bool) (v : Fields) {w : Fields} → walk_fields true b v ≡ ok w → IsFrozenFields w
  walk_fields-IsFrozenFields b end h = ground arith
  walk_fields-IsFrozenFields b (field (text k) v fields) h =
      let (w, e, h') = returned (walk true b v) _ h in
      let (ws, es, h'') = returned (walk_fields true b fields) _ h' in
      ground (arith, walk-IsFrozen b v e, walk_fields-IsFrozenFields b fields es)
  walk_fields-IsFrozenFields b (field other_key v fields) h = ground arith

  walk_items-IsFrozenItems :
      (b : Bool) (v : Items) {w : Items} → walk_items true b v ≡ ok w → IsFrozenItems w
  walk_items-IsFrozenItems b nil h = ground arith
  walk_items-IsFrozenItems b (item v items) h =
      let (w, e, h') = returned (walk true b v) _ h in
      let (ws, es, h'') = returned (walk_items true b items) _ h' in
      ground (arith, walk-IsFrozen b v e, walk_items-IsFrozenItems b items es)

-- A walk that minds floats gives what one that does not mind them gives.
mutual
  unfolding walk walk_fields walk_items is_finite

  walk_relax : (a : Bool) (v : Value) {w : Value} → walk a true v ≡ ok w → walk a false v ≡ ok w
  walk_relax a (mapping f fields) h =
      let (gs, e, k) = returned (walk_fields a true fields) (λ gs. ok (mapping a gs)) h in
      ground (arith, walk_fields_relax a fields e)
  walk_relax a (sequence f items) h =
      let (gs, e, k) = returned (walk_items a true items) (λ gs. ok (sequence a gs)) h in
      ground (arith, walk_items_relax a items e)
  walk_relax a (float x) h = ground arith
  walk_relax a null h = ground arith
  walk_relax a (bool x) h = ground arith
  walk_relax a (int x) h = ground arith
  walk_relax a (str x) h = ground arith
  walk_relax a other h = ground arith

  walk_fields_relax :
      (a : Bool) (v : Fields) {w : Fields}
      → walk_fields a true v ≡ ok w
      → walk_fields a false v ≡ ok w
  walk_fields_relax a end h = ground arith
  walk_fields_relax a (field (text k) v fields) h =
      let (w, e, h') = returned (walk a true v) _ h in
      let (ws, es, h'') = returned (walk_fields a true fields) _ h' in
      ground (arith, walk_relax a v e, walk_fields_relax a fields es)
  walk_fields_relax a (field other_key v fields) h = ground arith

  walk_items_relax :
      (a : Bool) (v : Items) {w : Items} → walk_items a true v ≡ ok w → walk_items a false v ≡ ok w
  walk_items_relax a nil h = ground arith
  walk_items_relax a (item v items) h =
      let (w, e, h') = returned (walk a true v) _ h in
      let (ws, es, h'') = returned (walk_items a true items) _ h' in
      ground (arith, walk_relax a v e, walk_items_relax a items es)

-- A payload that `_freeze_json_value` accepts comes out with every container immutable and every key
-- a text; freezing the result again gives it back; `_canonical_effect_value` gives the same for the
-- frozen payload as for the one that was handed in, so an effect identifier does not depend on which
-- of them it is derived from; and `_freeze_schema_value` gives the same frozen payload.
pub freeze_json_value-stable :
    (value : Value) {frozen : Value}
    → freeze_json_value value ≡ ok frozen
    → IsFrozen frozen
      × (freeze_json_value frozen ≡ ok frozen)
      × (canonical_effect_value frozen ≡ canonical_effect_value value)
      × (freeze_schema_value value ≡ ok frozen)
unfolding freeze_json_value canonical_effect_value freeze_schema_value
freeze_json_value-stable value h = (
  walk-IsFrozen true value h,
  walk-walk true true true true value h ∙ h,
  walk-walk true true false true value h,
  walk_relax true value h,
)
