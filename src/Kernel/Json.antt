-- ===== src/Kernel/Json.antt =====
-- Python values as the JSON walkers of the source meet them.
use engram_mesh.Common.{String, Bool, true, false}
use engram_mesh.Common.Int.{ℤ}

-- A double: a finite one is a whole number of units of 2^-1074, the least positive double.
pub data Float : Type 0 where
  nan : Float
  infinite : (negative : Bool) → Float
  finite : (units : ℤ) → Float

-- `math.isfinite`
unfoldable pub is_finite : Float → Bool
is_finite nan = false
is_finite (infinite negative) = false
is_finite (finite units) = true

-- A mapping's key: a text, or a value of another type.
pub data Key : Type 0 where
  text : String → Key
  other_key : Key

-- `frozen` tells a `MappingProxyType` from a `dict`, and a `tuple` from a `list`.
mutual
  pub data Value : Type 0 where
    null : Value
    bool : Bool → Value
    int : ℤ → Value
    float : Float → Value
    str : String → Value
    mapping : (frozen : Bool) → Fields → Value
    sequence : (frozen : Bool) → Items → Value
    other : Value

  pub data Fields : Type 0 where
    end : Fields
    field : Key → Value → Fields → Fields

  pub data Items : Type 0 where
    nil : Items
    item : Value → Items → Items

-- `isinstance(value, Mapping)`
abbrev pub is_mapping : Value → Bool
is_mapping (mapping frozen fields) = true
is_mapping _ = false

-- Every container is a `MappingProxyType` or a `tuple`, every key a text, and no value unsupported.
abbrev mutual
  pub IsFrozen : Value → Type 0
  IsFrozen (mapping true fields) = IsFrozenFields fields
  IsFrozen (mapping false fields) = ⊥
  IsFrozen (sequence true items) = IsFrozenItems items
  IsFrozen (sequence false items) = ⊥
  IsFrozen null = Unit
  IsFrozen (bool b) = Unit
  IsFrozen (int n) = Unit
  IsFrozen (float x) = Unit
  IsFrozen (str s) = Unit
  IsFrozen other = ⊥

  pub IsFrozenFields : Fields → Type 0
  IsFrozenFields end = Unit
  IsFrozenFields (field (text k) v fields) = IsFrozen v × IsFrozenFields fields
  IsFrozenFields (field other_key v fields) = ⊥

  pub IsFrozenItems : Items → Type 0
  IsFrozenItems nil = Unit
  IsFrozenItems (item v items) = IsFrozen v × IsFrozenItems items
