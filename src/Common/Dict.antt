-- ===== src/Common/Dict.antt =====
-- A Python dict, in insertion order: an association list whose keys are compared by `==`.
use mathlib.Core.Path.{◌≡◌, refl}
use mathlib.Core.Option.{Option, none, some}
use mathlib.Core.List.{List, [], ◌∷◌, ◌++◌}
use native.Mathlib.Omega.{arith}
use engram_mesh.Common.Tests.{if◌then◌else◌}
use engram_mesh.Common.Equality.{Eq, ◌==◌, eq_refl}

abbrev pub Dict {ℓ κ} : Type ℓ → Type κ → Type (ℓ ⊔ κ)
Dict K V = List (K × V)

module _ {ℓ κ} {K : Type ℓ} {V : Type κ} ⦃e : Eq K⦄ where
  -- `d.get(k)`
  abbrev pub lookup : K → Dict K V → Option V
  lookup k [] = none
  lookup k ((j, v) ∷ d) = if k == j then some v else lookup k d

  -- `d[k] = v`
  abbrev pub insert : K → V → Dict K V → Dict K V
  insert k v [] = (k, v) ∷ []
  insert k v ((j, w) ∷ d) = if k == j then (k, v) ∷ d else (j, w) ∷ insert k v d

  pub lookup-insert :
      (j k : K) (v : V) (d : Dict K V)
      → lookup j (insert k v d) ≡ (if j == k then some v else lookup j d)
  lookup-insert j k v [] = refl
  lookup-insert j k v ((i, w) ∷ d) =
      ground (arith, e.same_iff j k, e.same_iff k i, e.same_iff j i, lookup-insert j k v d)

  pub lookup-insert_self : (k : K) (v : V) (d : Dict K V) → lookup k (insert k v d) ≡ some v
  lookup-insert_self k v d = ground (arith, lookup-insert k k v d, eq_refl k)

  pub lookup-insert_other :
      (j k : K) (v : V) (d : Dict K V) → ((j ≡ k) → ⊥) → lookup j (insert k v d) ≡ lookup j d
  lookup-insert_other j k v d other = ground (arith, e.same_iff j k, lookup-insert j k v d)

  -- A new key goes to the end.
  pub insert_of_none :
      (k : K) (v : V) (d : Dict K V) → lookup k d ≡ none → insert k v d ≡ d ++ (k, v) ∷ []
  insert_of_none k v [] h = refl
  insert_of_none k v ((j, w) ∷ d) h = ground (arith, insert_of_none k v d)

  -- The last write counts.
  pub insert-insert : (k : K) (v w : V) (d : Dict K V) → insert k w (insert k v d) ≡ insert k w d
  insert-insert k v w [] = ground (arith, eq_refl k)
  insert-insert k v w ((j, u) ∷ d) = ground (arith, eq_refl k, insert-insert k v w d)
