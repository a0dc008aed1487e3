-- ===== src/Common/Lists.antt =====
-- Lists measured by native numbers, Python's `all`, `any`, slices and `next`, and predicates on lists.
use Prim.Native.Nat.{ℕ, zero, suc, ◌+◌, min}
use mathlib.Core.Path.{◌≡◌, refl, ap, sym, ◌∙◌}
use mathlib.Core.Logic.{Lift, ◌⊎◌, inl, inr, ◌↔◌}
use mathlib.Core.Bool.{Bool, true, false, ◌||◌}
use mathlib.Core.List.{List, [], ◌∷◌, ◌++◌}
use mathlib.Core.Option.{Option, none, some}
use native.Mathlib.Omega.{arith}
use engram_mesh.Common.Tests.{if◌then◌else◌, Bool-cases}

module _ {ℓ} {A : Type ℓ} where
  abbrev pub length : List A → ℕ
  length [] = 0
  length (x ∷ xs) = suc (length xs)

  abbrev pub take : ℕ → List A → List A
  take zero xs = []
  take (suc n) [] = []
  take (suc n) (x ∷ xs) = x ∷ take n xs

  abbrev pub drop : ℕ → List A → List A
  drop zero xs = xs
  drop (suc n) [] = []
  drop (suc n) (x ∷ xs) = drop n xs

  -- `xs[-1]`, which raises an IndexError for an empty sequence.
  abbrev pub last : List A → Option A
  last [] = none
  last (x ∷ []) = some x
  last (x ∷ y ∷ ys) = last (y ∷ ys)

  -- `next((x for x in xs if p(x)), None)`
  abbrev pub find : (A → Bool) → List A → Option A
  find p [] = none
  find p (x ∷ xs) = if p x then some x else find p xs

  -- `[x for x in xs if p(x)]`
  abbrev pub keep : (A → Bool) → List A → List A
  keep p [] = []
  keep p (x ∷ xs) = if p x then x ∷ keep p xs else keep p xs

  abbrev pub any : (A → Bool) → List A → Bool
  any p [] = false
  any p (x ∷ xs) = p x || any p xs

  abbrev pub is_empty : List A → Bool
  is_empty [] = true
  is_empty (x ∷ xs) = false

  -- The predicate holds of each element.
  abbrev pub All {μ} : (A → Type μ) → List A → Type μ
  All Holds [] = Unit
  All Holds (x ∷ xs) = Holds x × All Holds xs

  pub All-keep {μ} : (P : A → Type μ) (p : A → Bool) (xs : List A) → All P xs → All P (keep p xs)
  All-keep P p [] all = tt
  All-keep P p (x ∷ xs) all = elim (Bool-cases (p x)) [
    | inl kept ↦ rw kept (all.0, All-keep P p xs all.1)
    | inr dropped ↦ rw dropped (All-keep P p xs all.1)
  ]

  pub All-map {μ ν} :
      (P : A → Type μ) (Q : A → Type ν) (xs : List A) → ((x : A) → P x → Q x) → All P xs → All Q xs
  All-map P Q [] f all = tt
  All-map P Q (x ∷ xs) f all = (f x all.0, All-map P Q xs f all.1)

  -- The element stands in the list.
  abbrev pub Among : A → List A → Type ℓ
  Among x [] = Lift {0, ℓ} ⊥
  Among x (y ∷ ys) = (x ≡ y) ⊎ Among x ys

  pub Among-keep :
      (p : A → Bool) (x : A) (xs : List A) → Among x (keep p xs) ↔ Among x xs × (p x ≡ true)
  Among-keep p x [] = (λ h. absurd h.lower, λ h. absurd h.0.lower)
  Among-keep p x (y ∷ ys) = elim (Bool-cases (p y)) [
    | inl kept ↦ rw kept (
      λ h. elim h [
        | inl here ↦ (inl here, ap p here ∙ kept)
        | inr there ↦ let (i, t) = (Among-keep p x ys).0 there in (inr i, t)
      ],
      λ (i, t). elim i [ inl here ↦ inl here | inr there ↦ inr ((Among-keep p x ys).1 (there, t)) ],
    )
    | inr dropped ↦ rw dropped (
      λ h. (let (i, t) = (Among-keep p x ys).0 h in (inr i, t)),
      λ (i, t). elim i [
        | inl here ↦ absurd (cc (sym t ∙ ap p here ∙ dropped))
        | inr there ↦ (Among-keep p x ys).1 (there, t)
      ],
    )
  ]

  pub length-append : (xs ys : List A) → length (xs ++ ys) ≡ length xs + length ys
  length-append [] ys = omega arith
  length-append (x ∷ xs) ys = omega (arith, length-append xs ys)

  pub length-take : (n : ℕ) (xs : List A) → length (take n xs) ≡ min n (length xs)
  length-take zero xs = omega arith
  length-take (suc n) [] = omega arith
  length-take (suc n) (x ∷ xs) = omega (arith, length-take n xs)

  pub find-append :
      (p : A → Bool) (xs ys : List A) → find p xs ≡ none → find p (xs ++ ys) ≡ find p ys
  find-append p [] ys h = refl
  find-append p (x ∷ xs) ys h = ground (arith, find-append p xs ys)

  pub find-append_of_some :
      (p : A → Bool) (xs ys : List A) (a : A) → find p xs ≡ some a → find p (xs ++ ys) ≡ some a
  find-append_of_some p [] ys a h = ground arith
  find-append_of_some p (x ∷ xs) ys a h = ground (arith, find-append_of_some p xs ys a)

  pub find-holds : (p : A → Bool) (xs : List A) (a : A) → find p xs ≡ some a → p a ≡ true
  find-holds p [] a h = ground arith
  find-holds p (x ∷ xs) a h = ground (arith, find-holds p xs a)
