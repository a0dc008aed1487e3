-- ===== src/Common/Keyset/Order.antt =====
-- A stable sort by a strict order of keys, and the rows that lie behind one of them.
use mathlib.Core.Path.{◌≡◌, refl, ap}
use mathlib.Core.Logic.{◌≢◌, ◌⊎◌, ◌↔◌, inl, inr}
use mathlib.Core.Bool.{Bool, true, false}
use mathlib.Core.List.{List, [], ◌∷◌, ◌++◌}
use engram_mesh.Common.Tests.{if◌then◌else◌, Bool-cases}
use engram_mesh.Common.Lists.{All, Among, keep}

-- A test that orders keys strictly.
pub record IsStrictOrder {κ} {K : Type κ} (before : K → K → Bool) : Type κ where
  pub irreflexive : (a : K) → before a a ≡ false
  pub transitive : (a b c : K) → before a b ≡ true → before b c ≡ true → before a c ≡ true
  pub connected : (a b : K) → before a b ≡ false → before b a ≡ false → a ≡ b

module _ {ℓ κ} {A : Type ℓ} {K : Type κ} (key : A → K) (before : K → K → Bool) where
  -- Rows of one key keep their order: a row goes in front of the first row that is not before it.
  abbrev pub insert_sorted : A → List A → List A
  insert_sorted x [] = x ∷ []
  insert_sorted x (y ∷ ys) = if before (key y) (key x) then y ∷ insert_sorted x ys else x ∷ y ∷ ys

  abbrev pub sorted : List A → List A
  sorted [] = []
  sorted (x ∷ xs) = insert_sorted x (sorted xs)

  -- The rows strictly behind a key.
  abbrev pub behind : K → List A → List A
  behind k = keep (λ y. before k (key y))

  -- Each row is strictly before all that follow it.
  abbrev pub IsIncreasing : List A → Type ℓ
  IsIncreasing [] = Unit
  IsIncreasing (x ∷ xs) = All (λ y. before (key x) (key y) ≡ true) xs × IsIncreasing xs

  -- No two rows have one key.
  abbrev pub HasDistinctKeys : List A → Type (ℓ ⊔ κ)
  HasDistinctKeys [] = Unit
  HasDistinctKeys (x ∷ xs) = All (λ y. key x ≢ key y) xs × HasDistinctKeys xs

  All-insert_sorted {μ} :
      (P : A → Type μ) (x : A) (ys : List A) → P x → All P ys → All P (insert_sorted x ys)
  All-insert_sorted P x [] p ps = (p, tt)
  All-insert_sorted P x (y ∷ ys) p ps =
      if_either (before (key y) (key x)) (ps.0, All-insert_sorted P x ys p ps.1) (p, ps)
    where
      if_either :
          (b : Bool)
          → All P (y ∷ insert_sorted x ys)
          → All P (x ∷ y ∷ ys)
          → All P (if b then y ∷ insert_sorted x ys else x ∷ y ∷ ys)
      if_either true yes_ no_ = yes_
      if_either false yes_ no_ = no_

  pub All-sorted {μ} : (P : A → Type μ) (xs : List A) → All P xs → All P (sorted xs)
  All-sorted P [] ps = tt
  All-sorted P (x ∷ xs) ps = All-insert_sorted P x (sorted xs) ps.0 (All-sorted P xs ps.1)

  Among-insert_sorted :
      (z x : A) (ys : List A) → Among z (insert_sorted x ys) ↔ (z ≡ x) ⊎ Among z ys
  Among-insert_sorted z x [] = (λ h. h, λ h. h)
  Among-insert_sorted z x (y ∷ ys) =
      let (to, from) = Among-insert_sorted z x ys in
      elim (Bool-cases (before (key y) (key x))) [
        | inr first ↦ rw first (λ h. h, λ h. h)
        | inl after ↦ rw after (
          λ h. elim h [
            | inl is_y ↦ inr (inl is_y)
            | inr later ↦ elim (to later) [ inl is_x ↦ inl is_x | inr there ↦ inr (inr there) ]
          ],
          λ h. elim h [
            | inl is_x ↦ inr (from (inl is_x))
            | inr (inl is_y) ↦ inl is_y
            | inr (inr there) ↦ inr (from (inr there))
          ],
        )
      ]

  -- Sorting loses and adds nothing.
  pub Among-sorted : (z : A) (xs : List A) → Among z (sorted xs) ↔ Among z xs
  Among-sorted z [] = (λ h. h, λ h. h)
  Among-sorted z (x ∷ xs) =
      let (to, from) = Among-insert_sorted z x (sorted xs) in
      let (there, back) = Among-sorted z xs in
      (
        λ h. elim (to h) [ inl is_x ↦ inl is_x | inr later ↦ inr (there later) ],
        λ h. elim h [ inl is_x ↦ from (inl is_x) | inr later ↦ from (inr (back later)) ],
      )

  module _ (order : IsStrictOrder before) where
    before-All :
        (x y : A) (ys : List A)
        → before (key x) (key y) ≡ true
        → All (λ z. before (key y) (key z) ≡ true) ys
        → All (λ z. before (key x) (key z) ≡ true) ys
    before-All x y [] h a = tt
    before-All x y (z ∷ zs) h a =
        (order.transitive (key x) (key y) (key z) h a.0, before-All x y zs h a.1)

    insert_sorted-IsIncreasing :
        (x : A) (ys : List A)
        → IsIncreasing ys
        → All (λ y. key x ≢ key y) ys
        → IsIncreasing (insert_sorted x ys)
    insert_sorted-IsIncreasing x [] inc d = (tt, tt)
    insert_sorted-IsIncreasing x (y ∷ ys) inc d = elim (Bool-cases (before (key y) (key x))) [
      | inl after ↦ rw after (
        All-insert_sorted (λ z. before (key y) (key z) ≡ true) x ys after inc.0,
        insert_sorted-IsIncreasing x ys inc.1 d.1,
      )
      | inr not_after ↦ elim (Bool-cases (before (key x) (key y))) [
        | inl first ↦ rw not_after ((first, before-All x y ys first inc.0), inc)
        | inr neither ↦ absurd (d.0 (order.connected (key x) (key y) neither not_after))
      ]
    ]

    pub sorted-IsIncreasing : (xs : List A) → HasDistinctKeys xs → IsIncreasing (sorted xs)
    sorted-IsIncreasing [] d = tt
    sorted-IsIncreasing (x ∷ xs) d =
        insert_sorted-IsIncreasing x (sorted xs) (sorted-IsIncreasing xs d.1)
          (All-sorted (λ y. key x ≢ key y) xs d.0)

    behind-All :
        (x : A) (ys : List A) → All (λ y. before (key x) (key y) ≡ true) ys → behind (key x) ys ≡ ys
    behind-All x [] a = refl
    behind-All x (y ∷ ys) a = rw a.0 (ap (λ l. y ∷ l) (behind-All x ys a.1))

    All-middle :
        (x y : A) (pre post : List A)
        → All (λ z. before (key y) (key z) ≡ true) (pre ++ x ∷ post)
        → before (key y) (key x) ≡ true
    All-middle x y [] post a = a.0
    All-middle x y (z ∷ pre) post a = All-middle x y pre post a.1

    -- In an increasing list what lies behind a row's key is what follows the row.
    pub behind-append :
        (pre : List A) (x : A) (post : List A)
        → IsIncreasing (pre ++ x ∷ post)
        → behind (key x) (pre ++ x ∷ post) ≡ post
    behind-append [] x post inc = rw (order.irreflexive (key x)) (behind-All x post inc.0)
    behind-append (y ∷ pre) x post inc = elim (Bool-cases (before (key x) (key y))) [
      | inr not_behind ↦ rw not_behind (behind-append pre x post inc.1)
      | inl behind_it ↦
          let round =
            order.transitive (key y) (key x) (key y) (All-middle x y pre post inc.0) behind_it in
          absurd (cc (order.irreflexive (key y)))
    ]
