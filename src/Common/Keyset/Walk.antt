-- ===== src/Common/Keyset/Walk.antt =====
-- A client that asks for page after page until there is no next cursor.
use Prim.Native.Nat.{ℕ, zero, suc, ◌+◌, ◌≤◌, ◌<◌}
use mathlib.Core.Path.{◌≡◌, refl, ap, sym, subst, ◌∙◌}
use mathlib.Core.Logic.{◌⊎◌, inl, inr}
use mathlib.Core.Bool.{Bool, true, false}
use mathlib.Core.Option.{Option, none, some}
use mathlib.Core.List.{List, [], ◌∷◌, ◌++◌, map, map-append, append_assoc}
use native.Mathlib.Omega.{arith}
use engram_mesh.Common.Tests.{if◌then◌else◌, Bool-cases, Option-cases, ltb}
use engram_mesh.Common.Lists.{All, length, take, last, length-take, length-append}
use engram_mesh.Common.Result.{Result, ok, err, ◌>>=◌, Result-cases}
use engram_mesh.Common.Keyset.Order.{IsStrictOrder, IsIncreasing, behind, behind-append}

module _ {ℓ κ} {A : Type ℓ} {C : Type κ} where
  -- None where the fuel runs out.
  unfoldable pub follow :
      ℕ → (Option C → Result (List A × Option C)) → Option C → Option (Result (List A))
  follow zero fetch cursor = none
  follow (suc fuel) fetch cursor = elim (fetch cursor) [
    | err e ↦ some (err e)
    | ok (items, none) ↦ some (ok items)
    | ok (items, some next) ↦ elim (follow fuel fetch (some next)) [
      | none ↦ none
      | some (err e) ↦ some (err e)
      | some (ok rest) ↦ some (ok (items ++ rest))
    ]
  ]

  -- The page of a handler that has asked the store for one row more than the limit.
  abbrev pub page_of : (A → C) → ℕ → List A → List A × Option C
  page_of cursor_of limit rows =
      let found = take (limit + 1) rows in
      if ltb limit (length found)
      then (
        take limit found,
        elim (last (take limit found)) [ none ↦ none | some x ↦ some (cursor_of x) ],
      )
      else (found, none)

the_rows {ℓ} :
    {A : Type ℓ} (xs ys : List A)
    → ◌≡◌ {A = Option (Result (List A))} (some (ok xs)) (some (ok ys))
    → xs ≡ ys
the_rows xs ys h = cc

-- A handler that turns the rows of each page into something else turns all of them.
pub follow-map {ℓ κ μ} :
    {A : Type ℓ} {B : Type μ} {C : Type κ} (f : A → B)
    (fetch : Option C → Result (List A × Option C)) (fuel : ℕ) (cursor : Option C) (rows : List A)
    → follow fuel fetch cursor ≡ some (ok rows)
    → follow fuel (λ c. fetch c >>= λ (items, next). ok (map f items, next)) cursor
      ≡ some (ok (map f rows))
unfolding follow
follow-map f fetch zero cursor rows is = cc
follow-map f fetch (suc fuel) cursor rows is = elim (Result-cases (fetch cursor)) [
  | inl (e, fails) ↦ absurd (ground arith)
  | inr ((items, none), page) ↦
      let same = ap (map f) (the_rows items rows (ground arith)) in ground arith
  | inr ((items, some c), page) ↦ elim (Option-cases (follow fuel fetch (some c))) [
    | inl out ↦ absurd (ground arith)
    | inr (err e, fails) ↦ absurd (ground arith)
    | inr (ok rest, ends) ↦
        let ih = follow-map f fetch fuel (some c) rest ends in
        let whole : items ++ rest ≡ rows = the_rows (items ++ rest) rows (ground arith) in
        let mapped : map f items ++ map f rest ≡ map f rows =
          sym (map-append f items rest) ∙ ap (map f) whole in
        ground arith
  ]
]

module _ {ℓ} {A : Type ℓ} where
  -- A row of the list.
  pub record Split (rows front : List A) (x : A) : Type ℓ where
    pub init : List A
    pub rest : List A
    pub front_is : front ≡ init ++ x ∷ []
    pub rows_are : rows ≡ init ++ x ∷ rest

  Split-at :
      (n : ℕ) (rows : List A)
      → n < length rows
      → (x : A) × (last (take (suc n) rows) ≡ some x) × Split rows (take (suc n) rows) x
  Split-at n [] h = absurd (omega arith)
  Split-at zero (x ∷ xs) h =
      (x, refl, record { init = []; rest = xs; front_is = refl; rows_are = refl })
  Split-at (suc n) (x ∷ []) h = absurd (omega arith)
  Split-at (suc n) (x ∷ y ∷ ys) h =
      let (z, is, s) = Split-at n (y ∷ ys) (omega arith) in
      (
        z,
        is,
        record {
          init = x ∷ s.init;
          rest = s.rest;
          front_is = ap (λ l. x ∷ l) s.front_is;
          rows_are = ap (λ l. x ∷ l) s.rows_are;
        },
      )

  take_all : (n : ℕ) (rows : List A) → length rows ≤ n → take n rows ≡ rows
  take_all zero [] h = refl
  take_all zero (x ∷ xs) h = absurd (omega arith)
  take_all (suc n) [] h = refl
  take_all (suc n) (x ∷ xs) h = ap (λ l. x ∷ l) (take_all n xs (omega arith))

  take-take-suc : (n : ℕ) (rows : List A) → take n (take (suc n) rows) ≡ take n rows
  take-take-suc zero rows = refl
  take-take-suc (suc n) [] = refl
  take-take-suc (suc n) (x ∷ xs) = ap (λ l. x ∷ l) (take-take-suc n xs)

All-middle {ℓ μ} :
    {A : Type ℓ} (P : A → Type μ) (pre : List A) (x : A) (post : List A)
    → All P (pre ++ x ∷ post)
    → P x
All-middle P [] x post a = a.0
All-middle P (y ∷ pre) x post a = All-middle P pre x post a.1

module _ {ℓ κ} {A : Type ℓ} {C : Type κ} (cursor_of : A → C) (n : ℕ) where
  -- The last page, or a page whose cursor is that of its last row.
  page_cases :
      (rows : List A)
      → (page_of cursor_of (suc n) rows ≡ (rows, none))
        ⊎ ((x : A) × (s : Split rows (take (suc n) rows) x) × (page_of cursor_of (suc n) rows
              ≡ (s.init ++ x ∷ [], some (cursor_of x))))
  page_cases rows =
      let count = length-take (suc n + 1) rows in
      elim (Bool-cases (ltb (suc n) (length rows))) [
        | inr few ↦
            let short : ltb (suc n) (length (take (suc n + 1) rows)) ≡ false = ground arith in
            let whole = take_all (suc n + 1) rows (ground arith) in inl (rw (short, whole) refl)
        | inl more ↦
            let long : ltb (suc n) (length (take (suc n + 1) rows)) ≡ true = ground arith in
            let front : take (suc n) (take (suc n + 1) rows) ≡ take (suc n) rows =
              ap (λ k. take (suc n) (take k rows)) {y = suc (suc n)} (omega arith)
              ∙ take-take-suc (suc n) rows in
            let (x, is, s) = Split-at n rows (ground arith) in
            inr (x, s, rw (long, front, is) (ap (λ l. (l, some (cursor_of x))) s.front_is))
      ]

  module _ {μ} {K : Type μ} (key : A → K) (before : K → K → Bool) (order : IsStrictOrder before)
      (fetch : Option C → Result (List A × Option C)) (L : List A)
      (increasing : IsIncreasing key before L)
      (later : All
        (λ x.
          fetch (some (cursor_of x)) ≡ ok (page_of cursor_of (suc n) (behind key before (key x) L)))
        L) where
    follow-last :
        (fuel : ℕ) (cursor : Option C) (rows : List A)
        → fetch cursor ≡ ok (rows, none)
        → follow (suc fuel) fetch cursor ≡ some (ok rows)
    unfolding follow
    follow-last fuel cursor rows is = ground arith

    follow-next :
        (fuel : ℕ) (cursor : Option C) (c : C) (items rest : List A)
        → fetch cursor ≡ ok (items, some c)
        → follow fuel fetch (some c) ≡ some (ok rest)
        → follow (suc fuel) fetch cursor ≡ some (ok (items ++ rest))
    unfolding follow
    follow-next fuel cursor c items rest is ih = ground arith

    next_page :
        (pre : List A) (x : A) (post : List A)
        → L ≡ pre ++ x ∷ post
        → fetch (some (cursor_of x)) ≡ ok (page_of cursor_of (suc n) post)
    next_page pre x post all =
        let here =
          All-middle
            (λ y.
              fetch (some (cursor_of y))
              ≡ ok (page_of cursor_of (suc n) (behind key before (key y) L)))
            pre x post
            (subst
              (λ l.
                All
                  (λ y.
                    fetch (some (cursor_of y))
                    ≡ ok (page_of cursor_of (suc n) (behind key before (key y) L)))
                  l)
              all later) in
        let follows =
          ap (behind key before (key x)) all
          ∙ behind-append key before order pre x post
              (subst (IsIncreasing key before) all increasing) in
        here ∙ ap (λ l. ok (page_of cursor_of (suc n) l)) follows

    follow-rows :
        (fuel : ℕ) (cursor : Option C) (pre rows : List A)
        → fetch cursor ≡ ok (page_of cursor_of (suc n) rows)
        → L ≡ pre ++ rows
        → length rows < fuel
        → follow fuel fetch cursor ≡ some (ok rows)
    follow-rows zero cursor pre rows is all enough = absurd (omega arith)
    follow-rows (suc fuel) cursor pre rows is all enough = elim (page_cases rows) [
      | inl only ↦ follow-last fuel cursor rows (is ∙ ap ok only)
      | inr (x, s, page) ↦
          let all' : L ≡ (pre ++ s.init) ++ x ∷ s.rest =
            all ∙ ap (λ l. pre ++ l) s.rows_are ∙ sym (append_assoc pre s.init (x ∷ s.rest)) in
          let parts : rows ≡ (s.init ++ x ∷ []) ++ s.rest =
            s.rows_are ∙ sym (append_assoc s.init (x ∷ []) s.rest) in
          let rest =
            follow-rows fuel (some (cursor_of x)) (pre ++ (s.init ++ x ∷ [])) s.rest
              (next_page (pre ++ s.init) x s.rest all')
              (all ∙ ap (λ l. pre ++ l) parts ∙ sym (append_assoc pre (s.init ++ x ∷ []) s.rest))
              (omega (arith, ap length s.rows_are, length-append s.init (x ∷ s.rest))) in
          follow-next fuel cursor (cursor_of x) (s.init ++ x ∷ []) s.rest (is ∙ ap ok page) rest
          ∙ ap (λ l. some (ok l)) (sym parts)
    ]

    -- The pages that the client gets are, one after the other, the whole list.
    pub follow-all :
        (fuel : ℕ)
        → fetch none ≡ ok (page_of cursor_of (suc n) L)
        → length L < fuel
        → follow fuel fetch none ≡ some (ok L)
    follow-all fuel first enough = follow-rows fuel none [] L first refl enough
