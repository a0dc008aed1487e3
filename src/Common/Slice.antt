-- ===== src/Common/Slice.antt =====
-- Slices by Python integers, and the page that the list handlers cut from one row more than the limit.
use Prim.Native.Nat.{ℕ, zero, suc, ◌+◌, ◌-◌}
use mathlib.Core.Path.{◌≡◌, refl, subst, ◌∙◌}
use mathlib.Core.Logic.{inl, inr}
use mathlib.Core.Bool.{Bool, false}
use mathlib.Core.Option.{Option, none, some}
use mathlib.Core.List.{List, [], ◌∷◌}
use native.Mathlib.Omega.{arith}
use engram_mesh.Common.Tests.{if◌then◌else◌, Bool-cases, Option-cases, ltb}
use engram_mesh.Common.Lists.{All, All-map, All-keep, length, take, last, length-take}
use engram_mesh.Common.Int.{ℤ, pos, negsuc, ltb_ℤ}
use engram_mesh.Common.Result.{Result, ok, err, index_error, ◌>>=◌}
use engram_mesh.Common.Keyset.{page_of, IsStrictOrder, IsIncreasing, behind, follow, follow-all}

module _ {ℓ} {A : Type ℓ} where
  -- `rows[:n]`
  abbrev pub slice_to : ℤ → List A → List A
  slice_to (pos n) rows = take n rows
  slice_to (negsuc n) rows = take (length rows - suc n) rows

  -- `rows if limit is None else rows[:limit]`
  abbrev pub cut : Option ℤ → List A → List A
  cut none rows = rows
  cut (some limit) rows = slice_to limit rows

  last-none : (rows : List A) → last rows ≡ none → length rows ≡ 0
  last-none [] h = refl
  last-none (x ∷ []) h = ground arith
  last-none (x ∷ y ∷ ys) h = absurd (last_some y ys h)
    where
      last_some : (y : A) (ys : List A) → ¬ (last (y ∷ ys) ≡ none)
      last_some y [] h = cc
      last_some y (z ∷ zs) h = last_some z zs h

  last-All {μ} : (P : A → Type μ) (rows : List A) (x : A) → All P rows → last rows ≡ some x → P x
  last-All P [] x all is = cc
  last-All P (y ∷ []) x all is = subst P (cc) all.0
  last-All P (y ∷ z ∷ zs) x all is = last-All P (z ∷ zs) x all.1 is

  All-take {μ} : (P : A → Type μ) (n : ℕ) (rows : List A) → All P rows → All P (take n rows)
  All-take P zero rows all = tt
  All-take P (suc n) [] all = tt
  All-take P (suc n) (x ∷ xs) all = (all.0, All-take P n xs all.1)

  module _ {κ} {C : Type κ} (encode : A → Result C) where
    -- The items and the next cursor.
    abbrev pub page : ℤ → List A → Result (List A × Option C)
    page limit rows =
        if ltb_ℤ limit (pos (length rows))
        then (elim (last (slice_to limit rows)) [
          | none ↦ err index_error
          | some x ↦ encode x >>= λ cursor. ok (slice_to limit rows, some cursor)
        ])
        else ok (rows, none)

    -- Where each row has a cursor, the handler's page is the one that a client can follow.
    pub page-page_of :
        (cursor_of : A → C) (n : ℕ) (rows : List A)
        → All (λ x. encode x ≡ ok (cursor_of x)) rows
        → page (pos (suc n)) (take (suc n + 1) rows) ≡ ok (page_of cursor_of (suc n) rows)
    page-page_of cursor_of n rows all =
        let found = take (suc n + 1) rows in
        let count = length-take (suc n) found in
        elim (Option-cases (last (take (suc n) found))) [
          | inl nothing ↦
              let zero_long = last-none (take (suc n) found) nothing in
              let few : ltb (suc n) (length found) ≡ false = ground arith in ground arith
          | inr (x, is) ↦
              let code =
                last-All (λ y. encode y ≡ ok (cursor_of y)) (take (suc n) found) x
                  (All-take (λ y. encode y ≡ ok (cursor_of y)) (suc n) found
                    (All-take (λ y. encode y ≡ ok (cursor_of y)) (suc n + 1) rows all))
                  is in
              elim (Bool-cases (ltb (suc n) (length found))) [
                | inl more ↦ ground arith
                | inr only ↦ ground arith
              ]
        ]

module _ {ℓ κ μ} {A : Type ℓ} {C : Type κ} {K : Type μ} (encode : A → Result C) (cursor_of : A → C)
    (n : ℕ) (key : A → K) (before : K → K → Bool) (order : IsStrictOrder before)
    (fetch : Option C → Result (List A × Option C)) (rows : List A) where
  -- A handler that cuts its pages from what lies behind the cursor serves all the rows.
  pub follow-page :
      IsIncreasing key before rows
      → All (λ x. encode x ≡ ok (cursor_of x)) rows
      → fetch none ≡ page encode (pos (suc n)) (take (suc n + 1) rows)
      → All
          (λ x.
            fetch (some (cursor_of x))
            ≡ page encode (pos (suc n)) (take (suc n + 1) (behind key before (key x) rows)))
          rows
      → follow (length rows + 1) fetch none ≡ some (ok rows)
  follow-page increasing written first later =
      follow-all cursor_of n key before order fetch rows increasing
        (All-map
          (λ x.
            fetch (some (cursor_of x))
            ≡ page encode (pos (suc n)) (take (suc n + 1) (behind key before (key x) rows)))
          (λ x.
            fetch (some (cursor_of x))
            ≡ ok (page_of cursor_of (suc n) (behind key before (key x) rows)))
          rows
          (λ x is.
            is
            ∙ page-page_of encode cursor_of n (behind key before (key x) rows) (
                All-keep (λ e. encode e ≡ ok (cursor_of e)) (λ y. before (key x) (key y)) rows
                  written))
          later)
        (length rows + 1) (first ∙ page-page_of encode cursor_of n rows written) (omega arith)
