-- ===== src/Kernel/Text.antt =====
-- Python's `str`: `strip` as the source uses it, and the digits of a number.
use Prim.Native.Char.{Char, code}
use Prim.Native.String.{◌++◌}
use engram_mesh.Common.{
  ℕ, zero, suc, ◌+◌, false, if◌then◌else◌, ◌≡◌, refl, ◌/◌, ◌%◌, String, Bool, true, ◌&&◌, ◌||◌,
  List, [], ◌∷◌, eqb, leb,
}
use engram_mesh.Common.Result.{Result, value_error, raise_if}

-- `str.isspace` of one character, by its code point.
is_space : ℕ → Bool
is_space c =
    (leb 9 c && leb c 13)
    || (leb 28 c && leb c 32)
    || eqb c 0x85
    || eqb c 0xa0
    || eqb c 0x1680
    || (leb 0x2000 c && leb c 0x200a)
    || eqb c 0x2028
    || eqb c 0x2029
    || eqb c 0x202f
    || eqb c 0x205f
    || eqb c 0x3000

-- `not value.strip()`
unfoldable pub is_blank : String → Bool
unfolding is_space
is_blank String.[] = true
is_blank (String.◌∷◌ c s) = is_space (code c) && is_blank s

-- `value.lstrip()`
unfoldable lstrip : String → String
unfolding is_space
lstrip String.[] = String.[]
lstrip (String.◌∷◌ c s) = let rest = lstrip s in if is_space (code c) then rest else String.◌∷◌ c s

-- `value.rstrip()`
unfoldable rstrip : String → String
unfolding is_space
rstrip String.[] = String.[]
rstrip (String.◌∷◌ c s) =
    if is_space (code c) && is_blank s then String.[] else String.◌∷◌ c (rstrip s)

-- `value.strip()`
unfoldable pub strip : String → String
unfolding lstrip rstrip
strip s = rstrip (lstrip s)

-- `value.partition(" ")`: what stands before the first space, and after it.
abbrev pub before_space : String → String
before_space String.[] = String.[]
before_space (String.◌∷◌ c s) =
    let rest = before_space s in if eqb (code c) 32 then String.[] else String.◌∷◌ c rest

abbrev pub after_space : String → String
after_space String.[] = String.[]
after_space (String.◌∷◌ c s) = let rest = after_space s in if eqb (code c) 32 then s else rest

-- `value.lower()` of ASCII letters; other characters are kept.
abbrev pub lower_code : ℕ → ℕ
lower_code c = if leb 65 c && leb c 90 then c + 32 else c

-- `value.lower() == name` for a name of ASCII letters other than k: no other character has such a
-- letter as its lower case.
unfoldable pub is_lower : String → String → Bool
is_lower String.[] String.[] = true
is_lower (String.◌∷◌ c s) (String.◌∷◌ d t) = eqb (lower_code (code c)) (code d) && is_lower s t
is_lower _ _ = false

-- `_require_non_blank`: of the domain models, the contracts and the constructors of the source.
unfoldable pub require_non_blank : String → String → Result (Unit {0})
require_non_blank value field_name =
    raise_if (is_blank value) (value_error (field_name ++ " must not be blank"))

abbrev digit_chars : List Char
digit_chars =
    "0" ∷ "1" ∷ "2" ∷ "3" ∷ "4" ∷ "5" ∷ "6" ∷ "7" ∷ "8" ∷ "9" ∷ "a" ∷ "b" ∷ "c" ∷ "d" ∷ "e" ∷ "f"
    ∷ []

nth_char : List Char → ℕ → Char
nth_char [] n = "?"
nth_char (c ∷ cs) zero = c
nth_char (c ∷ cs) (suc n) = nth_char cs n

-- The `k` lowest digits of `n` in base `b` (at most 16), the highest first.
unfoldable pub digits_of : ℕ → ℕ → ℕ → String
unfolding nth_char
digits_of b zero n = ""
digits_of b (suc k) n = digits_of b k (n / b) ++ String.◌∷◌ (nth_char digit_chars (n % b)) String.[]

digits_of_beef : digits_of 16 4 0xbeef ≡ "beef"
unfolding digits_of
digits_of_beef = refl
