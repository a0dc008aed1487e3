-- ===== src/Kernel/TimeKey.antt =====
-- The keys of the paged lists: a time and an identifier, compared as Python compares tuples. Both times
-- are aware, so that they are compared by the instant.
use engram_mesh.Common.{ℕ, Bool, true, false, ◌||◌, ◌&&◌, ltb, ◌≡◌, arith}
use engram_mesh.Common.Int.{ℤ, ltb_ℤ, eqb_ℤ, eqb_ℤ_iff}
use engram_mesh.Common.Keyset.{IsStrictOrder}

abbrev pub TimeKey : Type 0
TimeKey = ℤ × ℕ

-- `a < b`
abbrev pub below : TimeKey → TimeKey → Bool
below (t, i) (u, j) = ltb_ℤ t u || eqb_ℤ t u && ltb i j

-- `a > b`
abbrev pub above : TimeKey → TimeKey → Bool
above a b = below b a

below_irreflexive : (a : TimeKey) → below a a ≡ false
below_irreflexive (t, i) = ground arith

below_transitive : (a b c : TimeKey) → below a b ≡ true → below b c ≡ true → below a c ≡ true
below_transitive (t, i) (u, j) (v, k) h g =
    ground (arith, eqb_ℤ_iff t u, eqb_ℤ_iff u v, eqb_ℤ_iff t v)

below_connected : (a b : TimeKey) → below a b ≡ false → below b a ≡ false → a ≡ b
below_connected (t, i) (u, j) h g = ground (arith, eqb_ℤ_iff t u, eqb_ℤ_iff u t)

pub below_order : IsStrictOrder below
below_order = record {
  irreflexive = below_irreflexive;
  transitive = below_transitive;
  connected = below_connected;
}

pub above_order : IsStrictOrder above
above_order = record {
  irreflexive = below_irreflexive;
  transitive = λ a b c h g. below_transitive c b a g h;
  connected = λ a b h g. below_connected a b g h;
}
