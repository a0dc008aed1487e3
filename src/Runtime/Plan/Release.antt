-- ===== src/Runtime/Plan/Release.antt =====
-- What each loop of `_validate_dag` does to the tables and to the stack of ready nodes.
use engram_mesh.Common.{
  ℕ, ◌+◌, Bool, true, false, ◌&&◌, ◌||◌, List, [], ◌∷◌, ◌++◌, ◌≡◌, refl, ap, sym, eqb_iff, ◌∙◌,
  arith, not, String, eqb, Bool-cases, inl, inr, if◌then◌else◌, nat_eq,
}
use engram_mesh.Common.Dict.{Dict, insert}
use engram_mesh.Common.Result.{Error, ok, err, value_error}
use engram_mesh.Kernel.Ids.{NodeId}
use engram_mesh.Runtime.Plan.{
  PlanEdge, Tables, keys, contains, degree, successors_of, add_edges, initially_ready,
}
use engram_mesh.Runtime.Plan.Order.{IsNodup}
use engram_mesh.Runtime.Plan.Graph.{
  In, here, there, left, targets, keys-insert, degree-insert, successors_of-insert,
}

-- An edge between two different known nodes.
abbrev pub IsProper : List NodeId → PlanEdge → Type 0
IsProper known e =
    (eqb e.source e.target ≡ false)
    × (contains e.source known ≡ true)
    × (contains e.target known ≡ true)

abbrev pub AllProper : List NodeId → List PlanEdge → Type 0
AllProper known [] = Unit
AllProper known (e ∷ es) = IsProper known e × AllProper known es

-- The tables with the edges in them.
pub record HasEdges (es : List PlanEdge) (before after : Tables) : Type 0 where
  pub degrees : (v : NodeId) → degree after.1 v ≡ degree before.1 v + left [] v es
  pub follow : (u : NodeId) → successors_of after.0 u ≡ successors_of before.0 u ++ targets u es
  pub same_keys : keys after.1 ≡ keys before.1

append_one :
    (xs : List NodeId) (t : NodeId) (ts : List NodeId) → (xs ++ t ∷ []) ++ ts ≡ xs ++ t ∷ ts
append_one [] t ts = refl
append_one (x ∷ xs) t ts = ap (λ l. x ∷ l) (append_one xs t ts)

append_nil : (xs : List NodeId) → xs ++ [] ≡ xs
append_nil [] = refl
append_nil (x ∷ xs) = ground (arith, append_nil xs)

attach :
    (b : Bool) (t : NodeId) (ts : List NodeId) {xs ys now : List NodeId}
    → now ≡ (if b then ys ++ t ∷ [] else xs)
    → (b ≡ true → ys ≡ xs)
    → now ++ ts ≡ xs ++ (if b then t ∷ ts else ts)
attach true t ts {xs} step same =
    ap (λ l. l ++ ts) (step ∙ ap (λ l. l ++ t ∷ []) (same refl)) ∙ append_one xs t ts
attach false t ts step same = ap (λ l. l ++ ts) step

insert-targets :
    (u : NodeId) (e : PlanEdge) (es : List PlanEdge) (s : Dict NodeId (List NodeId))
    → successors_of (insert e.source (successors_of s e.source ++ e.target ∷ []) s) u
        ++ targets u es
      ≡ successors_of s u ++ targets u (e ∷ es)
insert-targets u e es s =
    attach (eqb u e.source) e.target (targets u es)
      (successors_of-insert e.source (successors_of s e.source ++ e.target ∷ []) s u)
      λ same. ap (successors_of s) (sym ((eqb_iff u e.source).0 same))

pub add_edges-ok :
    (known : List NodeId) (es : List PlanEdge) (tables : Tables)
    → AllProper known es
    → ((v : NodeId) → contains v known ≡ true → contains v (keys tables.1) ≡ true)
    → (after : Tables) × (add_edges known es tables ≡ ok after) × HasEdges es tables after
unfolding add_edges
add_edges-ok known [] (s, d) p k =
    ((s, d), refl, record { degrees = λ v. omega arith; follow = sym_nil; same_keys = refl })
  where
    sym_nil : (u : NodeId) → successors_of s u ≡ successors_of s u ++ []
    sym_nil u = ground (arith, append_nil (successors_of s u))
add_edges-ok known (e ∷ es) (s, d) p k =
    let ts = successors_of s e.source ++ e.target ∷ [] in
    let n = degree d e.target + 1 in
    let kept = keys-insert e.target n d (k e.target p.0.2) in
    let (after, returns, h) =
      add_edges-ok known es (insert e.source ts s, insert e.target n d) p.1
        λ v m. (let was = k v m in ground arith) in
    (
      after,
      ground arith,
      record {
        degrees = λ v.
            let here_ = h.degrees v in
            let step = degree-insert e.target n d v in
            elim (Bool-cases (eqb v e.target)) [
              | inl same ↦ let q : v ≡ e.target = ground arith in ground arith
              | inr other ↦ ground arith
            ];
        follow = λ u. h.follow u ∙ insert-targets u e es s;
        same_keys = let here_ = h.same_keys in ground arith;
      },
    )

-- Edges that are not proper are refused.
pub add_edges-AllProper :
    (known : List NodeId) (es : List PlanEdge) (tables after : Tables)
    → add_edges known es tables ≡ ok after
    → AllProper known es
unfolding add_edges
add_edges-AllProper known [] tables after h = tt
add_edges-AllProper known (e ∷ es) (s, d) after h =
    let rest =
      add_edges-AllProper known es
        (
          insert e.source (successors_of s e.source ++ e.target ∷ []) s,
          insert e.target (degree d e.target + 1) d,
        )
        after in
    ground (arith, rest)

pub AllProper-In :
    (known : List NodeId) (es : List PlanEdge) (e : PlanEdge)
    → AllProper known es
    → In e es
    → IsProper known e
AllProper-In known _ e p here = p.0
AllProper-In known _ e p (there {es = es} i) = AllProper-In known es e p.1 i

pub contains-initially_ready :
    (d : Dict NodeId ℕ) (ids ready : List NodeId) (v : NodeId)
    → contains v (initially_ready d ids ready)
      ≡ (contains v ids && eqb (degree d v) 0 || contains v ready)
unfolding initially_ready
contains-initially_ready d [] ready v = refl
contains-initially_ready d (x ∷ ids) ready v =
    let more = contains-initially_ready d ids (if eqb (degree d x) 0 then x ∷ ready else ready) v in
    elim (Bool-cases (eqb v x)) [
      | inl same ↦ let q : v ≡ x = ground arith in ground arith
      | inr other ↦ ground arith
    ]

pub initially_ready-IsNodup :
    (d : Dict NodeId ℕ) (ids ready : List NodeId)
    → IsNodup ids
    → IsNodup ready
    → ((v : NodeId) → contains v ids ≡ true → contains v ready ≡ false)
    → IsNodup (initially_ready d ids ready)
unfolding initially_ready
initially_ready-IsNodup d [] ready n r a = r
initially_ready-IsNodup d (x ∷ ids) ready n r a =
    let new = a x (ground arith) in
    initially_ready-IsNodup d ids (if eqb (degree d x) 0 then x ∷ ready else ready) n.1
      (ground arith)
      λ v m.
        (let was = a v (ground arith) in
          elim (Bool-cases (eqb v x)) [
            | inl same ↦ let q : v ≡ x = ground arith in ground arith
            | inr other ↦ ground arith
          ])

-- The `for` loop over the edges raises nothing but ValueError.
pub add_edges-errors :
    (known : List NodeId) (es : List PlanEdge) (tables : Tables) (e : Error)
    → add_edges known es tables ≡ err e
    → (message : String) × (e ≡ value_error message)
unfolding add_edges
add_edges-errors known [] tables e h = ground arith
add_edges-errors known (x ∷ es) (s, d) e h =
    let rest =
      add_edges-errors known es
        (
          insert x.source (successors_of s x.source ++ x.target ∷ []) s,
          insert x.target (degree d x.target + 1) d,
        )
        e in
    elim (Bool-cases (eqb x.source x.target)) [
      | inl self ↦ ("plan contains a self edge", ground arith)
      | inr other ↦
          elim (Bool-cases (not (contains x.source known) || not (contains x.target known))) [
            | inl dangling ↦ ("plan contains a dangling edge", ground arith)
            | inr proper ↦ rest (ground arith)
          ]
    ]
