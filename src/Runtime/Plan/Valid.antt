-- ===== src/Runtime/Plan/Valid.antt =====
-- Exactly which plans `_validate_dag` accepts.
use engram_mesh.Common.{
  ℕ, zero, suc, ◌+◌, ◌≤◌, ◌<◌, true, false, List, [], ◌∷◌, ◌++◌, ◌≡◌, refl, ap, sym, subst, ◌∙◌,
  arith, length, eqb, eqb_iff, Bool-cases, inl, inr, if◌then◌else◌, ◌↔◌, ◌⊎◌, map, nat_eq, some,
}
use engram_mesh.Common.Dict.{Dict}
use engram_mesh.Common.Result.{ok, err, value_error}
use engram_mesh.Kernel.Ids.{NodeId}
use engram_mesh.Runtime.Plan.{
  PlanEdge, contains, keys, degree, no_degree, no_successors, successors_of, initially_ready, visit,
  visit_all,
}
use engram_mesh.Runtime.Plan.Order.{IsNodup, Within, length-le_of_Within, Within-of_length}
use engram_mesh.Runtime.Plan.Graph.{In, here, there, left, targets, left-zero, zero-left}
use engram_mesh.Runtime.Plan.Release.{
  IsProper, AllProper, AllProper-In, HasEdges, contains-initially_ready, initially_ready-IsNodup,
}
use engram_mesh.Runtime.Plan.Loop.{IsTopological, IsFinal, LoopInv, visit-ends}

-- A numbering of the nodes in which each edge goes upwards: there is one exactly where there is no cycle.
abbrev pub IsUpward : (NodeId → ℕ) → List PlanEdge → Type 0
IsUpward rank es = (e : PlanEdge) → In e es → rank e.source < rank e.target

-- The place in the order of visits.
abbrev place : List NodeId → NodeId → ℕ
place [] v = 0
place (u ∷ W) v = if eqb v u then suc (length W) else place W v

place-le : (W : List NodeId) (v : NodeId) → place W v ≤ length W
place-le [] v = omega arith
place-le (u ∷ W) v = ground (arith, place-le W v)

IsTopological-place :
    (es : List PlanEdge) (W : List NodeId) (e : PlanEdge)
    → IsTopological es W
    → IsNodup W
    → In e es
    → contains e.target W ≡ true
    → (contains e.source W ≡ true) × (place W e.source < place W e.target)
IsTopological-place es [] e t n i m = ground arith
IsTopological-place es (u ∷ W) e t n i m = elim (Bool-cases (eqb e.target u)) [
  | inl same ↦
      let known = left-zero W u es t.0 e i ((eqb_iff e.target u).0 same) in
      let low = place-le W e.source in let other = elsewhere known in ground arith
  | inr later ↦
      let rest = IsTopological-place es W e t.1 n.1 i (ground arith) in
      let other = elsewhere rest.0 in ground arith
]
  where
    elsewhere : contains e.source W ≡ true → eqb e.source u ≡ false
    elsewhere k = elim (Bool-cases (eqb e.source u)) [
      | inl same ↦ let q : e.source ≡ u = ground arith in ground arith
      | inr other ↦ other
    ]

module _ (N V : List NodeId) (es : List PlanEdge) (final : IsFinal N es V)
    (proper : AllProper N es) where
  Within-final : Within V N
  Within-final v m = let is = final.visited v in ground arith

  -- Induction on a bound of the rank.
  upward-visited :
      (rank : NodeId → ℕ)
      → IsUpward rank es
      → (bound : ℕ) (v : NodeId) → rank v < bound
      → contains v N ≡ true
      → contains v V ≡ true
  upward-visited rank up zero v low m = absurd (omega arith)
  upward-visited rank up (suc bound) v low m =
      let settled : left V v es ≡ 0 = zero-left V v es λ e i t.
        let goes_up = up e i in
        let at_v = ap rank t in
        upward-visited rank up bound e.source (omega arith) (AllProper-In N es e proper i).1 in
      let is = final.visited v in ground arith

  final_iff :
      IsNodup N → (eqb (length V) (length N) ≡ true) ↔ ((rank : NodeId → ℕ) × IsUpward rank es)
  final_iff nodup = (
    λ same. (
      place V,
      λ e i.
          (IsTopological-place es V e final.ordered final.once i (
            Within-of_length V N final.once Within-final (ground arith) e.target
              (AllProper-In N es e proper i).2)).1,
    ),
    λ (rank, up).
        let shorter = length-le_of_Within V N final.once Within-final in
        let longer =
          length-le_of_Within N V nodup
            λ v m. upward-visited rank up (suc (rank v)) v (omega arith) m in
        ground arith,
  )

degree-no_degree : (ids : List NodeId) (v : NodeId) → degree (map no_degree ids) v ≡ 0
degree-no_degree [] v = refl
degree-no_degree (x ∷ ids) v = ground (arith, degree-no_degree ids v)

successors_of-no_successors :
    (ids : List NodeId) (v : NodeId) → successors_of (map no_successors ids) v ≡ []
successors_of-no_successors [] v = refl
successors_of-no_successors (x ∷ ids) v = ground (arith, successors_of-no_successors ids v)

pub keys-no_degree : (ids : List NodeId) → keys (map no_degree ids) ≡ ids
keys-no_degree [] = refl
keys-no_degree (x ∷ ids) = ap (λ l. x ∷ l) (keys-no_degree ids)

Within-targets :
    (N : List NodeId) (u : NodeId) (es : List PlanEdge) → AllProper N es → Within (targets u es) N
Within-targets N u [] p v m = ground arith
Within-targets N u (e ∷ es) p v m =
    let rest = Within-targets N u es p.1 v in
    elim (Bool-cases (eqb v e.target)) [
      | inl same ↦ let q : v ≡ e.target = ground arith in ground arith
      | inr other ↦ ground arith
    ]

pub AllProper-Within :
    (N M : List NodeId) (es : List PlanEdge) → Within N M → AllProper N es → AllProper M es
AllProper-Within N M [] w p = tt
AllProper-Within N M (e ∷ es) w p =
    ((p.0.0, w e.source p.0.1, w e.target p.0.2), AllProper-Within N M es w p.1)

pub AllProper-all :
    (N : List NodeId) (es : List PlanEdge)
    → ((e : PlanEdge) → In e es → IsProper N e)
    → AllProper N es
AllProper-all N [] h = tt
AllProper-all N (e ∷ es) h = (h e here, AllProper-all N es λ x i. h x (there i))

module _ (N : List NodeId) (es : List PlanEdge) (s : Dict NodeId (List NodeId)) (d : Dict NodeId ℕ)
    (nodup : IsNodup N) (proper : AllProper N es)
    (has : HasEdges es (map no_successors N, map no_degree N) (s, d)) where
  first-LoopInv : LoopInv N es [] [] (initially_ready d N []) d
  first-LoopInv = record {
    degrees = λ v. let deg = has.degrees v in let none_yet = degree-no_degree N v in omega arith;
    is_ready = λ v.
        let deg = has.degrees v in
        let none_yet = degree-no_degree N v in
        let ready = contains-initially_ready d N [] v in ground arith;
    visited_once = tt;
    ready_once = initially_ready-IsNodup d N [] nodup tt λ v m. refl;
    apart = λ v m. refl;
    in_order = tt;
  }

  loop-ends :
      (V : List NodeId) × (visit s (length N + 1) 0 (initially_ready d (keys d) []) d
        ≡ some (length V))
      × IsFinal N es V
  loop-ends =
      visit-ends s
        (λ u. has.follow u ∙ ap (λ l. l ++ targets u es) (successors_of-no_successors N u))
        (λ u. Within-targets N u es proper) (length N + 1) [] (initially_ready d (keys d) []) d
        (subst (λ K. LoopInv N es [] [] (initially_ready d K []) d)
          (sym (has.same_keys ∙ keys-no_degree N)) first-LoopInv)
        (omega arith)

  pub visit_all_iff : (visit_all N (s, d) ≡ ok tt) ↔ ((rank : NodeId → ℕ) × IsUpward rank es)
  unfolding visit_all
  visit_all_iff =
      let (V, ends, final) = loop-ends in
      let same = final_iff N V es final proper nodup in
      (λ h. same.0 (ground arith), λ h. (let e = same.1 h in ground arith))

  pub visit_all-answers :
      (visit_all N (s, d) ≡ ok tt)
      ⊎ (visit_all N (s, d) ≡ err (value_error "plan contains a cycle"))
  unfolding visit_all
  visit_all-answers = let (V, ends, final) = loop-ends in ground arith
