-- ===== src/Runtime/Plan/Loop.antt =====
-- The loop of `_validate_dag`: its invariant, and that it ends within its fuel.
use engram_mesh.Common.{
  ℕ, zero, suc, ◌+◌, ◌-◌, ◌<◌, true, false, ◌&&◌, ◌||◌, List, [], ◌∷◌, ◌≡◌, refl, ap, sym, subst,
  ◌∙◌, arith, some, length, eqb, Bool-cases, inl, inr, if◌then◌else◌, nat_eq,
}
use engram_mesh.Common.Dict.{Dict, insert}
use engram_mesh.Kernel.Ids.{NodeId}
use engram_mesh.Runtime.Plan.{PlanEdge, contains, degree, successors_of, release, visit}
use engram_mesh.Runtime.Plan.Order.{IsNodup, Within, length-le_of_Within}
use engram_mesh.Runtime.Plan.Graph.{left, targets, count, left-visit, degree-insert}

-- Each visited node was visited after the sources of its edges; the last one visited is the head.
abbrev pub IsTopological : List PlanEdge → List NodeId → Type 0
IsTopological es [] = Unit
IsTopological es (u ∷ W) = (left W u es ≡ 0) × IsTopological es W

-- Between two steps: W is visited, R is ready, and the edges to `ts` are still to be taken off.
pub record LoopInv (N : List NodeId) (es : List PlanEdge) (W ts R : List NodeId) (d : Dict NodeId ℕ)
    : Type 0 where
  pub degrees : (v : NodeId) → degree d v ≡ left W v es + count v ts
  pub is_ready :
      (v : NodeId)
      → (contains v W || contains v R) ≡ (contains v N && eqb (left W v es + count v ts) 0)
  pub visited_once : IsNodup W
  pub ready_once : IsNodup R
  pub apart : (v : NodeId) → contains v R ≡ true → contains v W ≡ false
  pub in_order : IsTopological es W

-- Where the loop ends: the visited nodes are those whose edges all come from visited nodes.
pub record IsFinal (N : List NodeId) (es : List PlanEdge) (V : List NodeId) : Type 0 where
  pub once : IsNodup V
  pub visited : (v : NodeId) → contains v V ≡ (contains v N && eqb (left V v es) 0)
  pub ordered : IsTopological es V

module _ {N : List NodeId} {es : List PlanEdge} where
  release_one :
      (W ts R : List NodeId) (d : Dict NodeId ℕ) (t : NodeId)
      → LoopInv N es W (t ∷ ts) R d
      → contains t N ≡ true
      → LoopInv N es W ts
          (if eqb (degree d t - 1) 0 then t ∷ R else R)
          (insert t (degree d t - 1) d)
  release_one W ts R d t inv known =
      let of_t = inv.is_ready t in
      let deg_t = inv.degrees t in
      let new : (contains t W ≡ false) × (contains t R ≡ false) = ground arith in
      record {
        degrees = λ v.
            let was = inv.degrees v in
            let step = degree-insert t (degree d t - 1) d v in
            elim (Bool-cases (eqb v t)) [
              | inl same ↦ let q : v ≡ t = ground arith in ground arith
              | inr other ↦ ground arith
            ];
        is_ready = λ v.
            let was = inv.is_ready v in
            elim (Bool-cases (eqb v t)) [
              | inl same ↦ let q : v ≡ t = ground arith in ground arith
              | inr other ↦ ground arith
            ];
        visited_once = inv.visited_once;
        ready_once = let was = inv.ready_once in ground arith;
        apart = λ v m. elim (Bool-cases (eqb v t)) [
          | inl same ↦ let q : v ≡ t = ground arith in ground arith
          | inr other ↦ inv.apart v (ground arith)
        ];
        in_order = inv.in_order;
      }

  release_all :
      (W ts R : List NodeId) (d : Dict NodeId ℕ)
      → LoopInv N es W ts R d
      → Within ts N
      → LoopInv N es W [] (release ts R d).0 (release ts R d).1
  unfolding release
  release_all W [] R d inv w = inv
  release_all W (t ∷ ts) R d inv w =
      let n = degree d t - 1 in
      release_all W ts (if eqb n 0 then t ∷ R else R) (insert t n d)
        (release_one W ts R d t inv (w t (ground arith))) λ v m. w v (ground arith)

  -- The head of the ready nodes becomes visited.
  take_ready :
      (W R : List NodeId) (d : Dict NodeId ℕ) (u : NodeId)
      → LoopInv N es W [] (u ∷ R) d
      → LoopInv N es (u ∷ W) (targets u es) R d
  take_ready W R d u inv =
      let new = inv.apart u (ground arith) in
      let once = inv.ready_once in
      record {
        degrees =
            λ v. let was = inv.degrees v in let step = left-visit u v W es new in ground arith;
        is_ready =
            λ v. let was = inv.is_ready v in let step = left-visit u v W es new in ground arith;
        visited_once = (new, inv.visited_once);
        ready_once = once.1;
        apart = λ v m.
            let was = inv.apart v (ground arith) in
            elim (Bool-cases (eqb v u)) [
              | inl same ↦ let q : v ≡ u = ground arith in ground arith
              | inr other ↦ ground arith
            ];
        in_order = let of_u = inv.is_ready u in let same = inv.in_order in ground arith;
      }

module _ {N : List NodeId} {es : List PlanEdge} (s : Dict NodeId (List NodeId))
    (follow : (u : NodeId) → successors_of s u ≡ targets u es)
    (known : (u : NodeId) → Within (targets u es) N) where
  Within-visited : (W ts R : List NodeId) (d : Dict NodeId ℕ) → LoopInv N es W ts R d → Within W N
  Within-visited W ts R d inv v m = let is = inv.is_ready v in ground arith

  after_one :
      (W R : List NodeId) (d : Dict NodeId ℕ) (u : NodeId)
      → LoopInv N es W [] (u ∷ R) d
      → LoopInv N es
          (u ∷ W)
          []
          (release (successors_of s u) R d).0
          (release (successors_of s u) R d).1
  after_one W R d u inv =
      release_all (u ∷ W) (successors_of s u) R d
        (subst (λ ts. LoopInv N es (u ∷ W) ts R d) (sym (follow u)) (take_ready W R d u inv))
        (subst (λ ts. Within ts N) (sym (follow u)) (known u))

  -- With more fuel than there are nodes left the loop ends.
  pub visit-ends :
      (fuel : ℕ) (W R : List NodeId) (d : Dict NodeId ℕ)
      → LoopInv N es W [] R d
      → length N < length W + fuel
      → (V : List NodeId) × (visit s fuel (length W) R d ≡ some (length V)) × IsFinal N es V
  unfolding visit
  visit-ends zero W R d inv enough =
      let le = length-le_of_Within W N inv.visited_once (Within-visited W [] R d inv) in
      absurd (omega arith)
  visit-ends (suc fuel) W [] d inv enough = (
    W,
    refl,
    record {
      once = inv.visited_once;
      visited = λ v. let is = inv.is_ready v in ground arith;
      ordered = inv.in_order;
    },
  )
  visit-ends (suc fuel) W (u ∷ R) d inv enough =
      let (V, ends, final) =
        visit-ends fuel (u ∷ W) (release (successors_of s u) R d).0
          (release (successors_of s u) R d).1 (after_one W R d u inv) (omega arith) in
      (
        V,
        ap
              (λ n.
                visit s fuel n (release (successors_of s u) R d).0
                  (release (successors_of s u) R d).1)
              (omega arith)
            ∙ ends,
        final,
      )
