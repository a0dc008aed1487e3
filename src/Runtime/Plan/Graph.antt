-- ===== src/Runtime/Plan/Graph.antt =====
-- The edges of a plan as a graph: the dependencies of a node that are not visited yet, the successors of
-- a visited node, and what the tables of `_validate_dag` hold of them.
use engram_mesh.Common.{
  ℕ, ◌+◌, Bool, true, false, not, ◌&&◌, List, [], ◌∷◌, ◌≡◌, refl, arith, eqb, Bool-cases, inl, inr,
  if◌then◌else◌, nat_eq,
}
use engram_mesh.Common.Dict.{Dict, insert}
use engram_mesh.Kernel.Ids.{NodeId}
use engram_mesh.Runtime.Plan.{PlanEdge, keys, contains, degree, successors_of}

-- An edge of the list.
pub data In : PlanEdge → List PlanEdge → Type 0 where
  here : {e : PlanEdge} {es : List PlanEdge} → In e (e ∷ es)
  there : {e x : PlanEdge} {es : List PlanEdge} → In e es → In e (x ∷ es)

abbrev pub one_if : Bool → ℕ
one_if true = 1
one_if false = 0

-- The number of edges to a node whose sources are not among the visited nodes.
abbrev pub left : List NodeId → NodeId → List PlanEdge → ℕ
left W v [] = 0
left W v (e ∷ es) = one_if (eqb v e.target && not (contains e.source W)) + left W v es

-- The targets of the edges from a node, in their order.
abbrev pub targets : NodeId → List PlanEdge → List NodeId
targets u [] = []
targets u (e ∷ es) = if eqb u e.source then e.target ∷ targets u es else targets u es

abbrev pub count : NodeId → List NodeId → ℕ
count v [] = 0
count v (t ∷ ts) = one_if (eqb v t) + count v ts

-- Visiting a node settles its edges.
pub left-visit :
    (u v : NodeId) (W : List NodeId) (es : List PlanEdge)
    → contains u W ≡ false
    → left W v es ≡ left (u ∷ W) v es + count v (targets u es)
left-visit u v W [] new = omega arith
left-visit u v W (e ∷ es) new = elim (Bool-cases (eqb u e.source)) [
  | inl same ↦
      let s : u ≡ e.source = ground arith in
      let m : contains e.source W ≡ false = ground arith in ground (arith, left-visit u v W es new)
  | inr other ↦ ground (arith, left-visit u v W es new)
]

-- Where nothing is left, the source of each edge to the node is visited, and conversely.
pub left-zero :
    (W : List NodeId) (v : NodeId) (es : List PlanEdge)
    → left W v es ≡ 0
    → (e : PlanEdge) → In e es
    → e.target ≡ v
    → contains e.source W ≡ true
left-zero W v _ h e here t = ground arith
left-zero W v _ h e (there {x = x} {es = es} i) t = left-zero W v es (ground arith) e i t

pub zero-left :
    (W : List NodeId) (v : NodeId) (es : List PlanEdge)
    → ((e : PlanEdge) → In e es → e.target ≡ v → contains e.source W ≡ true)
    → left W v es ≡ 0
zero-left W v [] h = refl
zero-left W v (e ∷ es) h =
    let rest = zero-left W v es (λ x i. h x (there i)) in
    elim (Bool-cases (eqb v e.target)) [
      | inr other ↦ ground arith
      | inl same ↦ let known = h e here (ground arith) in ground arith
    ]

pub keys-insert {ℓ} :
    {A : Type ℓ} (k : NodeId) (a : A) (d : Dict NodeId A)
    → contains k (keys d) ≡ true
    → keys (insert k a d) ≡ keys d
keys-insert k a [] h = ground arith
keys-insert k a ((j, b) ∷ d) h = ground (arith, keys-insert k a d)

pub degree-insert :
    (k : NodeId) (n : ℕ) (d : Dict NodeId ℕ) (v : NodeId)
    → degree (insert k n d) v ≡ (if eqb v k then n else degree d v)
degree-insert k n [] v = ground arith
degree-insert k n ((j, b) ∷ d) v = ground (arith, degree-insert k n d v)

pub successors_of-insert :
    (k : NodeId) (ts : List NodeId) (d : Dict NodeId (List NodeId)) (v : NodeId)
    → successors_of (insert k ts d) v ≡ (if eqb v k then ts else successors_of d v)
successors_of-insert k ts [] v = ground arith
successors_of-insert k ts ((j, b) ∷ d) v = ground (arith, successors_of-insert k ts d v)
