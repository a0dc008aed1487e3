-- ===== src/Runtime/Plan/Order.antt =====
-- Lists of node identifiers without repetition, and the pigeonhole principle for them.
use engram_mesh.Common.{
  suc, ◌≤◌, true, false, List, [], ◌∷◌, ◌≡◌, refl, arith, length, eqb, Bool-cases, inl, inr,
  if◌then◌else◌, ◌↔◌,
}
use engram_mesh.Kernel.Ids.{NodeId}
use engram_mesh.Runtime.Plan.{contains, to_set}

abbrev pub IsNodup : List NodeId → Type 0
IsNodup [] = Unit
IsNodup (x ∷ xs) = (contains x xs ≡ false) × IsNodup xs

abbrev pub Within : List NodeId → List NodeId → Type 0
Within xs ys = (v : NodeId) → contains v xs ≡ true → contains v ys ≡ true

-- Takes out one occurrence.
drop_one : NodeId → List NodeId → List NodeId
drop_one x [] = []
drop_one x (y ∷ ys) = if eqb x y then ys else y ∷ drop_one x ys

length-drop_one :
    (x : NodeId) (ys : List NodeId)
    → contains x ys ≡ true
    → length ys ≡ suc (length (drop_one x ys))
unfolding drop_one
length-drop_one x [] h = ground arith
length-drop_one x (y ∷ ys) h = ground (arith, length-drop_one x ys)

contains-drop_one :
    (v x : NodeId) (ys : List NodeId)
    → contains v ys ≡ true
    → eqb v x ≡ false
    → contains v (drop_one x ys) ≡ true
unfolding drop_one
contains-drop_one v x [] h ne = ground arith
contains-drop_one v x (y ∷ ys) h ne = ground (arith, contains-drop_one v x ys)

pub length-le_of_Within : (xs ys : List NodeId) → IsNodup xs → Within xs ys → length xs ≤ length ys
length-le_of_Within [] ys d w = omega arith
length-le_of_Within (x ∷ xs) ys d w =
    let here = length-drop_one x ys (w x (ground arith)) in
    let rest = length-le_of_Within xs (drop_one x ys) d.1 λ v m.
      contains-drop_one v x ys (w v (ground arith)) (elim (Bool-cases (eqb v x)) [
        | inl same ↦ let e : v ≡ x = ground arith in ground arith
        | inr other ↦ other
      ]) in
    omega arith

-- As many different elements from within a list as the list is long leave none of its elements out.
pub Within-of_length :
    (xs ys : List NodeId) → IsNodup xs → Within xs ys → length ys ≤ length xs → Within ys xs
Within-of_length xs ys d w le v m = elim (Bool-cases (contains v xs)) [
  | inl found ↦ found
  | inr missing ↦
      let bigger =
        length-le_of_Within (v ∷ xs) ys (missing, d)
          λ u k. elim (Bool-cases (eqb u v)) [
            | inl same ↦ let e : u ≡ v = ground arith in ground arith
            | inr other ↦ w u (ground arith)
          ] in
      absurd (omega arith)
]

pub contains-to_set : (v : NodeId) (xs : List NodeId) → contains v (to_set xs) ≡ contains v xs
unfolding to_set
contains-to_set v [] = refl
contains-to_set v (x ∷ xs) = elim (Bool-cases (contains x xs)) [
  | inr new ↦ ground (arith, contains-to_set v xs)
  | inl seen ↦ elim (Bool-cases (eqb v x)) [
    | inl same ↦ let e : v ≡ x = ground arith in ground (arith, contains-to_set v xs)
    | inr other ↦ ground (arith, contains-to_set v xs)
  ]
]

length-to_set-le : (xs : List NodeId) → length (to_set xs) ≤ length xs
unfolding to_set
length-to_set-le [] = omega arith
length-to_set-le (x ∷ xs) = ground (arith, length-to_set-le xs)

-- The set is as long as the list exactly where nothing is repeated.
pub to_set-IsNodup : (xs : List NodeId) → (eqb (length (to_set xs)) (length xs) ≡ true) ↔ IsNodup xs
unfolding to_set
to_set-IsNodup [] = ground arith
to_set-IsNodup (x ∷ xs) = ground (arith, length-to_set-le xs, to_set-IsNodup xs)
