-- ===== src/Runtime/Plan/Operation.antt =====
-- Which operations on plans, and which deltas, can be built.
use engram_mesh.Common.{Option, none, some, ◌≡◌, ◌↔◌, ◌⊎◌, inl, inr, arith, refl, ap, true}
use engram_mesh.Common.Result.{ok}
use engram_mesh.Kernel.Ids.{NodeId}
use engram_mesh.Runtime.Plan.{
  PlanNode, PlanEdge, PlanOperation, OperationKind, has_target, add_node, remove_node, add_edge,
  remove_edge, adding_node, removing_node, adding_edge, removing_edge, plan_operation,
}

-- An operation that one of the four class methods makes.
abbrev pub IsMade : PlanOperation → Type 0
IsMade op =
    ((a : PlanNode) × (op ≡ adding_node a))
    ⊎ ((a : NodeId) × (op ≡ removing_node a))
    ⊎ ((a : PlanEdge) × (op ≡ adding_edge a))
    ⊎ ((a : PlanEdge) × (op ≡ removing_edge a))

target_shape :
    (kind : OperationKind) (node : Option PlanNode) (node_id : Option NodeId)
    (edge : Option PlanEdge)
    → has_target record { kind = kind; node = node; node_id = node_id; edge = edge } ≡ true
    → IsMade record { kind = kind; node = node; node_id = node_id; edge = edge }
target_shape add_node (some a) none none h = inl (a, refl)
target_shape add_node none _ _ h = ground arith
target_shape add_node (some _) (some _) _ h = ground arith
target_shape add_node (some _) none (some _) h = ground arith
target_shape remove_node none (some a) none h = inr (inl (a, refl))
target_shape remove_node (some _) _ _ h = ground arith
target_shape remove_node none none _ h = ground arith
target_shape remove_node none (some _) (some _) h = ground arith
target_shape add_edge none none (some a) h = inr (inr (inl (a, refl)))
target_shape add_edge (some _) _ _ h = ground arith
target_shape add_edge none (some _) _ h = ground arith
target_shape add_edge none none none h = ground arith
target_shape remove_edge none none (some a) h = inr (inr (inr (a, refl)))
target_shape remove_edge (some _) _ _ h = ground arith
target_shape remove_edge none (some _) _ h = ground arith
target_shape remove_edge none none none h = ground arith

rebuilt : (op made : PlanOperation) → op ≡ made → has_target made ≡ true → plan_operation op ≡ ok op
unfolding plan_operation
rebuilt op made e h = let same = ap has_target e in ground arith

-- The constructor accepts exactly the operations that the four class methods make.
pub plan_operation_iff : (op : PlanOperation) → (plan_operation op ≡ ok op) ↔ IsMade op
unfolding plan_operation
plan_operation_iff op = (
  λ built. target_shape op.kind op.node op.node_id op.edge (ground arith),
  λ made. elim made [
    | inl (a, e) ↦ rebuilt op (adding_node a) e refl
    | inr (inl (a, e)) ↦ rebuilt op (removing_node a) e refl
    | inr (inr (inl (a, e))) ↦ rebuilt op (adding_edge a) e refl
    | inr (inr (inr (a, e))) ↦ rebuilt op (removing_edge a) e refl
  ],
)
