-- ===== src/Runtime/Plan/Examples.antt =====
-- Plans at small inputs, and the theorems there.
use engram_mesh.Common.{String, List, [], ◌∷◌, true, none, some, ◌≡◌, ◌↔◌, ◌⊎◌, refl}
use engram_mesh.Common.Int.{pos, ◌≤ℤ◌}
use engram_mesh.Common.Result.{ok, err, value_error}
use engram_mesh.Kernel.Datetime.{aware}
use engram_mesh.Kernel.Json.{mapping, end}
use engram_mesh.Kernel.Ids.{NodeId}
use engram_mesh.Runtime.Model.{SideEffectClass}
use engram_mesh.Runtime.Plan.{
  PlanNode, PlanEdge, Plan, NodeKind, adding_edge, plan_operation, validate_dag, validate_ids,
  visit_all, visit, release, add_edges, to_set, initially_ready, make_plan,
}
use engram_mesh.Runtime.Plan.Operation.{IsMade, plan_operation_iff}
use engram_mesh.Runtime.Plan.Dag.{
  IsDag, node_ids, validate_dag_iff, validate_dag_ends, make_plan_iff,
}

abbrev node : NodeId → PlanNode
node id = record {
  id = id;
  kind = NodeKind.agent;
  objective_ref = 8;
  agent_definition_id = some 9;
  join_kind = none;
  input_refs = [];
  expected_output_schema = mapping true end;
  tool_grants = [];
  budget = record {
    max_input_tokens = pos 10;
    max_output_tokens = pos 10;
    max_cost_micros = pos 0;
    deadline = aware (pos 0) (pos 0);
  };
  side_effect_class = SideEffectClass.nothing;
  acceptance_criteria = [];
}

abbrev edge : NodeId → NodeId → PlanEdge
edge a b = record { source = a; target = b }

abbrev nodes : List PlanNode
nodes = node 3 ∷ node 1 ∷ node 2 ∷ []

-- Two ways from node 1 to node 3.
abbrev edges : List PlanEdge
edges = edge 1 3 ∷ edge 1 2 ∷ edge 2 3 ∷ []

a_dag : validate_dag nodes edges ≡ ok tt
unfolding validate_dag validate_ids visit_all visit release add_edges to_set initially_ready
a_dag = refl

a_cycle : validate_dag nodes (edge 3 1 ∷ edges) ≡ err (value_error "plan contains a cycle")
unfolding validate_dag validate_ids visit_all visit release add_edges to_set initially_ready
a_cycle = refl

abbrev plan : Plan
plan = record { execution_id = 7; revision = pos 0; nodes = nodes; edges = edges }

validate_dag_iff_example : (validate_dag nodes edges ≡ ok tt) ↔ IsDag (node_ids nodes) edges
validate_dag_iff_example = validate_dag_iff nodes edges

validate_dag_ends_example :
    (validate_dag nodes (edge 3 1 ∷ edges) ≡ ok tt)
    ⊎ ((message : String) × (validate_dag nodes (edge 3 1 ∷ edges) ≡ err (value_error message)))
validate_dag_ends_example = validate_dag_ends nodes (edge 3 1 ∷ edges)

make_plan_iff_example :
    (make_plan plan ≡ ok plan) ↔ ((pos 0 ≤ℤ plan.revision) × IsDag (node_ids plan.nodes) plan.edges)
make_plan_iff_example = make_plan_iff plan

plan_operation_iff_example :
    (plan_operation (adding_edge (edge 1 3)) ≡ ok (adding_edge (edge 1 3)))
    ↔ IsMade (adding_edge (edge 1 3))
plan_operation_iff_example = plan_operation_iff (adding_edge (edge 1 3))
