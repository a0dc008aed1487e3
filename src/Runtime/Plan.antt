-- ===== src/Runtime/Plan.antt =====
-- modules/runtime/domain/model.py: plans, their validation as acyclic graphs, and plan deltas.
pub mod Order
pub mod Graph
pub mod Release
pub mod Loop
pub mod Valid
pub mod Dag
pub mod Operation
pub mod Examples
use engram_mesh.Common.{
  ℕ, zero, suc, ◌+◌, ◌-◌, String, Bool, true, false, not, ◌||◌, ◌&&◌, Option, none, some, List, [],
  ◌∷◌, ◌++◌, map, length, eqb, nat_eq, if◌then◌else◌, is_some, is_none, is_empty,
}
use engram_mesh.Common.Dict.{Dict, lookup, insert}
use engram_mesh.Common.Int.{ℤ, pos, ltb_ℤ}
use engram_mesh.Common.Result.{Result, ok, err, value_error, runtime_error, raise_if, ◌>>=◌, ◌>>◌}
use engram_mesh.Kernel.Ids.{NodeId, ArtifactId, AgentDefinitionId, ExecutionId}
use engram_mesh.Kernel.Json.{Value}
use engram_mesh.Kernel.Freeze.{freeze_schema}
use engram_mesh.Runtime.Model.{Budget, SideEffectClass}

pub data NodeKind : Type 0 where
  agent tool join decision : NodeKind

pub data JoinKind : Type 0 where
  every any : JoinKind

pub record PlanNode : Type 0 where
  pub id : NodeId
  pub kind : NodeKind
  pub objective_ref : ArtifactId
  pub agent_definition_id : Option AgentDefinitionId
  pub join_kind : Option JoinKind
  pub input_refs : List ArtifactId
  pub expected_output_schema : Value
  pub tool_grants : List String
  pub budget : Budget
  pub side_effect_class : SideEffectClass
  pub acceptance_criteria : List String

unfoldable pub plan_node : PlanNode → Result PlanNode
plan_node node = do
  schema ← freeze_schema node.expected_output_schema
  ok (record node { expected_output_schema = schema })

pub record PlanEdge : Type 0 where
  pub source : NodeId
  pub target : NodeId

-- `x in xs`
abbrev pub contains : NodeId → List NodeId → Bool
contains x [] = false
contains x (y ∷ ys) = eqb x y || contains x ys

-- `set(xs)`
unfoldable pub to_set : List NodeId → List NodeId
to_set [] = []
to_set (x ∷ xs) = if contains x xs then to_set xs else x ∷ to_set xs

-- `successors[node_id]` and `indegree[node_id]`, which are read at keys of the dicts only.
abbrev pub successors_of : Dict NodeId (List NodeId) → NodeId → List NodeId
successors_of successors node_id = elim (lookup node_id successors) [
  | none ↦ []
  | some targets ↦ targets
]

abbrev pub degree : Dict NodeId ℕ → NodeId → ℕ
degree indegree node_id = elim (lookup node_id indegree) [ none ↦ 0 | some n ↦ n ]

-- The keys of a dict, in its order.
abbrev pub keys {ℓ} : {A : Type ℓ} → Dict NodeId A → List NodeId
keys [] = []
keys ((k, a) ∷ d) = k ∷ keys d

abbrev pub no_successors : NodeId → NodeId × List NodeId
no_successors node_id = (node_id, [])

abbrev pub no_degree : NodeId → NodeId × ℕ
no_degree node_id = (node_id, 0)

abbrev pub Tables : Type 0
Tables = Dict NodeId (List NodeId) × Dict NodeId ℕ

-- The `for` loop over the edges.
unfoldable pub add_edges : List NodeId → List PlanEdge → Tables → Result Tables
add_edges known_ids [] tables = ok tables
add_edges known_ids (edge ∷ edges) (successors, indegree) = do
  raise_if (eqb edge.source edge.target) (value_error "plan contains a self edge")
  raise_if (not (contains edge.source known_ids) || not (contains edge.target known_ids))
      (value_error "plan contains a dangling edge")
  add_edges known_ids edges (
    insert edge.source (successors_of successors edge.source ++ edge.target ∷ []) successors,
    insert edge.target (degree indegree edge.target + 1) indegree,
  )

-- `[node_id for node_id, degree in indegree.items() if degree == 0]`, onto a stack whose head is the
-- end of the source's list.
unfoldable pub initially_ready : Dict NodeId ℕ → List NodeId → List NodeId → List NodeId
initially_ready indegree [] ready = ready
initially_ready indegree (node_id ∷ node_ids) ready =
    initially_ready indegree node_ids
      (if eqb (degree indegree node_id) 0 then node_id ∷ ready else ready)

-- The `for` loop over the successors of a visited node.
unfoldable pub release : List NodeId → List NodeId → Dict NodeId ℕ → List NodeId × Dict NodeId ℕ
release [] ready indegree = (ready, indegree)
release (successor ∷ successors) ready indegree =
    let left = degree indegree successor - 1 in
    release successors (if eqb left 0 then successor ∷ ready else ready)
      (insert successor left indegree)

-- The `while` loop, which pops the end of `ready`; None where the fuel runs out.
unfoldable pub visit : Dict NodeId (List NodeId) → ℕ → ℕ → List NodeId → Dict NodeId ℕ → Option ℕ
visit successors zero visited ready indegree = none
visit successors (suc fuel) visited [] indegree = some visited
visit successors (suc fuel) visited (node_id ∷ ready) indegree =
    let (ready', indegree') = release (successors_of successors node_id) ready indegree in
    visit successors fuel (visited + 1) ready' indegree'

unfoldable pub visit_all : List NodeId → Tables → Result (Unit {0})
unfolding visit initially_ready
visit_all node_ids (successors, indegree) =
    elim (visit successors (length node_ids + 1) 0 (initially_ready indegree (keys indegree) [])
      indegree) [
        | none ↦ err (runtime_error "out of fuel")
        | some visited ↦
            raise_if (not (eqb visited (length node_ids))) (value_error "plan contains a cycle")
      ]

-- The fuel is one more than the nodes.
unfoldable pub validate_ids : List NodeId → List PlanEdge → Result (Unit {0})
unfolding visit_all add_edges to_set
validate_ids node_ids edges = do
  raise_if (not (eqb (length (to_set node_ids)) (length node_ids)))
      (value_error "plan contains duplicate node ids")
  tables ← add_edges (to_set node_ids) edges (map no_successors node_ids, map no_degree node_ids)
  visit_all node_ids tables

unfoldable pub validate_dag : List PlanNode → List PlanEdge → Result (Unit {0})
unfolding validate_ids
validate_dag nodes edges = validate_ids (map (λ node. node.id) nodes) edges

pub record Plan : Type 0 where
  pub execution_id : ExecutionId
  pub revision : ℤ
  pub nodes : List PlanNode
  pub edges : List PlanEdge

unfoldable pub make_plan : Plan → Result Plan
make_plan plan = do
  raise_if (ltb_ℤ plan.revision (pos 0)) (value_error "revision must not be negative")
  validate_dag plan.nodes plan.edges
  ok plan

pub data OperationKind : Type 0 where
  add_node remove_node add_edge remove_edge : OperationKind

pub record PlanOperation : Type 0 where
  pub kind : OperationKind
  pub node : Option PlanNode
  pub node_id : Option NodeId
  pub edge : Option PlanEdge

abbrev pub has_target : PlanOperation → Bool
has_target op = elim op.kind [
  | add_node ↦ is_some op.node && is_none op.node_id && is_none op.edge
  | remove_node ↦ is_none op.node && is_some op.node_id && is_none op.edge
  | add_edge ↦ is_none op.node && is_none op.node_id && is_some op.edge
  | remove_edge ↦ is_none op.node && is_none op.node_id && is_some op.edge
]

unfoldable pub plan_operation : PlanOperation → Result PlanOperation
plan_operation op = do
  raise_if (not (has_target op))
      (value_error "plan operation must carry exactly the target required by its kind")
  ok op

-- `PlanOperation.add_node` and the other class methods hand these fields to the constructor.
abbrev pub adding_node : PlanNode → PlanOperation
adding_node node = record { kind = add_node; node = some node; node_id = none; edge = none }

abbrev pub removing_node : NodeId → PlanOperation
removing_node node_id = record {
  kind = remove_node;
  node = none;
  node_id = some node_id;
  edge = none;
}

abbrev pub adding_edge : PlanEdge → PlanOperation
adding_edge edge = record { kind = add_edge; node = none; node_id = none; edge = some edge }

abbrev pub removing_edge : PlanEdge → PlanOperation
removing_edge edge = record { kind = remove_edge; node = none; node_id = none; edge = some edge }

pub record PlanDelta : Type 0 where
  pub expected_revision : ℤ
  pub operations : List PlanOperation

unfoldable pub plan_delta : PlanDelta → Result PlanDelta
plan_delta delta = do
  raise_if (ltb_ℤ delta.expected_revision (pos 0))
      (value_error "expected_revision must not be negative")
  raise_if (is_empty delta.operations)
      (value_error "operations must contain at least one operation")
  ok delta
