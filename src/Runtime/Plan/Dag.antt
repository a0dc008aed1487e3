-- ===== src/Runtime/Plan/Dag.antt =====
-- What `_validate_dag` promises of the nodes and edges of a plan.
use engram_mesh.Common.{
  ℕ, true, false, String, List, ◌≡◌, sym, subst, arith, length, eqb, Bool-cases, inl, inr, ◌↔◌, ◌⊎◌,
  map, ap,
}
use engram_mesh.Common.Int.{pos, ◌≤ℤ◌}
use engram_mesh.Common.Result.{ok, err, value_error, Result-cases}
use engram_mesh.Kernel.Ids.{NodeId}
use engram_mesh.Runtime.Plan.{
  PlanNode, PlanEdge, Plan, Tables, contains, no_degree, no_successors, to_set, add_edges,
  validate_ids, validate_dag, make_plan,
}
use engram_mesh.Runtime.Plan.Order.{IsNodup, contains-to_set, to_set-IsNodup}
use engram_mesh.Runtime.Plan.Graph.{In}
use engram_mesh.Runtime.Plan.Release.{
  AllProper, AllProper-In, add_edges-ok, add_edges-errors, add_edges-AllProper, HasEdges,
}
use engram_mesh.Runtime.Plan.Valid.{
  IsUpward, AllProper-all, AllProper-Within, keys-no_degree, visit_all_iff, visit_all-answers,
}

-- The identifiers are distinct, every edge joins two nodes, and the nodes can be numbered so that each
-- edge goes upwards.
abbrev pub IsDag : List NodeId → List PlanEdge → Type 0
IsDag ids edges =
    IsNodup ids
    × ((e : PlanEdge)
        → In e edges
        → (contains e.source ids ≡ true) × (contains e.target ids ≡ true))
    × ((rank : NodeId → ℕ) × IsUpward rank edges)

abbrev pub node_ids : List PlanNode → List NodeId
node_ids nodes = map (λ node. node.id) nodes

module _ (ids : List NodeId) (edges : List PlanEdge) where
  known : AllProper ids edges → AllProper (to_set ids) edges
  known = AllProper-Within ids (to_set ids) edges λ v m. ground (arith, contains-to_set v ids)

  unknown : AllProper (to_set ids) edges → AllProper ids edges
  unknown = AllProper-Within (to_set ids) ids edges λ v m. ground (arith, contains-to_set v ids)

  upward-different :
      (rank : NodeId → ℕ) (e : PlanEdge)
      → IsUpward rank edges
      → In e edges
      → eqb e.source e.target ≡ false
  upward-different rank e up i = elim (Bool-cases (eqb e.source e.target)) [
    | inr other ↦ other
    | inl same ↦
        let goes_up = up e i in
        let level : rank e.source ≡ rank e.target = ap rank (ground arith) in absurd (omega arith)
  ]

  -- The tables of proper edges.
  tables :
      AllProper ids edges
      → (after : Tables) × (add_edges (to_set ids) edges (map no_successors ids, map no_degree ids)
          ≡ ok after)
        × HasEdges edges (map no_successors ids, map no_degree ids) after
  tables proper =
      add_edges-ok (to_set ids) edges (map no_successors ids, map no_degree ids) (known proper)
        λ v m.
          subst (λ K. contains v K ≡ true) (sym (keys-no_degree ids))
            (ground (arith, contains-to_set v ids))

  validate_ids-dag : IsDag ids edges → validate_ids ids edges ≡ ok tt
  unfolding validate_ids
  validate_ids-dag (nodup, ends, (rank, up)) =
      let proper =
        AllProper-all ids edges λ e i. (upward-different rank e up i, (ends e i).0, (ends e i).1) in
      let (after, returns, has) = tables proper in
      let all = (visit_all_iff ids edges after.0 after.1 nodup proper has).1 (rank, up) in
      ground (arith, to_set-IsNodup ids)

  validate_ids-IsDag : validate_ids ids edges ≡ ok tt → IsDag ids edges
  unfolding validate_ids
  validate_ids-IsDag h =
      elim (Result-cases
        (add_edges (to_set ids) edges (map no_successors ids, map no_degree ids))) [
          | inl (e, fails) ↦ absurd (ground arith)
          | inr (after, returns) ↦
              let nodup : IsNodup ids = ground (arith, to_set-IsNodup ids) in
              let proper = unknown (
                add_edges-AllProper (to_set ids) edges (map no_successors ids, map no_degree ids)
                  after returns) in
              let (other, returns', has) = tables proper in
              let all =
                (visit_all_iff ids edges other.0 other.1 nodup proper has).0 (ground arith) in
              (nodup, λ e i. (let p = AllProper-In ids edges e proper i in (p.1, p.2)), all)
        ]

  validate_ids-ends :
      (validate_ids ids edges ≡ ok tt)
      ⊎ ((message : String) × (validate_ids ids edges ≡ err (value_error message)))
  unfolding validate_ids
  validate_ids-ends = elim (Bool-cases (eqb (length (to_set ids)) (length ids))) [
    | inr twice ↦ inr ("plan contains duplicate node ids", ground arith)
    | inl distinct ↦
        elim (Result-cases
          (add_edges (to_set ids) edges (map no_successors ids, map no_degree ids))) [
            | inl (e, fails) ↦
                let (message, is_value_error) =
                  add_edges-errors (to_set ids) edges (map no_successors ids, map no_degree ids) e
                    fails in
                inr (message, ground arith)
            | inr (after, returns) ↦
                let nodup = (to_set-IsNodup ids).0 distinct in
                let proper = unknown (
                  add_edges-AllProper (to_set ids) edges (map no_successors ids, map no_degree ids)
                    after returns) in
                let (other, returns', has) = tables proper in
                elim (visit_all-answers ids edges other.0 other.1 nodup proper has) [
                  | inl accepts ↦ inl (ground arith)
                  | inr cycle ↦ inr ("plan contains a cycle", ground arith)
                ]
          ]
  ]

module _ (nodes : List PlanNode) (edges : List PlanEdge) where
  -- The check accepts the nodes and the edges of a plan exactly when the nodes' identifiers are distinct,
  -- every edge joins two of the nodes, and the nodes can be numbered so that each edge goes upwards.
  pub validate_dag_iff : (validate_dag nodes edges ≡ ok tt) ↔ IsDag (node_ids nodes) edges
  unfolding validate_dag
  validate_dag_iff =
      (validate_ids-IsDag (node_ids nodes) edges, validate_ids-dag (node_ids nodes) edges)

  -- The check always ends, and raises nothing but ValueError.
  pub validate_dag_ends :
      (validate_dag nodes edges ≡ ok tt)
      ⊎ ((message : String) × (validate_dag nodes edges ≡ err (value_error message)))
  unfolding validate_dag
  validate_dag_ends = validate_ids-ends (node_ids nodes) edges

-- A plan is built exactly when its revision is not negative and its nodes and edges are acyclic as above:
-- distinct identifiers, edges between nodes of the plan, and a numbering in which edges go upwards.
pub make_plan_iff :
    (plan : Plan)
    → (make_plan plan ≡ ok plan)
      ↔ ((pos 0 ≤ℤ plan.revision) × IsDag (node_ids plan.nodes) plan.edges)
unfolding make_plan
make_plan_iff plan = (
  λ h. elim (Result-cases (validate_dag plan.nodes plan.edges)) [
    | inl (e, fails) ↦ absurd (ground arith)
    | inr (u, accepts) ↦ (ground arith, (validate_dag_iff plan.nodes plan.edges).0 accepts)
  ],
  λ (positive, dag). let accepts = (validate_dag_iff plan.nodes plan.edges).1 dag in ground arith,
)
