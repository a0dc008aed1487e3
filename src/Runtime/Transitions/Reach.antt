-- ===== src/Runtime/Transitions/Reach.antt =====
-- Executions and nodes as state machines: what legal transitions can and cannot do.
use engram_mesh.Common.{
  Bool, true, false, ◌≡◌, ◌⊎◌, inl, inr, refl, subst, arith, ℕ, ◌≤◌, Bool-cases,
}
use engram_mesh.Runtime.Status.{ExecutionStatus, NodeStatus}
use engram_mesh.Runtime.Transitions.{can_transition_execution, can_transition_node}

-- A run of legal transitions.
pub data Leads (s : ExecutionStatus) : ExecutionStatus → Type 0 where
  here : Leads s s
  next : {t u : ExecutionStatus} → Leads s t → can_transition_execution t u ≡ true → Leads s u

pub data NodeLeads (s : NodeStatus) : NodeStatus → Type 0 where
  here : NodeLeads s s
  next : {t u : NodeStatus} → NodeLeads s t → can_transition_node t u ≡ true → NodeLeads s u

abbrev pub is_terminal : ExecutionStatus → Bool
is_terminal ExecutionStatus.succeeded = true
is_terminal ExecutionStatus.failed = true
is_terminal ExecutionStatus.cancelled = true
is_terminal _ = false

-- The phase of the life of an execution: before work, at work, winding down, over.
abbrev pub phase : ExecutionStatus → ℕ
phase ExecutionStatus.pending = 0
phase ExecutionStatus.planning = 1
phase ExecutionStatus.running = 2
phase ExecutionStatus.waiting = 2
phase ExecutionStatus.retrying = 2
phase ExecutionStatus.cancelling = 3
phase ExecutionStatus.compensating = 4
phase ExecutionStatus.succeeded = 5
phase ExecutionStatus.failed = 5
phase ExecutionStatus.cancelled = 5

abbrev pub node_phase : NodeStatus → ℕ
node_phase NodeStatus.pending = 0
node_phase NodeStatus.ready = 1
node_phase NodeStatus.running = 2
node_phase NodeStatus.waiting = 2
node_phase NodeStatus.retrying = 2
node_phase NodeStatus.cancelling = 3
node_phase NodeStatus.compensating = 4
node_phase _ = 5

phase-le_of_step : (s t : ExecutionStatus) → can_transition_execution s t ≡ true → phase s ≤ phase t
unfolding can_transition_execution
phase-le_of_step s t h = ground arith

node_phase-le_of_step :
    (s t : NodeStatus) → can_transition_node s t ≡ true → node_phase s ≤ node_phase t
unfolding can_transition_node
node_phase-le_of_step s t h = ground arith

-- An execution never goes back to an earlier phase: in particular one that is cancelling or
-- compensating is never again pending, planning, running, waiting or retrying.
pub Leads-phase : (s : ExecutionStatus) {t : ExecutionStatus} → Leads s t → phase s ≤ phase t
Leads-phase s here = omega arith
Leads-phase s (next {t = t} {u = u} run step) =
    omega (arith, Leads-phase s run, phase-le_of_step t u step)

-- The same of a plan node, from pending over ready and work to cancelling, compensating and its end.
pub NodeLeads-phase :
    (s : NodeStatus) {t : NodeStatus} → NodeLeads s t → node_phase s ≤ node_phase t
NodeLeads-phase s here = omega arith
NodeLeads-phase s (next {t = t} {u = u} run step) =
    omega (arith, NodeLeads-phase s run, node_phase-le_of_step t u step)

stuck : (s t : ExecutionStatus) → is_terminal s ≡ true → can_transition_execution s t ≡ true → ⊥
unfolding can_transition_execution
stuck s t e h = ground arith

-- The way out of each status that is not terminal.
exit_of : (s : ExecutionStatus) → is_terminal s ≡ false → Leads s ExecutionStatus.cancelled
unfolding can_transition_execution
exit_of ExecutionStatus.pending h =
    next {t = ExecutionStatus.cancelling} (next {t = ExecutionStatus.pending} here refl) refl
exit_of ExecutionStatus.planning h =
    next {t = ExecutionStatus.cancelling} (next {t = ExecutionStatus.planning} here refl) refl
exit_of ExecutionStatus.running h =
    next {t = ExecutionStatus.cancelling} (next {t = ExecutionStatus.running} here refl) refl
exit_of ExecutionStatus.waiting h =
    next {t = ExecutionStatus.cancelling} (next {t = ExecutionStatus.waiting} here refl) refl
exit_of ExecutionStatus.retrying h =
    next {t = ExecutionStatus.cancelling} (next {t = ExecutionStatus.retrying} here refl) refl
exit_of ExecutionStatus.cancelling h = next {t = ExecutionStatus.cancelling} here refl
exit_of ExecutionStatus.compensating h = next {t = ExecutionStatus.compensating} here refl
exit_of ExecutionStatus.succeeded h = ground arith
exit_of ExecutionStatus.failed h = ground arith
exit_of ExecutionStatus.cancelled h = ground arith

Leads-terminal :
    (s : ExecutionStatus) {t : ExecutionStatus} → is_terminal s ≡ true → Leads s t → t ≡ s
Leads-terminal s e here = refl
Leads-terminal s e (next {t = t} {u = u} run step) =
    let same = Leads-terminal s e run in
    absurd (stuck s u e (subst (λ v. can_transition_execution v u ≡ true) same step))

-- An execution that has succeeded, failed or been cancelled stays as it is, and from every other status
-- legal transitions lead to cancelled.
pub Leads-end :
    (s : ExecutionStatus)
    → ((is_terminal s ≡ true) × ((t : ExecutionStatus) → Leads s t → t ≡ s))
      ⊎ ((is_terminal s ≡ false) × Leads s ExecutionStatus.cancelled)
Leads-end s = elim (Bool-cases (is_terminal s)) [
  | inl over ↦ inl (over, λ t run. Leads-terminal s over run)
  | inr open_still ↦ inr (open_still, exit_of s open_still)
]
