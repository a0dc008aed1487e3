-- ===== src/Runtime/Transitions.antt =====
-- modules/runtime/domain/state.py: the tables of legal transitions.
pub mod Reach
use engram_mesh.Common.{Bool, List, [], ◌∷◌, any, ◌==◌, Eq}
use engram_mesh.Runtime.Status.{ExecutionStatus, NodeStatus, execution_status_eq, node_status_eq}

unfoldable pub execution_transitions : ExecutionStatus → List ExecutionStatus
execution_transitions ExecutionStatus.pending =
    ExecutionStatus.planning ∷ ExecutionStatus.cancelling ∷ []
execution_transitions ExecutionStatus.planning =
    ExecutionStatus.running ∷ ExecutionStatus.waiting ∷ ExecutionStatus.cancelling
    ∷ ExecutionStatus.failed ∷ []
execution_transitions ExecutionStatus.running =
    ExecutionStatus.waiting ∷ ExecutionStatus.retrying ∷ ExecutionStatus.cancelling
    ∷ ExecutionStatus.compensating ∷ ExecutionStatus.succeeded ∷ ExecutionStatus.failed ∷ []
execution_transitions ExecutionStatus.waiting =
    ExecutionStatus.running ∷ ExecutionStatus.cancelling ∷ ExecutionStatus.failed ∷ []
execution_transitions ExecutionStatus.retrying =
    ExecutionStatus.running ∷ ExecutionStatus.cancelling ∷ ExecutionStatus.failed ∷ []
execution_transitions ExecutionStatus.cancelling =
    ExecutionStatus.compensating ∷ ExecutionStatus.cancelled ∷ ExecutionStatus.failed ∷ []
execution_transitions ExecutionStatus.compensating =
    ExecutionStatus.cancelled ∷ ExecutionStatus.failed ∷ []
execution_transitions ExecutionStatus.succeeded = []
execution_transitions ExecutionStatus.failed = []
execution_transitions ExecutionStatus.cancelled = []

unfoldable pub node_transitions : NodeStatus → List NodeStatus
node_transitions NodeStatus.pending =
    NodeStatus.ready ∷ NodeStatus.skipped ∷ NodeStatus.cancelled ∷ []
node_transitions NodeStatus.ready =
    NodeStatus.running ∷ NodeStatus.skipped ∷ NodeStatus.cancelled ∷ []
node_transitions NodeStatus.running =
    NodeStatus.waiting ∷ NodeStatus.retrying ∷ NodeStatus.cancelling ∷ NodeStatus.compensating
    ∷ NodeStatus.succeeded ∷ NodeStatus.failed ∷ []
node_transitions NodeStatus.waiting =
    NodeStatus.running ∷ NodeStatus.cancelling ∷ NodeStatus.failed ∷ []
node_transitions NodeStatus.retrying =
    NodeStatus.running ∷ NodeStatus.cancelling ∷ NodeStatus.failed ∷ []
node_transitions NodeStatus.cancelling =
    NodeStatus.compensating ∷ NodeStatus.cancelled ∷ NodeStatus.failed ∷ []
node_transitions NodeStatus.compensating = NodeStatus.compensated ∷ NodeStatus.failed ∷ []
node_transitions NodeStatus.succeeded = []
node_transitions NodeStatus.failed = []
node_transitions NodeStatus.cancelled = []
node_transitions NodeStatus.skipped = []
node_transitions NodeStatus.compensated = []

unfoldable pub can_transition_execution : ExecutionStatus → ExecutionStatus → Bool
unfolding execution_transitions
can_transition_execution current target = any (λ s. target == s) (execution_transitions current)

unfoldable pub can_transition_node : NodeStatus → NodeStatus → Bool
unfolding node_transitions
can_transition_node current target = any (λ s. target == s) (node_transitions current)
