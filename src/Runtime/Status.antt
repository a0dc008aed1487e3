-- ===== src/Runtime/Status.antt =====
-- modules/runtime/domain/model.py: the lifecycle states.
use engram_mesh.Common.{String, Bool, true, ◌≡◌, ◌↔◌, arith, Eq, ℕ, eqb}

pub data ExecutionStatus : Type 0 where
  pending planning running waiting retrying cancelling : ExecutionStatus
  compensating succeeded failed cancelled : ExecutionStatus

pub data NodeStatus : Type 0 where
  pending ready running waiting retrying cancelling compensating : NodeStatus
  succeeded failed cancelled skipped compensated : NodeStatus

-- `.value`
abbrev pub execution_status_value : ExecutionStatus → String
execution_status_value ExecutionStatus.pending = "pending"
execution_status_value ExecutionStatus.planning = "planning"
execution_status_value ExecutionStatus.running = "running"
execution_status_value ExecutionStatus.waiting = "waiting"
execution_status_value ExecutionStatus.retrying = "retrying"
execution_status_value ExecutionStatus.cancelling = "cancelling"
execution_status_value ExecutionStatus.compensating = "compensating"
execution_status_value ExecutionStatus.succeeded = "succeeded"
execution_status_value ExecutionStatus.failed = "failed"
execution_status_value ExecutionStatus.cancelled = "cancelled"

abbrev pub node_status_value : NodeStatus → String
node_status_value NodeStatus.pending = "pending"
node_status_value NodeStatus.ready = "ready"
node_status_value NodeStatus.running = "running"
node_status_value NodeStatus.waiting = "waiting"
node_status_value NodeStatus.retrying = "retrying"
node_status_value NodeStatus.cancelling = "cancelling"
node_status_value NodeStatus.compensating = "compensating"
node_status_value NodeStatus.succeeded = "succeeded"
node_status_value NodeStatus.failed = "failed"
node_status_value NodeStatus.cancelled = "cancelled"
node_status_value NodeStatus.skipped = "skipped"
node_status_value NodeStatus.compensated = "compensated"

-- The members in the order of their declaration, to compare them by.
abbrev execution_rank : ExecutionStatus → ℕ
execution_rank ExecutionStatus.pending = 0
execution_rank ExecutionStatus.planning = 1
execution_rank ExecutionStatus.running = 2
execution_rank ExecutionStatus.waiting = 3
execution_rank ExecutionStatus.retrying = 4
execution_rank ExecutionStatus.cancelling = 5
execution_rank ExecutionStatus.compensating = 6
execution_rank ExecutionStatus.succeeded = 7
execution_rank ExecutionStatus.failed = 8
execution_rank ExecutionStatus.cancelled = 9

abbrev node_rank : NodeStatus → ℕ
node_rank NodeStatus.pending = 0
node_rank NodeStatus.ready = 1
node_rank NodeStatus.running = 2
node_rank NodeStatus.waiting = 3
node_rank NodeStatus.retrying = 4
node_rank NodeStatus.cancelling = 5
node_rank NodeStatus.compensating = 6
node_rank NodeStatus.succeeded = 7
node_rank NodeStatus.failed = 8
node_rank NodeStatus.cancelled = 9
node_rank NodeStatus.skipped = 10
node_rank NodeStatus.compensated = 11

abbrev pub same_execution_status : ExecutionStatus → ExecutionStatus → Bool
same_execution_status a b = eqb (execution_rank a) (execution_rank b)

abbrev pub same_node_status : NodeStatus → NodeStatus → Bool
same_node_status a b = eqb (node_rank a) (node_rank b)

pub same_execution_status_iff :
    (a b : ExecutionStatus) → (same_execution_status a b ≡ true) ↔ (a ≡ b)
same_execution_status_iff a b = ground arith

pub same_node_status_iff : (a b : NodeStatus) → (same_node_status a b ≡ true) ↔ (a ≡ b)
same_node_status_iff a b = ground arith

instance abbrev pub execution_status_eq : Eq ExecutionStatus
execution_status_eq = record { same = same_execution_status; same_iff = same_execution_status_iff }

instance abbrev pub node_status_eq : Eq NodeStatus
node_status_eq = record { same = same_node_status; same_iff = same_node_status_iff }
