-- ===== src/Runtime.antt =====
-- The durable multi-agent runtime (services/src/engrammesh/modules/runtime).
pub mod Status
pub mod Transitions
pub mod Model
pub mod Plan
pub mod Database
pub mod Orchestrator
pub mod UseCases
pub mod ListExecutions
pub mod SnapshotCodec
pub mod SnapshotWriter
mod Examples
