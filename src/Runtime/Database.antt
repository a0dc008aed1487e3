-- ===== src/Runtime/Database.antt =====
-- modules/runtime/runtime_state.py and the reads and writes of
-- modules/runtime/adapters/in_memory/database.py. Each read and each write runs whole under the
-- lock, which is free again when it returns or raises: a write is one step of the state.
use engram_mesh.Common.{String, Option, List, [], ◌++◌}
use engram_mesh.Common.Dict.{Dict}
use engram_mesh.Common.Int.{ℤ}
use engram_mesh.Common.Result.{Result, ok, err}
use engram_mesh.Kernel.Datetime.{Datetime}
use engram_mesh.Kernel.Events.{EventEnvelope}
use engram_mesh.Kernel.Ids.{
  ExecutionId, TenantId, SubjectId, AgentInstanceId, ArtifactId, AgentDefinitionId,
}
use engram_mesh.Memory.Scope.{MemoryScope}
use engram_mesh.Runtime.Model.{ExecutionSnapshot}

-- The memory query's part of a fingerprint. The source keeps the text that `str` gives for the scope;
-- here the scope itself is kept, of which that text is a rendering with every field in it.
pub record QueryPart : Type 0 where
  pub query_id : String
  pub text : String
  pub limit : ℤ
  pub scope : MemoryScope
  pub valid_at : Option Datetime
  pub recorded_at : Option Datetime

-- The tuple that `_spec_fingerprint` gives; `query` is none for `(None,)`.
pub record Fingerprint : Type 0 where
  pub tenant_id : TenantId
  pub subject_id : SubjectId
  pub workspace_id : Option String
  pub agent_id : Option AgentInstanceId
  pub objective_ref : ArtifactId
  pub root_agent_id : AgentDefinitionId
  pub query : Option QueryPart
  pub max_input_tokens : ℤ
  pub max_output_tokens : ℤ
  pub max_cost_micros : ℤ
  pub deadline : Datetime
  pub idempotency_key : String

pub record CommittedRuntimeState : Type 0 where
  pub snapshots : Dict ExecutionId ExecutionSnapshot
  pub idempotency_index : Dict (TenantId × String) ExecutionId
  pub fingerprints : Dict ExecutionId Fingerprint
  pub outbox_events : List EventEnvelope

abbrev pub empty_runtime_state : CommittedRuntimeState
empty_runtime_state = record {
  snapshots = [];
  idempotency_index = [];
  fingerprints = [];
  outbox_events = [];
}

-- A callback of `write`: it works on the committed state and on the events that the outbox buffers.
abbrev pub Callback : Type 0
Callback =
    CommittedRuntimeState → List EventEnvelope → Result (CommittedRuntimeState × List EventEnvelope)

-- `read`, whose callback may raise.
abbrev pub read :
    {A : Type 0} → (CommittedRuntimeState → Result A) → CommittedRuntimeState → Result A
read callback state = callback state

-- `write`: the state that is committed, or the exception; then the committed state stays.
unfoldable pub write : Callback → CommittedRuntimeState → Result CommittedRuntimeState
write callback state = elim (callback state []) [
  | err e ↦ err e
  | ok (result, buffered) ↦ ok (record result { outbox_events = result.outbox_events ++ buffered })
]
