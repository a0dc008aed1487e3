-- ===== src/Memory/Scope.antt =====
-- modules/memory/domain/model.py: the tenant and subject boundary.
use engram_mesh.Common.{
  String, Bool, true, Option, none, some, ◌≡◌, ◌↔◌, ◌&&◌, arith, Eq, ◌==◌, option_beq_iff, nat_eq,
  string_eq, option_eq,
}
use engram_mesh.Common.Result.{Result, ok, ◌>>◌}
use engram_mesh.Kernel.Text.{require_non_blank}
use engram_mesh.Kernel.Ids.{TenantId, SubjectId, AgentInstanceId}

pub record MemoryScope : Type 0 where
  pub tenant_id : TenantId
  pub subject_id : SubjectId
  pub workspace_id : Option String
  pub agent_id : Option AgentInstanceId

-- The constructor.
unfoldable pub memory_scope : MemoryScope → Result MemoryScope
memory_scope scope = elim scope.workspace_id [
  | none ↦ ok scope
  | some workspace_id ↦ do require_non_blank workspace_id "workspace_id"; ok scope
]

-- The equality that `@dataclass` generates.
unfoldable pub scope_beq : MemoryScope → MemoryScope → Bool
scope_beq a b =
    a.tenant_id == b.tenant_id
    && a.subject_id == b.subject_id
    && a.workspace_id == b.workspace_id
    && a.agent_id == b.agent_id

pub scope_beq_iff : (a b : MemoryScope) → (scope_beq a b ≡ true) ↔ (a ≡ b)
unfolding scope_beq
scope_beq_iff a b =
    ground
      (arith, option_beq_iff a.workspace_id b.workspace_id, option_beq_iff a.agent_id b.agent_id)

instance abbrev pub scope_eq : Eq MemoryScope
scope_eq = record { same = scope_beq; same_iff = scope_beq_iff }
