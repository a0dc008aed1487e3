-- ===== src/Kernel/Ids.antt =====
-- shared/kernel/ids.py: identifiers, each a UUID. A UUID is its 128-bit integer, by which
-- Python compares and orders UUIDs.
use Prim.Native.String.{◌++◌}
use engram_mesh.Common.{ℕ, ◌^◌, ◌/◌, String, ◌≡◌, refl}
use engram_mesh.Kernel.Text.{digits_of}

abbrev pub Uuid : Type 0
Uuid = ℕ

-- The classes differ in name only; a value of one never meets a value of another in the models.
abbrev pub UuidValue : Type 0
UuidValue = Uuid

abbrev pub TenantId : Type 0
TenantId = UuidValue

abbrev pub SubjectId : Type 0
SubjectId = UuidValue

abbrev pub AgentDefinitionId : Type 0
AgentDefinitionId = UuidValue

abbrev pub AgentInstanceId : Type 0
AgentInstanceId = UuidValue

abbrev pub ExecutionId : Type 0
ExecutionId = UuidValue

abbrev pub NodeId : Type 0
NodeId = UuidValue

abbrev pub AttemptId : Type 0
AttemptId = UuidValue

abbrev pub EffectId : Type 0
EffectId = UuidValue

abbrev pub EventId : Type 0
EventId = UuidValue

abbrev pub CorrelationId : Type 0
CorrelationId = UuidValue

abbrev pub ArtifactId : Type 0
ArtifactId = UuidValue

abbrev pub MemoryId : Type 0
MemoryId = UuidValue

-- `str(id)`: the canonical text, 8-4-4-4-12 hexadecimal digits.
unfoldable pub uuid_text : UuidValue → String
uuid_text u =
    digits_of 16 8 (u / 16 ^ 24)
    ++ ("-"
        ++ (digits_of 16 4 (u / 16 ^ 20)
            ++ ("-"
                ++ (digits_of 16 4 (u / 16 ^ 16)
                    ++ ("-" ++ (digits_of 16 4 (u / 16 ^ 12) ++ ("-" ++ digits_of 16 12 u)))))))

uuid_text_sample :
    uuid_text 0x123e4567e89b12d3a456426614174000 ≡ "123e4567-e89b-12d3-a456-426614174000"
unfolding uuid_text digits_of
uuid_text_sample = refl
