-- ===== src/Memory/Episode.antt =====
-- modules/memory/domain/model.py: the episode and its classifications.
use engram_mesh.Common.{String, Bool, true, false, ◌≡◌, ◌↔◌, arith, Eq}
use engram_mesh.Common.Result.{Result, ok, ◌>>◌}
use engram_mesh.Kernel.Text.{require_non_blank}
use engram_mesh.Kernel.Datetime.{Datetime, require_aware}
use engram_mesh.Kernel.Ids.{MemoryId, SubjectId, ArtifactId}
use engram_mesh.Memory.Scope.{MemoryScope}

pub data SourceType : Type 0 where
  user agent tool file system : SourceType

pub data Sensitivity : Type 0 where
  public internal confidential restricted : Sensitivity

pub data RetentionClass : Type 0 where
  ephemeral standard extended legal_hold : RetentionClass

-- `.value` of each `StrEnum`.
abbrev pub source_type_value : SourceType → String
source_type_value user = "user"
source_type_value agent = "agent"
source_type_value tool = "tool"
source_type_value file = "file"
source_type_value system = "system"

abbrev pub sensitivity_value : Sensitivity → String
sensitivity_value public = "public"
sensitivity_value internal = "internal"
sensitivity_value confidential = "confidential"
sensitivity_value restricted = "restricted"

abbrev pub retention_class_value : RetentionClass → String
retention_class_value ephemeral = "ephemeral"
retention_class_value standard = "standard"
retention_class_value extended = "extended"
retention_class_value legal_hold = "legal_hold"

-- `is` on members.
abbrev pub same_source_type : SourceType → SourceType → Bool
same_source_type user user = true
same_source_type agent agent = true
same_source_type tool tool = true
same_source_type file file = true
same_source_type system system = true
same_source_type _ _ = false

abbrev pub same_sensitivity : Sensitivity → Sensitivity → Bool
same_sensitivity public public = true
same_sensitivity internal internal = true
same_sensitivity confidential confidential = true
same_sensitivity restricted restricted = true
same_sensitivity _ _ = false

abbrev pub same_retention_class : RetentionClass → RetentionClass → Bool
same_retention_class ephemeral ephemeral = true
same_retention_class standard standard = true
same_retention_class extended extended = true
same_retention_class legal_hold legal_hold = true
same_retention_class _ _ = false

pub same_source_type_iff : (a b : SourceType) → (same_source_type a b ≡ true) ↔ (a ≡ b)
same_source_type_iff a b = ground arith

pub same_sensitivity_iff : (a b : Sensitivity) → (same_sensitivity a b ≡ true) ↔ (a ≡ b)
same_sensitivity_iff a b = ground arith

pub same_retention_class_iff : (a b : RetentionClass) → (same_retention_class a b ≡ true) ↔ (a ≡ b)
same_retention_class_iff a b = ground arith

instance abbrev pub source_type_eq : Eq SourceType
source_type_eq = record { same = same_source_type; same_iff = same_source_type_iff }

instance abbrev pub sensitivity_eq : Eq Sensitivity
sensitivity_eq = record { same = same_sensitivity; same_iff = same_sensitivity_iff }

instance abbrev pub retention_class_eq : Eq RetentionClass
retention_class_eq = record { same = same_retention_class; same_iff = same_retention_class_iff }

pub record Episode : Type 0 where
  pub id : MemoryId
  pub scope : MemoryScope
  pub actor_id : SubjectId
  pub source_type : SourceType
  pub content_ref : ArtifactId
  pub observed_at : Datetime
  pub ingested_at : Datetime
  pub content_hash : String
  pub idempotency_key : String
  pub sensitivity : Sensitivity
  pub retention_class : RetentionClass
  pub consent_basis : String

-- The constructor.
unfoldable pub make_episode : Episode → Result Episode
make_episode episode = do
  require_aware episode.observed_at "observed_at"
  require_aware episode.ingested_at "ingested_at"
  require_non_blank episode.content_hash "content_hash"
  require_non_blank episode.idempotency_key "idempotency_key"
  require_non_blank episode.consent_basis "consent_basis"
  ok episode
