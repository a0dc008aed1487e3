-- ===== src/Memory/Claim.antt =====
-- modules/memory/domain/model.py: claims, their evidence, and procedure versions.
pub mod Laws
use engram_mesh.Common.{
  ℕ, ◌^◌, String, Bool, true, false, not, ◌||◌, ◌&&◌, Option, none, some, List, [], any, is_empty,
  ◌==◌,
}
use engram_mesh.Common.Int.{ℤ, pos, leb_ℤ}
use engram_mesh.Common.Result.{Result, ok, err, value_error, type_error, raise_if, ◌>>=◌, ◌>>◌}
use engram_mesh.Kernel.Text.{is_blank, require_non_blank}
use engram_mesh.Kernel.Datetime.{Datetime, require_aware, require_optional_aware, not_later}
use engram_mesh.Kernel.Ids.{MemoryId, SubjectId, ArtifactId}
use engram_mesh.Kernel.Json.{Float, nan, infinite, finite, Value, is_mapping}
use engram_mesh.Kernel.Freeze.{freeze_schema_value}
use engram_mesh.Memory.Scope.{MemoryScope, scope_eq}
use Prim.Native.String.{◌++◌}

pub data EpistemicKind : Type 0 where
  observed extracted inferred human_confirmed : EpistemicKind

pub data ClaimStatus : Type 0 where
  proposed accepted disputed retracted superseded : ClaimStatus

pub data TemporalStatus : Type 0 where
  current historical transition : TemporalStatus

abbrev pub epistemic_kind_value : EpistemicKind → String
epistemic_kind_value observed = "observed"
epistemic_kind_value extracted = "extracted"
epistemic_kind_value inferred = "inferred"
epistemic_kind_value human_confirmed = "human_confirmed"

abbrev pub claim_status_value : ClaimStatus → String
claim_status_value proposed = "proposed"
claim_status_value accepted = "accepted"
claim_status_value disputed = "disputed"
claim_status_value retracted = "retracted"
claim_status_value superseded = "superseded"

pub record EvidenceRef : Type 0 where
  pub episode_id : MemoryId
  pub source_span : String
  pub extractor_version : String
  pub model_ref : Option String
  pub prompt_version : Option String

unfoldable pub evidence_ref : EvidenceRef → Result EvidenceRef
evidence_ref evidence = do
  raise_if (is_blank evidence.source_span) (value_error "source_span must not be blank")
  raise_if (is_blank evidence.extractor_version) (value_error "extractor_version must not be blank")
  ok evidence

pub record Claim : Type 0 where
  pub id : MemoryId
  pub scope : MemoryScope
  pub subject : String
  pub predicate : String
  pub object_value : String
  pub polarity : Bool
  pub epistemic_kind : EpistemicKind
  pub confidence : Float
  pub valid_from : Datetime
  pub valid_to : Option Datetime
  pub recorded_from : Datetime
  pub recorded_to : Option Datetime
  pub status : ClaimStatus
  pub evidence : List EvidenceRef

-- The end of `_require_half_open_interval`, for an interval whose ends are aware.
abbrev pub ends_early : Datetime → Option Datetime → Bool
ends_early start none = false
ends_early start (some end) = not_later end start

unfoldable pub require_half_open_interval :
    Datetime → Option Datetime → String → String → Result (Unit {0})
require_half_open_interval start end start_name end_name = do
  require_aware start start_name
  require_optional_aware end end_name
  raise_if (ends_early start end) (value_error (end_name ++ (" must be later than " ++ start_name)))

-- 1.0, in the units of `Float`.
unfoldable pub unit_confidence : ℕ
unit_confidence = 2 ^ 1074

-- `0.0 <= confidence <= 1.0`
unfoldable pub in_unit_interval : Float → Bool
in_unit_interval nan = false
in_unit_interval (infinite negative) = false
in_unit_interval (finite units) = leb_ℤ (pos 0) units && leb_ℤ units (pos unit_confidence)

unfoldable pub make_claim : Claim → Result Claim
make_claim claim = do
  require_half_open_interval claim.valid_from claim.valid_to "valid_from" "valid_to"
  require_half_open_interval claim.recorded_from claim.recorded_to "recorded_from" "recorded_to"
  raise_if (not (in_unit_interval claim.confidence))
      (value_error "confidence must be between 0 and 1")
  raise_if (is_empty claim.evidence) (value_error "evidence must contain at least one reference")
  ok claim

pub data ApprovalStatus : Type 0 where
  candidate evaluated approved rejected : ApprovalStatus

pub record ProcedureVersion : Type 0 where
  pub id : MemoryId
  pub version : ℤ
  pub content_ref : ArtifactId
  pub input_schema : Value
  pub preconditions : List String
  pub evaluation_score : Option Float
  pub approval_status : ApprovalStatus
  pub derived_from : List MemoryId
  pub created_by : SubjectId

unfoldable pub procedure_version : ProcedureVersion → Result ProcedureVersion
procedure_version procedure = do
  raise_if (leb_ℤ procedure.version (pos 0)) (value_error "version must be positive")
  input_schema ← freeze_schema_value procedure.input_schema
  raise_if (not (is_mapping input_schema)) (type_error "input_schema must be a mapping")
  ok (record procedure { input_schema = input_schema })

abbrev pub is_trusted : ProcedureVersion → Bool
is_trusted procedure = elim procedure.approval_status [ approved ↦ true | _ ↦ false ]

pub record EvidenceItem : Type 0 where
  pub claim : Claim
  pub temporal_status : TemporalStatus
  pub lexical_score : Float
  pub semantic_score : Float
  pub temporal_score : Float
  pub graph_score : Float
  pub rerank_score : Float

pub record EvidencePacket : Type 0 where
  pub query_id : String
  pub scope : MemoryScope
  pub items : List EvidenceItem
  pub generated_at : Datetime

unfoldable pub evidence_packet : EvidencePacket → Result EvidencePacket
evidence_packet packet = do
  require_non_blank packet.query_id "query_id"
  require_aware packet.generated_at "generated_at"
  raise_if (any (λ item. not (item.claim.scope == packet.scope)) packet.items)
      (value_error "every evidence item claim scope must match packet scope")
  ok packet
