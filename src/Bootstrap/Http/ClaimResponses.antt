-- ===== src/Bootstrap/Http/ClaimResponses.antt =====
-- bootstrap/http/schemas.py and mappers.py: claims as response bodies, whose validators may refuse a claim.
use engram_mesh.Common.{String, Bool, not, Option, List, [], ◌∷◌}
use engram_mesh.Common.Result.{
  Result, ok, err, value_error, index_error, raise_if, traverse, ◌>>=◌, ◌>>◌,
}
use engram_mesh.Kernel.Text.{require_non_blank}
use engram_mesh.Kernel.Datetime.{Datetime, require_aware, require_optional_aware}
use engram_mesh.Kernel.Ids.{UuidValue, uuid_text}
use engram_mesh.Kernel.Json.{Float}
use engram_mesh.Memory.Claim.{Claim, EvidenceRef, EpistemicKind, ClaimStatus, in_unit_interval}
use engram_mesh.Bootstrap.Http.Schemas.{ScopeResponse}
use engram_mesh.Bootstrap.Http.Responses.{scope_to_response}

pub record EvidenceRefResponse : Type 0 where
  pub episode_id : UuidValue
  pub source_span : String
  pub extractor_version : String
  pub model_ref : Option String
  pub prompt_version : Option String

unfoldable pub evidence_ref_response : EvidenceRefResponse → Result EvidenceRefResponse
evidence_ref_response evidence = do
  require_non_blank evidence.source_span "source_span"
  require_non_blank evidence.extractor_version "extractor_version"
  ok evidence

pub record ClaimResponse : Type 0 where
  pub claim_id : String
  pub scope : ScopeResponse
  pub episode_id : UuidValue
  pub subject : String
  pub predicate : String
  pub object_value : String
  pub polarity : Bool
  pub epistemic_kind : EpistemicKind
  pub confidence : Float
  pub valid_from : Datetime
  pub valid_to : Option Datetime
  pub recorded_from : Datetime
  pub recorded_to : Option Datetime
  pub status : ClaimStatus
  pub extractor_version : String
  pub evidence : List EvidenceRefResponse

-- The fields and their validators, in the order of their declaration.
unfoldable pub claim_response : ClaimResponse → Result ClaimResponse
claim_response claim = do
  require_non_blank claim.subject "field"
  require_non_blank claim.predicate "field"
  require_non_blank claim.object_value "field"
  raise_if (not (in_unit_interval claim.confidence)) (value_error "Input should be between 0 and 1")
  require_aware claim.valid_from "timestamp"
  require_optional_aware claim.valid_to "valid_to"
  require_aware claim.recorded_from "timestamp"
  require_optional_aware claim.recorded_to "recorded_to"
  require_non_blank claim.extractor_version "field"
  ok claim

unfoldable pub evidence_to_response : EvidenceRef → Result EvidenceRefResponse
evidence_to_response ref = evidence_ref_response (record {
  episode_id = ref.episode_id;
  source_span = ref.source_span;
  extractor_version = ref.extractor_version;
  model_ref = ref.model_ref;
  prompt_version = ref.prompt_version;
})

-- `claim.evidence[0]`
abbrev first_evidence : List EvidenceRef → Result EvidenceRef
first_evidence [] = err index_error
first_evidence (ref ∷ refs) = ok ref

unfoldable pub claim_to_response : Claim → Result ClaimResponse
claim_to_response claim = do
  first ← first_evidence claim.evidence
  evidence ← traverse evidence_to_response claim.evidence
  claim_response (record {
    claim_id = uuid_text claim.id;
    scope = scope_to_response claim.scope;
    episode_id = first.episode_id;
    subject = claim.subject;
    predicate = claim.predicate;
    object_value = claim.object_value;
    polarity = claim.polarity;
    epistemic_kind = claim.epistemic_kind;
    confidence = claim.confidence;
    valid_from = claim.valid_from;
    valid_to = claim.valid_to;
    recorded_from = claim.recorded_from;
    recorded_to = claim.recorded_to;
    status = claim.status;
    extractor_version = first.extractor_version;
    evidence = evidence;
  })
