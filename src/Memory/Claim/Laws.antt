-- ===== src/Memory/Claim/Laws.antt =====
-- What the constructors of claims and evidence packets promise.
use engram_mesh.Common.{String, true, Option, none, some, [], ◌≡◌, ◌≢◌, ◌↔◌, arith}
use engram_mesh.Common.Int.{pos, ◌≤ℤ◌, ◌<ℤ◌}
use engram_mesh.Common.Result.{ok}
use engram_mesh.Kernel.Json.{Float, finite}
use engram_mesh.Kernel.Datetime.{
  Datetime, is_aware, instant_of, require_aware, require_optional_aware,
}
use engram_mesh.Memory.Claim.{
  Claim, make_claim, require_half_open_interval, in_unit_interval, unit_confidence,
}

-- An interval with an aware start that is open, or ends at an aware time after its start.
abbrev pub IsInterval : Datetime → Option Datetime → Type 0
IsInterval start none = is_aware start ≡ true
IsInterval start (some end) =
    (is_aware start ≡ true) × (is_aware end ≡ true) × (instant_of start <ℤ instant_of end)

-- A finite number of the closed interval from 0 to 1.
abbrev pub IsConfidence : Float → Type 0
IsConfidence (finite units) = (pos 0 ≤ℤ units) × (units ≤ℤ pos unit_confidence)
IsConfidence _ = ⊥

require_half_open_interval_iff :
    (start : Datetime) (end : Option Datetime) (a b : String)
    → (require_half_open_interval start end a b ≡ ok tt) ↔ IsInterval start end
unfolding require_half_open_interval require_aware require_optional_aware
require_half_open_interval_iff start end a b = ground arith

in_unit_interval_iff : (x : Float) → (in_unit_interval x ≡ true) ↔ IsConfidence x
unfolding in_unit_interval
in_unit_interval_iff x = ground arith

-- A claim is built exactly when both of its intervals are half open with a later, aware end where they
-- have one, its confidence is a number from 0 to 1 (neither NaN nor infinite), and it has evidence; and
-- then it is the claim that was described.
pub make_claim_iff :
    (claim : Claim)
    → (make_claim claim ≡ ok claim) ↔ (
        IsInterval claim.valid_from claim.valid_to
        × IsInterval claim.recorded_from claim.recorded_to
        × IsConfidence claim.confidence
        × (claim.evidence ≢ []))
unfolding make_claim
make_claim_iff claim = ground (
  arith,
  require_half_open_interval_iff claim.valid_from claim.valid_to "valid_from" "valid_to",
  require_half_open_interval_iff claim.recorded_from claim.recorded_to "recorded_from"
      "recorded_to",
  in_unit_interval_iff claim.confidence,
)
