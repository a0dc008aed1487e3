-- ===== src/Runtime/Model/Laws.antt =====
-- What the constructors of the runtime contracts promise.
use engram_mesh.Common.{true, false, none, ◌≡◌, ◌↔◌, ◌⊎◌, arith, is_some}
use engram_mesh.Common.Int.{pos, ◌≤ℤ◌, ◌<ℤ◌}
use engram_mesh.Common.Result.{ok}
use engram_mesh.Kernel.Text.{is_blank, require_non_blank}
use engram_mesh.Kernel.Datetime.{is_aware, require_aware, instant_of}
use engram_mesh.Runtime.Model.{
  Budget, make_budget, Suspension, make_suspension, AgentOutcome, agent_outcome, ToolResult,
  tool_result,
}

-- A budget is built exactly when its three limits are not negative and its deadline is aware.
pub make_budget_iff :
    (budget : Budget)
    → (make_budget budget ≡ ok budget) ↔ (
        (pos 0 ≤ℤ budget.max_input_tokens)
        × (pos 0 ≤ℤ budget.max_output_tokens)
        × (pos 0 ≤ℤ budget.max_cost_micros)
        × (is_aware budget.deadline ≡ true))
unfolding make_budget require_aware
make_budget_iff budget = ground arith

-- A suspension is built exactly when its request and its key are not blank, both of its times are
-- aware, and it expires after it was requested.
pub make_suspension_iff :
    (suspension : Suspension)
    → (make_suspension suspension ≡ ok suspension) ↔ (
        (is_blank suspension.request_id ≡ false)
        × (is_blank suspension.idempotency_key ≡ false)
        × (is_aware suspension.requested_at ≡ true)
        × (is_aware suspension.expires_at ≡ true)
        × (instant_of suspension.requested_at <ℤ instant_of suspension.expires_at))
unfolding make_suspension require_aware require_non_blank
make_suspension_iff suspension = ground arith

-- An agent's outcome, and likewise a tool's result, is built exactly when it has an output or a failure
-- and not both.
pub outcome_iff :
    (outcome : AgentOutcome) (result : ToolResult)
    → ((agent_outcome outcome ≡ ok outcome) ↔ (
        (is_some outcome.output_ref ≡ true) × (outcome.failure ≡ none)
        ⊎ (outcome.output_ref ≡ none) × (is_some outcome.failure ≡ true)))
      × ((tool_result result ≡ ok result) ↔ (
          (is_some result.output_ref ≡ true) × (result.failure ≡ none)
          ⊎ (result.output_ref ≡ none) × (is_some result.failure ≡ true)))
unfolding agent_outcome tool_result
outcome_iff outcome result = ground arith
