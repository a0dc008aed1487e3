-- ===== src/Runtime/UseCases/Examples.antt =====
-- A start request that is sent twice.
use engram_mesh.Common.{ℕ, ◌+◌, Bool, true, false, none, ◌≡◌, ◌≢◌, refl, arith, eqb}
use engram_mesh.Common.Int.{pos}
use engram_mesh.Common.Result.{ok}
use engram_mesh.Kernel.Text.{require_non_blank, is_blank}
use engram_mesh.Kernel.Datetime.{Datetime, aware}
use engram_mesh.Kernel.Ids.{EventId}
use engram_mesh.Runtime.Model.{execution_spec}
use engram_mesh.Runtime.Database.{empty_runtime_state}
use engram_mesh.Runtime.Orchestrator.Start.{pending_snapshot, after_start}
use engram_mesh.Runtime.UseCases.{
  RuntimeAuthorizationRequest, StartExecutionCommand, spec_of, handle_start,
}
use engram_mesh.Runtime.UseCases.Idempotent.{handle_start-twice}

abbrev now : Datetime
now = aware (pos 63_745_056_000_000_000) (pos 0)

abbrev later : Datetime
later = aware (pos 63_745_056_900_000_000) (pos 0)

abbrev event_ids : ℕ → EventId
event_ids k = 100 + k

-- Only the actor 2 may start executions.
abbrev authorize : RuntimeAuthorizationRequest → Bool
authorize request = eqb request.actor_id 2

abbrev command : StartExecutionCommand
command = record {
  correlation_id = 5;
  actor_id = 2;
  scope = record { tenant_id = 1; subject_id = 2; workspace_id = none; agent_id = none };
  objective_ref = 8;
  root_agent_id = 9;
  memory_query = none;
  budget = record {
    max_input_tokens = pos 10;
    max_output_tokens = pos 10;
    max_cost_micros = pos 0;
    deadline = later;
  };
  idempotency_key = "k";
}

is_valid : execution_spec (spec_of command 7) ≡ ok (spec_of command 7)
unfolding execution_spec require_non_blank is_blank
is_valid = refl

other_id : ◌≢◌ {A = ℕ} 17 7
other_id = omega arith

handle_start-twice_example :
    (handle_start authorize now event_ids command 7 empty_runtime_state ≡ (
      ok (record { snapshot = pending_snapshot now (spec_of command 7); created = true }),
      after_start now event_ids (spec_of command 7) empty_runtime_state,
    ))
    × (handle_start authorize later event_ids command 17
          (after_start now event_ids (spec_of command 7) empty_runtime_state)
        ≡ (
          ok (record { snapshot = pending_snapshot now (spec_of command 7); created = false }),
          after_start now event_ids (spec_of command 7) empty_runtime_state,
        ))
handle_start-twice_example =
    handle_start-twice authorize command refl now later event_ids event_ids 7 17 empty_runtime_state
      refl is_valid refl other_id
