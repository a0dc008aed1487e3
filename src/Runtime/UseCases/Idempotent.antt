-- ===== src/Runtime/UseCases/Idempotent.antt =====
-- A start request that is sent again, over the handler and the orchestrator.
use engram_mesh.Common.{
  ℕ, Bool, true, false, Option, none, some, ◌≡◌, ◌≢◌, arith, ap, ◌∙◌, refl, if◌then◌else◌, nat_eq,
  string_eq, pair_eq, option_eq, eq_refl, eqb,
}
use engram_mesh.Common.Dict.{lookup, lookup-insert_self}
use engram_mesh.Common.Int.{int_eq}
use engram_mesh.Common.Result.{ok, err, execution_idempotency_conflict}
use engram_mesh.Kernel.Datetime.{Datetime, naive, aware, is_aware, same_time, same_optional_time}
use engram_mesh.Kernel.Ids.{ExecutionId, EventId}
use engram_mesh.Memory.Scope.{scope_eq}
use engram_mesh.Runtime.Model.{execution_spec}
use engram_mesh.Runtime.Database.{CommittedRuntimeState, Fingerprint, QueryPart}
use engram_mesh.Runtime.Orchestrator.{
  start, index_key, same_query_part, same_fingerprint, spec_fingerprint,
}
use engram_mesh.Runtime.Orchestrator.Start.{pending_snapshot, after_start, start-new, start-known}
use engram_mesh.Runtime.UseCases.{
  RuntimeAuthorizationRequest, StartExecutionCommand, start_execution, spec_of, start_result,
  handle_start,
}

same_time_refl : (t : Datetime) → same_time t t ≡ true
same_time_refl (naive wall) = eq_refl wall
same_time_refl (aware instant offset) = eq_refl instant

same_optional_time_refl : (t : Option Datetime) → same_optional_time t t ≡ true
same_optional_time_refl none = refl
same_optional_time_refl (some t) = same_time_refl t

same_query_part_refl : (part : Option QueryPart) → same_query_part part part ≡ true
unfolding same_query_part
same_query_part_refl none = refl
same_query_part_refl (some part) = ground (
  arith,
  eq_refl part.query_id,
  eq_refl part.text,
  eq_refl part.limit,
  eq_refl part.scope,
  same_optional_time_refl part.valid_at,
  same_optional_time_refl part.recorded_at,
)

same_fingerprint_refl : (f : Fingerprint) → same_fingerprint f f ≡ true
unfolding same_fingerprint
same_fingerprint_refl f = ground (
  arith,
  eq_refl f.tenant_id,
  eq_refl f.subject_id,
  eq_refl f.workspace_id,
  eq_refl f.agent_id,
  eq_refl f.objective_ref,
  eq_refl f.root_agent_id,
  same_query_part_refl f.query,
  eq_refl f.max_input_tokens,
  eq_refl f.max_output_tokens,
  eq_refl f.max_cost_micros,
  same_time_refl f.deadline,
  eq_refl f.idempotency_key,
)

-- Whether a command makes a specification does not depend on the new identifier.
spec_of-same :
    (command : StartExecutionCommand) (first second : ExecutionId)
    → execution_spec (spec_of command first) ≡ ok (spec_of command first)
    → execution_spec (spec_of command second) ≡ ok (spec_of command second)
unfolding execution_spec
spec_of-same command first second valid = ground arith

module _ (authorize : RuntimeAuthorizationRequest → Bool) (command : StartExecutionCommand)
    (allowed : authorize
        record { actor_id = command.actor_id; scope = command.scope; action = start_execution }
      ≡ true) where
  handle_start-start :
      (now : Datetime) (new_event_id : ℕ → EventId) (id : ExecutionId)
      (state : CommittedRuntimeState)
      → execution_spec (spec_of command id) ≡ ok (spec_of command id)
      → handle_start authorize now new_event_id command id state
        ≡ start_result authorize now new_event_id id
            (start now new_event_id (spec_of command id) state)
  unfolding handle_start
  handle_start-start now new_event_id id state valid = ground arith

  -- An authorized and valid command whose key is new starts a pending execution under the new identifier.
  -- Sent again at any later time, with another identifier, it gives that same execution, says that it was
  -- not created, and writes nothing.
  pub handle_start-twice :
      (now later : Datetime) (event_ids later_event_ids : ℕ → EventId) (first second : ExecutionId)
      (state : CommittedRuntimeState)
      → is_aware now ≡ true
      → execution_spec (spec_of command first) ≡ ok (spec_of command first)
      → lookup (command.scope.tenant_id, command.idempotency_key) state.idempotency_index ≡ none
      → second ≢ first
      → (handle_start authorize now event_ids command first state ≡ (
        ok (record { snapshot = pending_snapshot now (spec_of command first); created = true }),
        after_start now event_ids (spec_of command first) state,
      ))
        × (handle_start authorize later later_event_ids command second
              (after_start now event_ids (spec_of command first) state)
            ≡ (
              ok (record {
                snapshot = pending_snapshot now (spec_of command first);
                created = false;
              }),
              after_start now event_ids (spec_of command first) state,
            ))
  unfolding spec_fingerprint
  handle_start-twice now later event_ids later_event_ids first second state timed valid unused
        other =
      let spec = spec_of command first in
      let again = spec_of command second in
      let after = after_start now event_ids spec state in
      let started = start-new now event_ids spec state timed unused in
      let known =
        start-known later later_event_ids again after first (spec_fingerprint spec)
          (pending_snapshot now spec)
          (lookup-insert_self (index_key now event_ids spec) first state.idempotency_index)
          (lookup-insert_self first (spec_fingerprint spec) state.fingerprints)
          (lookup-insert_self first (pending_snapshot now spec) state.snapshots) refl in
      let differ : eqb first second ≡ false = ground arith in
      let same = same_fingerprint_refl (spec_fingerprint spec) in
      (
        handle_start-start now event_ids first state valid
            ∙ ap (start_result authorize now event_ids first) started
            ∙ ap (λ b. (ok (record { snapshot = pending_snapshot now spec; created = b }), after))
                (eq_refl first),
        handle_start-start later later_event_ids second after
              (spec_of-same command first second valid)
            ∙ ap (start_result authorize later later_event_ids second) known
            ∙ ap
                (λ b. start_result authorize later later_event_ids second (
                  (if b
                      then ok (pending_snapshot now spec)
                      else err execution_idempotency_conflict),
                  after,
                ))
                same
            ∙ ap (λ b. (ok (record { snapshot = pending_snapshot now spec; created = b }), after))
                differ,
      )
