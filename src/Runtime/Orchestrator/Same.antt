-- ===== src/Runtime/Orchestrator/Same.antt =====
-- When two requests to start have the same fingerprint: what the comparison of the tuples means.
use engram_mesh.Common.{
  Bool, ◌&&◌, true, Option, none, some, ◌≡◌, ◌↔◌, arith, eqb_iff, nat_eq, string_eq, option_eq,
  ◌==◌,
}
use engram_mesh.Common.Int.{int_eq}
use engram_mesh.Kernel.Datetime.{
  Datetime, naive, aware, is_aware, instant_of, same_time, same_optional_time,
}
use engram_mesh.Memory.Scope.{scope_beq, scope_eq, scope_beq_iff}
use engram_mesh.Memory.Query.{MemoryQuery}
use engram_mesh.Runtime.Model.{ExecutionSpec}
use engram_mesh.Runtime.Orchestrator.{
  query_part, spec_fingerprint, same_fingerprint, same_query_part,
}

-- Equal moments, whatever their offsets.
pub record SameMoment (a b : Datetime) : Type 0 where
  pub kind : is_aware a ≡ is_aware b
  pub moment : instant_of a ≡ instant_of b

abbrev pub SameOptionalMoment : Option Datetime → Option Datetime → Type 0
SameOptionalMoment none none = Unit
SameOptionalMoment (some a) (some b) = SameMoment a b
SameOptionalMoment _ _ = ⊥

pub record SameQuery (a b : MemoryQuery) : Type 0 where
  pub query_id : a.query_id ≡ b.query_id
  pub text : a.text ≡ b.text
  pub limit : a.limit ≡ b.limit
  pub scope : a.scope ≡ b.scope
  pub valid_at : SameOptionalMoment a.valid_at b.valid_at
  pub recorded_at : SameOptionalMoment a.recorded_at b.recorded_at

abbrev pub SameOptionalQuery : Option MemoryQuery → Option MemoryQuery → Type 0
SameOptionalQuery none none = Unit
SameOptionalQuery (some a) (some b) = SameQuery a b
SameOptionalQuery _ _ = ⊥

-- Two requests ask for the same: all is equal but the identifier, and times may differ in their offsets.
pub record SameRequest (a b : ExecutionSpec) : Type 0 where
  pub scope : a.scope ≡ b.scope
  pub objective_ref : a.objective_ref ≡ b.objective_ref
  pub root_agent_id : a.root_agent_id ≡ b.root_agent_id
  pub memory_query : SameOptionalQuery a.memory_query b.memory_query
  pub max_input_tokens : a.budget.max_input_tokens ≡ b.budget.max_input_tokens
  pub max_output_tokens : a.budget.max_output_tokens ≡ b.budget.max_output_tokens
  pub max_cost_micros : a.budget.max_cost_micros ≡ b.budget.max_cost_micros
  pub deadline : SameMoment a.budget.deadline b.budget.deadline
  pub idempotency_key : a.idempotency_key ≡ b.idempotency_key

same_time_iff : (a b : Datetime) → (same_time a b ≡ true) ↔ SameMoment a b
same_time_iff (naive a) (naive b) = ground arith
same_time_iff (naive a) (aware b _) = ground arith
same_time_iff (aware a _) (naive b) = ground arith
same_time_iff (aware a _) (aware b _) = ground arith

same_optional_time_iff :
    (a b : Option Datetime) → (same_optional_time a b ≡ true) ↔ SameOptionalMoment a b
same_optional_time_iff none none = ground arith
same_optional_time_iff none (some b) = ground arith
same_optional_time_iff (some a) none = ground arith
same_optional_time_iff (some a) (some b) = same_time_iff a b

-- The tests of a chain hold together exactly when each holds.
all_six :
    (a b c d e f : Bool)
    → (a && b && c && d && e && f ≡ true)
      ↔ ((a ≡ true) × (b ≡ true) × (c ≡ true) × (d ≡ true) × (e ≡ true) × (f ≡ true))
all_six a b c d e f = ground arith

grouped :
    (a b c d e f g h i j k l : Bool)
    → (a && b && c && d && e && f && g && h && i && j && k && l ≡ true) ↔ (
        (a && b && c && d ≡ true)
        × (e ≡ true)
        × (f ≡ true)
        × (g ≡ true)
        × (h ≡ true)
        × (i ≡ true)
        × (j ≡ true)
        × (k ≡ true)
        × (l ≡ true))
grouped a b c d e f g h i j k l = ground arith

SameQuery-iff :
    (a b : MemoryQuery)
    → (same_query_part (query_part (some a)) (query_part (some b)) ≡ true) ↔ SameQuery a b
unfolding same_query_part
SameQuery-iff a b =
    let all =
      all_six (a.query_id == b.query_id) (a.text == b.text) (a.limit == b.limit)
        (a.scope == b.scope) (same_optional_time a.valid_at b.valid_at)
        (same_optional_time a.recorded_at b.recorded_at) in
    (
      λ h.
          let (i, t, l, s, v, r) = all.0 h in
          record {
            query_id = (string_eq.same_iff a.query_id b.query_id).0 i;
            text = (string_eq.same_iff a.text b.text).0 t;
            limit = (int_eq.same_iff a.limit b.limit).0 l;
            scope = (scope_beq_iff a.scope b.scope).0 s;
            valid_at = (same_optional_time_iff a.valid_at b.valid_at).0 v;
            recorded_at = (same_optional_time_iff a.recorded_at b.recorded_at).0 r;
          },
      λ same. all.1 (
        (string_eq.same_iff a.query_id b.query_id).1 same.query_id,
        (string_eq.same_iff a.text b.text).1 same.text,
        (int_eq.same_iff a.limit b.limit).1 same.limit,
        (scope_beq_iff a.scope b.scope).1 same.scope,
        (same_optional_time_iff a.valid_at b.valid_at).1 same.valid_at,
        (same_optional_time_iff a.recorded_at b.recorded_at).1 same.recorded_at,
      ),
    )

same_query_part_iff :
    (a b : Option MemoryQuery)
    → (same_query_part (query_part a) (query_part b) ≡ true) ↔ SameOptionalQuery a b
unfolding same_query_part
same_query_part_iff none none = ground arith
same_query_part_iff none (some b) = ground arith
same_query_part_iff (some a) none = ground arith
same_query_part_iff (some a) (some b) = SameQuery-iff a b

-- A fingerprint's test by its parts: the scope, then the rest.
by_parts :
    (a b : ExecutionSpec)
    → (same_fingerprint (spec_fingerprint a) (spec_fingerprint b) ≡ true) ↔ (
        (a.scope == b.scope ≡ true)
        × (a.objective_ref == b.objective_ref ≡ true)
        × (a.root_agent_id == b.root_agent_id ≡ true)
        × (same_query_part (query_part a.memory_query) (query_part b.memory_query) ≡ true)
        × (a.budget.max_input_tokens == b.budget.max_input_tokens ≡ true)
        × (a.budget.max_output_tokens == b.budget.max_output_tokens ≡ true)
        × (a.budget.max_cost_micros == b.budget.max_cost_micros ≡ true)
        × (same_time a.budget.deadline b.budget.deadline ≡ true)
        × (a.idempotency_key == b.idempotency_key ≡ true))
unfolding same_fingerprint spec_fingerprint scope_beq
by_parts a b =
    grouped (a.scope.tenant_id == b.scope.tenant_id) (a.scope.subject_id == b.scope.subject_id)
      (a.scope.workspace_id == b.scope.workspace_id) (a.scope.agent_id == b.scope.agent_id)
      (a.objective_ref == b.objective_ref) (a.root_agent_id == b.root_agent_id)
      (same_query_part (query_part a.memory_query) (query_part b.memory_query))
      (a.budget.max_input_tokens == b.budget.max_input_tokens)
      (a.budget.max_output_tokens == b.budget.max_output_tokens)
      (a.budget.max_cost_micros == b.budget.max_cost_micros)
      (same_time a.budget.deadline b.budget.deadline) (a.idempotency_key == b.idempotency_key)

-- The fingerprints of two requests agree exactly when the requests ask for the same.
pub same_fingerprint_iff :
    (a b : ExecutionSpec)
    → (same_fingerprint (spec_fingerprint a) (spec_fingerprint b) ≡ true) ↔ SameRequest a b
same_fingerprint_iff a b = (
  λ h.
      let (s, o, g, q, i, u, c, d, k) = (by_parts a b).0 h in
      record {
        scope = (scope_beq_iff a.scope b.scope).0 s;
        objective_ref = (eqb_iff a.objective_ref b.objective_ref).0 o;
        root_agent_id = (eqb_iff a.root_agent_id b.root_agent_id).0 g;
        memory_query = (same_query_part_iff a.memory_query b.memory_query).0 q;
        max_input_tokens =
            (int_eq.same_iff a.budget.max_input_tokens b.budget.max_input_tokens).0 i;
        max_output_tokens =
            (int_eq.same_iff a.budget.max_output_tokens b.budget.max_output_tokens).0 u;
        max_cost_micros = (int_eq.same_iff a.budget.max_cost_micros b.budget.max_cost_micros).0 c;
        deadline = (same_time_iff a.budget.deadline b.budget.deadline).0 d;
        idempotency_key = (string_eq.same_iff a.idempotency_key b.idempotency_key).0 k;
      },
  λ same. (by_parts a b).1 (
    (scope_beq_iff a.scope b.scope).1 same.scope,
    (eqb_iff a.objective_ref b.objective_ref).1 same.objective_ref,
    (eqb_iff a.root_agent_id b.root_agent_id).1 same.root_agent_id,
    (same_query_part_iff a.memory_query b.memory_query).1 same.memory_query,
    (int_eq.same_iff a.budget.max_input_tokens b.budget.max_input_tokens).1 same.max_input_tokens,
    (int_eq.same_iff a.budget.max_output_tokens b.budget.max_output_tokens).1
        same.max_output_tokens,
    (int_eq.same_iff a.budget.max_cost_micros b.budget.max_cost_micros).1 same.max_cost_micros,
    (same_time_iff a.budget.deadline b.budget.deadline).1 same.deadline,
    (string_eq.same_iff a.idempotency_key b.idempotency_key).1 same.idempotency_key,
  ),
)
