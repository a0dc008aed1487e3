-- ===== src/Bootstrap/Http/Errors/Table.antt =====
-- bootstrap/http/errors.py: what a client can tell from the response to an exception.
use engram_mesh.Common.{
  String, Bool, true, false, Option, none, some, List, [], ◌∷◌, string_eq, ◌≡◌, refl, sym, ap, ◌∙◌,
  arith,
}
use engram_mesh.Common.Dict.{lookup}
use engram_mesh.Common.Result.{
  Error, type_error, value_error, runtime_error, overflow_error, key_error, index_error,
  attribute_error, episode_idempotency_conflict, invalid_episode_cursor, invalid_claim_cursor,
  claims_unavailable, episode_authorization_denied, episode_read_authorization_denied,
  episode_not_found, claim_not_found, claim_read_authorization_denied,
  execution_idempotency_conflict, execution_not_found, invalid_execution_transition,
  invalid_execution_cursor, execution_authorization_denied, orchestration_unavailable,
  authentication_required, invalid_token, tenant_access_denied, tenant_mismatch,
  invalid_correlation_id, limit_out_of_range, actor_id_not_allowed, actor_id_required,
  memory_query_scope_mismatch, configuration_error, readiness_error,
}
use engram_mesh.Kernel.Json.{Value, str, mapping}
use engram_mesh.Kernel.Parse.{field_of}
use engram_mesh.Bootstrap.Http.Errors.{JsonResponse, handle_exception, error_envelope}

-- The exceptions of the domain and of the credentials, by the codes that a client knows them by.
abbrev by_code : List (String × Error)
by_code =
    ("authentication_required", authentication_required)
    ∷ ("invalid_token", invalid_token)
    ∷ ("tenant_access_denied", tenant_access_denied)
    ∷ ("episode_authorization_denied", episode_authorization_denied)
    ∷ ("episode_read_authorization_denied", episode_read_authorization_denied)
    ∷ ("claim_read_authorization_denied", claim_read_authorization_denied)
    ∷ ("episode_not_found", episode_not_found)
    ∷ ("claim_not_found", claim_not_found)
    ∷ ("invalid_episode_cursor", invalid_episode_cursor)
    ∷ ("invalid_claim_cursor", invalid_claim_cursor)
    ∷ ("invalid_execution_cursor", invalid_execution_cursor)
    ∷ ("episode_idempotency_conflict", episode_idempotency_conflict)
    ∷ ("execution_authorization_denied", execution_authorization_denied)
    ∷ ("execution_not_found", execution_not_found)
    ∷ ("execution_idempotency_conflict", execution_idempotency_conflict)
    ∷ ("invalid_execution_transition", invalid_execution_transition)
    ∷ ("orchestration_unavailable", orchestration_unavailable)
    ∷ ("claims_unavailable", claims_unavailable)
    ∷ []

-- `response["error"]["code"]` of a body.
abbrev pub code_of : Value → Option String
code_of (mapping _ fields) = elim (field_of "error" fields) [
  | some (mapping _ error) ↦ elim (field_of "code" error) [ some (str code) ↦ some code | _ ↦ none ]
  | _ ↦ none
]
code_of _ = none

-- The exception that a client reads off a response.
abbrev decode : JsonResponse → Option Error
decode response = elim (code_of response.content) [ none ↦ none | some code ↦ lookup code by_code ]

-- The exception carries no text, and is of a class of the table.
abbrev pub is_identified : Error → Bool
is_identified authentication_required = true
is_identified invalid_token = true
is_identified tenant_access_denied = true
is_identified episode_authorization_denied = true
is_identified episode_read_authorization_denied = true
is_identified claim_read_authorization_denied = true
is_identified episode_not_found = true
is_identified claim_not_found = true
is_identified invalid_episode_cursor = true
is_identified invalid_claim_cursor = true
is_identified invalid_execution_cursor = true
is_identified episode_idempotency_conflict = true
is_identified execution_authorization_denied = true
is_identified execution_not_found = true
is_identified execution_idempotency_conflict = true
is_identified invalid_execution_transition = true
is_identified orchestration_unavailable = true
is_identified claims_unavailable = true
is_identified _ = false

decode-handle_exception :
    (e : Error) → is_identified e ≡ true → decode (handle_exception e) ≡ some e
unfolding handle_exception error_envelope
decode-handle_exception authentication_required h = refl
decode-handle_exception invalid_token h = refl
decode-handle_exception tenant_access_denied h = refl
decode-handle_exception episode_authorization_denied h = refl
decode-handle_exception episode_read_authorization_denied h = refl
decode-handle_exception claim_read_authorization_denied h = refl
decode-handle_exception episode_not_found h = refl
decode-handle_exception claim_not_found h = refl
decode-handle_exception invalid_episode_cursor h = refl
decode-handle_exception invalid_claim_cursor h = refl
decode-handle_exception invalid_execution_cursor h = refl
decode-handle_exception episode_idempotency_conflict h = refl
decode-handle_exception execution_authorization_denied h = refl
decode-handle_exception execution_not_found h = refl
decode-handle_exception execution_idempotency_conflict h = refl
decode-handle_exception invalid_execution_transition h = refl
decode-handle_exception orchestration_unavailable h = refl
decode-handle_exception claims_unavailable h = refl
decode-handle_exception (type_error m) h = ground arith
decode-handle_exception (value_error m) h = ground arith
decode-handle_exception (runtime_error m) h = ground arith
decode-handle_exception overflow_error h = ground arith
decode-handle_exception key_error h = ground arith
decode-handle_exception index_error h = ground arith
decode-handle_exception attribute_error h = ground arith
decode-handle_exception (tenant_mismatch m) h = ground arith
decode-handle_exception (invalid_correlation_id m) h = ground arith
decode-handle_exception (limit_out_of_range m) h = ground arith
decode-handle_exception (actor_id_not_allowed m) h = ground arith
decode-handle_exception (actor_id_required m) h = ground arith
decode-handle_exception (memory_query_scope_mismatch m) h = ground arith
decode-handle_exception (configuration_error c m) h = ground arith
decode-handle_exception (readiness_error c) h = ground arith

-- A client can tell the exceptions of the domain and of the credentials apart: two of them with the same
-- response are the same exception.
pub handle_exception-injective :
    (a b : Error)
    → is_identified a ≡ true
    → is_identified b ≡ true
    → handle_exception a ≡ handle_exception b
    → a ≡ b
handle_exception-injective a b identified_a identified_b same =
    let decoded : some a ≡ some b =
      sym (decode-handle_exception a identified_a)
      ∙ ap decode same
      ∙ decode-handle_exception b identified_b in
    cc
