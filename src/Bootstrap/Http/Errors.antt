-- ===== src/Bootstrap/Http/Errors.antt =====
-- bootstrap/http/errors.py: the responses to exceptions. Starlette picks the handler of the exception's
-- own class, or of its nearest base; an exception of no class of the table meets the one of `Exception`.
pub mod Table
use engram_mesh.Common.{String, ℕ, true, false, List, [], ◌∷◌, map}
use engram_mesh.Common.Int.{pos}
use engram_mesh.Common.Result.{
  Error, type_error, value_error, runtime_error, overflow_error, key_error, index_error,
  attribute_error, episode_idempotency_conflict, invalid_episode_cursor, invalid_claim_cursor,
  claims_unavailable, episode_authorization_denied, episode_read_authorization_denied,
  episode_not_found, claim_not_found, claim_read_authorization_denied,
  execution_idempotency_conflict, execution_not_found, invalid_execution_transition,
  invalid_execution_cursor, execution_authorization_denied, orchestration_unavailable,
  authentication_required, invalid_token, tenant_access_denied, tenant_mismatch,
  invalid_correlation_id, limit_out_of_range, actor_id_not_allowed, actor_id_required,
  memory_query_scope_mismatch, configuration_error, readiness_error,
}
use engram_mesh.Kernel.Json.{
  Value, str, mapping, sequence, Fields, end, field, text, Items, nil, item,
}

pub record JsonResponse : Type 0 where
  pub status_code : ℕ
  pub content : Value

-- A dict with a text for each key.
abbrev pub texts : List (String × Value) → Fields
texts [] = end
texts ((key, value) ∷ entries) = field (text key) value (texts entries)

abbrev pub list_of : List Value → Items
list_of [] = nil
list_of (value ∷ values) = item value (list_of values)

unfoldable pub error_envelope : String → String → List Value → Value
error_envelope code message details = mapping false (
    texts (
      (
        "error",
        mapping false (
            texts (
              ("code", str code)
              ∷ ("message", str message)
              ∷ ("details", sequence false (list_of details))
              ∷ [])),
      )
      ∷ []))

-- An entry of `details`.
abbrev pub detail : List String → String → Value
detail loc message = mapping false (
    texts (
      ("type", str "value_error")
      ∷ ("loc", sequence false (list_of (map str loc)))
      ∷ ("msg", str message)
      ∷ []))

-- The answer with an envelope without details.
abbrev pub refusal : ℕ → String → String → JsonResponse
refusal status_code code message = record {
  status_code = status_code;
  content = error_envelope code message [];
}

-- The answer to a request that is not valid.
abbrev pub invalid : List Value → JsonResponse
invalid details = record {
  status_code = 422;
  content = error_envelope "validation_error" "request validation failed" details;
}

abbrev pub unhandled_exception_handler : JsonResponse
unhandled_exception_handler = refusal 500 "internal_error" "internal server error"

-- `ConfigurationError.errors`
abbrev pub configuration_errors : String → String → Value
configuration_errors code message = mapping false (
    texts (
      ("type", str "configuration_error")
      ∷ ("loc", sequence true nil)
      ∷ ("msg", str message)
      ∷ ("code", str code)
      ∷ []))

-- The handlers of `register_exception_handlers`, one for each class.
abbrev pub authentication_required_handler : JsonResponse
authentication_required_handler = refusal 401 "authentication_required" "authentication is required"

abbrev pub invalid_token_handler : JsonResponse
invalid_token_handler = refusal 401 "invalid_token" "invalid token"

abbrev pub tenant_access_denied_handler : JsonResponse
tenant_access_denied_handler = refusal 403 "tenant_access_denied" "tenant access is denied"

abbrev pub episode_authorization_denied_handler : JsonResponse
episode_authorization_denied_handler =
    refusal 403 "episode_authorization_denied" "episode recording is not authorized"

abbrev pub episode_read_authorization_denied_handler : JsonResponse
episode_read_authorization_denied_handler =
    refusal 403 "episode_read_authorization_denied" "episode reading is not authorized"

abbrev pub claim_read_authorization_denied_handler : JsonResponse
claim_read_authorization_denied_handler =
    refusal 403 "claim_read_authorization_denied" "claim reading is not authorized"

abbrev pub episode_not_found_handler : JsonResponse
episode_not_found_handler = refusal 404 "episode_not_found" "episode not found"

abbrev pub claim_not_found_handler : JsonResponse
claim_not_found_handler = refusal 404 "claim_not_found" "claim not found"

abbrev pub invalid_episode_cursor_handler : JsonResponse
invalid_episode_cursor_handler =
    refusal 422 "invalid_episode_cursor" "episode list cursor is invalid"

abbrev pub invalid_claim_cursor_handler : JsonResponse
invalid_claim_cursor_handler = refusal 422 "invalid_claim_cursor" "claim list cursor is invalid"

abbrev pub invalid_execution_cursor_handler : JsonResponse
invalid_execution_cursor_handler =
    refusal 422 "invalid_execution_cursor" "execution list cursor is invalid"

abbrev pub episode_idempotency_conflict_handler : JsonResponse
episode_idempotency_conflict_handler =
    refusal 409 "episode_idempotency_conflict" "idempotency key conflicts with an existing episode"

abbrev pub execution_authorization_denied_handler : JsonResponse
execution_authorization_denied_handler =
    refusal 403 "execution_authorization_denied" "execution is not authorized"

abbrev pub execution_not_found_handler : JsonResponse
execution_not_found_handler = refusal 404 "execution_not_found" "execution not found"

abbrev pub execution_idempotency_conflict_handler : JsonResponse
execution_idempotency_conflict_handler =
    refusal 409 "execution_idempotency_conflict"
      "idempotency key conflicts with an existing execution"

abbrev pub invalid_execution_transition_handler : JsonResponse
invalid_execution_transition_handler =
    refusal 409 "invalid_execution_transition" "execution transition is not allowed"

abbrev pub orchestration_unavailable_handler : JsonResponse
orchestration_unavailable_handler =
    refusal 503 "orchestration_unavailable" "orchestration backend is unavailable"

abbrev pub claims_unavailable_handler : JsonResponse
claims_unavailable_handler = refusal 503 "claims_unavailable" "claim store is unavailable"

abbrev pub memory_query_scope_mismatch_handler : String → JsonResponse
memory_query_scope_mismatch_handler message =
    invalid (detail ("memory_query" ∷ "scope" ∷ []) message ∷ [])

abbrev pub actor_id_not_allowed_handler : String → JsonResponse
actor_id_not_allowed_handler message = refusal 422 "actor_id_not_allowed" message

abbrev pub actor_id_required_handler : String → JsonResponse
actor_id_required_handler message = refusal 422 "actor_id_required" message

abbrev pub tenant_mismatch_handler : String → JsonResponse
tenant_mismatch_handler message = invalid (detail ("scope" ∷ "tenant_id" ∷ []) message ∷ [])

abbrev pub invalid_correlation_id_handler : String → JsonResponse
invalid_correlation_id_handler message =
    invalid (detail ("header" ∷ "X-Correlation-Id" ∷ []) message ∷ [])

abbrev pub limit_out_of_range_handler : String → JsonResponse
limit_out_of_range_handler message = invalid (detail ("query" ∷ "limit" ∷ []) message ∷ [])

abbrev pub configuration_error_handler : String → String → JsonResponse
configuration_error_handler code message = record {
  status_code = 503;
  content =
      error_envelope "service_unavailable" "service is unavailable"
        (configuration_errors code message ∷ []);
}

abbrev pub readiness_error_handler : String → JsonResponse
readiness_error_handler code = record {
  status_code = 503;
  content = mapping false (texts (("status", str "not_ready") ∷ ("reason", str code) ∷ []));
}

-- The handler that an exception meets.
unfoldable pub handle_exception : Error → JsonResponse
handle_exception authentication_required = authentication_required_handler
handle_exception invalid_token = invalid_token_handler
handle_exception tenant_access_denied = tenant_access_denied_handler
handle_exception episode_authorization_denied = episode_authorization_denied_handler
handle_exception episode_read_authorization_denied = episode_read_authorization_denied_handler
handle_exception claim_read_authorization_denied = claim_read_authorization_denied_handler
handle_exception episode_not_found = episode_not_found_handler
handle_exception claim_not_found = claim_not_found_handler
handle_exception invalid_episode_cursor = invalid_episode_cursor_handler
handle_exception invalid_claim_cursor = invalid_claim_cursor_handler
handle_exception invalid_execution_cursor = invalid_execution_cursor_handler
handle_exception episode_idempotency_conflict = episode_idempotency_conflict_handler
handle_exception execution_authorization_denied = execution_authorization_denied_handler
handle_exception execution_not_found = execution_not_found_handler
handle_exception execution_idempotency_conflict = execution_idempotency_conflict_handler
handle_exception invalid_execution_transition = invalid_execution_transition_handler
handle_exception orchestration_unavailable = orchestration_unavailable_handler
handle_exception claims_unavailable = claims_unavailable_handler
handle_exception (memory_query_scope_mismatch message) = memory_query_scope_mismatch_handler message
handle_exception (actor_id_not_allowed message) = actor_id_not_allowed_handler message
handle_exception (actor_id_required message) = actor_id_required_handler message
handle_exception (tenant_mismatch message) = tenant_mismatch_handler message
handle_exception (invalid_correlation_id message) = invalid_correlation_id_handler message
handle_exception (limit_out_of_range message) = limit_out_of_range_handler message
handle_exception (configuration_error code message) = configuration_error_handler code message
handle_exception (readiness_error code) = readiness_error_handler code
handle_exception (type_error message) = unhandled_exception_handler
handle_exception (value_error message) = unhandled_exception_handler
handle_exception (runtime_error message) = unhandled_exception_handler
handle_exception overflow_error = unhandled_exception_handler
handle_exception key_error = unhandled_exception_handler
handle_exception index_error = unhandled_exception_handler
handle_exception attribute_error = unhandled_exception_handler
