-- ===== src/Bootstrap/Examples.antt =====
-- Requests to the API, and the theorems there.
use engram_mesh.Common.{
  true, false, none, some, ◌≡◌, ◌↔◌, refl, ◌==◌, string_eq, nat_eq, if◌then◌else◌,
}
use engram_mesh.Common.Int.{pos}
use engram_mesh.Common.Result.{ok, err, value_error, invalid_token, episode_not_found}
use engram_mesh.Kernel.Datetime.{Datetime, aware, naive, require_aware, require_optional_aware}
use engram_mesh.Kernel.Text.{is_blank, require_non_blank, strip, is_lower}
use engram_mesh.Kernel.Parse.{TextParsers}
use engram_mesh.Memory.Scope.{MemoryScope, memory_scope}
use engram_mesh.Memory.Episode.{user, internal, standard}
use engram_mesh.Memory.Database.{new_database}
use engram_mesh.Memory.RecordEpisode.{Ports, make_command}
use engram_mesh.Memory.RecordEpisode.Outcome.{IsConsistent}
use engram_mesh.Bootstrap.Auth.{
  AuthenticatedPrincipal, AuthSettings, parse_bearer_token, authenticate_tenant_request,
  tenant_auth_context,
}
use engram_mesh.Bootstrap.Auth.Tenant.{bearer_header, parse_bearer_token-header}
use engram_mesh.Bootstrap.Http.Schemas.{
  ScopeRequest, RecordEpisodeRequest, StartExecutionRequest, validate_start_execution,
  validate_budget, validate_workspace_id, validate_memory_query, validate_record_episode,
}
use engram_mesh.Bootstrap.Http.Requests.{
  ReadRequest, resolve_actor_id, parse_correlation_id, to_command, to_start_execution_command,
  to_list_episodes_query, to_list_executions_query,
}
use engram_mesh.Bootstrap.Http.Requests.Bounds.{
  IsListRequest, listed, listed_executions, to_list_episodes_query_iff,
  to_list_executions_query_iff,
}
use engram_mesh.Bootstrap.Http.Requests.Validated.{Answerable, start_validated-Answerable}
use engram_mesh.Bootstrap.Http.Requests.Episodes.{
  complaint, by_complaint, command_of, to_command-complaint,
}
use engram_mesh.Bootstrap.Http.Errors.Table.{handle_exception-injective}
use engram_mesh.Bootstrap.Http.App.Statuses.{Tabled, record_episode-IsRow}
use engram_mesh.Bootstrap.Http.App.{Head, record_episode, record_episode_command}
use engram_mesh.Bootstrap.Http.App.Identity.{IsFrom}
use engram_mesh.Bootstrap.Http.App.Recording.{Course, record_episode-course}
use engram_mesh.Bootstrap.Http.App.Routes.{
  recording, reading_claim, handed, handed-IsFrom, claims_never_read,
}

-- A verifier that knows one token.
abbrev settings : AuthSettings
settings = record {
  oidc_enabled = true;
  verifier = some λ token.
      if token == "t" then ok (record { actor_id = 5; tenant_id = 1 }) else err invalid_token;
}

abbrev parsers : TextParsers
parsers = record {
  uuid = λ s. err (value_error "badly formed hexadecimal UUID string");
  fromisoformat = λ s. err (value_error "Invalid isoformat string");
}

abbrev head : Head
head = record { tenant_id = 1; authorization = some "Bearer t"; correlation_id = none }

abbrev scope_request : ScopeRequest
scope_request = record { tenant_id = 1; subject_id = 2; workspace_id = some "w"; agent_id = none }

abbrev clock : Datetime
clock = aware (pos 63_745_056_000_000_000) (pos 0)

abbrev body : RecordEpisodeRequest
body = record {
  actor_id = none;
  scope = scope_request;
  source_type = user;
  content_ref = 4;
  observed_at = clock;
  content_hash = "sha256:0";
  idempotency_key = "k";
  sensitivity = internal;
  retention_class = standard;
  consent_basis = "contract";
}

abbrev ports : Ports
ports = record { authorize = λ request. true; now = clock; new_memory_id = 10; new_event_id = 20 }

abbrev scope : MemoryScope
scope = record { tenant_id = 1; subject_id = 2; workspace_id = some "w"; agent_id = none }

empty_IsConsistent : IsConsistent new_database.state
empty_IsConsistent = record { index = refl; distinct = tt; announced = refl }

record_episode-course_example :
    Course ports new_database refl empty_IsConsistent refl
      (λ episode. IsFrom settings head.tenant_id head.authorization episode.actor_id episode.scope)
      (record_episode_command settings parsers 9 head body)
record_episode-course_example =
    record_episode-course ports new_database refl empty_IsConsistent refl settings refl parsers 9
      head body

handed_recording : handed settings parsers 9 head (recording body) ≡ ok (5, scope)
unfolding record_episode_command tenant_auth_context authenticate_tenant_request parse_bearer_token
    to_command resolve_actor_id memory_scope make_command require_aware require_non_blank is_blank
    strip is_lower parse_correlation_id
handed_recording = refl

handed-IsFrom_example : IsFrom settings 1 (some "Bearer t") 5 scope
handed-IsFrom_example =
    handed-IsFrom settings parsers 9 head refl (recording body) 5 scope handed_recording

abbrev reading : ReadRequest
reading = record {
  path_tenant_id = 1;
  actor_id = none;
  subject_id = 2;
  workspace_id = some "w";
  agent_id = none;
}

claims_never_read_example :
    ¬ (handed settings parsers 9 head (reading_claim 7 reading) ≡ ok (5, scope))
claims_never_read_example =
    claims_never_read settings parsers 9 head refl (reading_claim 7 reading) 5 scope refl

abbrev principal : AuthenticatedPrincipal
principal = record { actor_id = 5; tenant_id = 1 }

to_list_episodes_query_iff_example :
    (to_list_episodes_query reading (pos 50) none (some principal)
      ≡ ok (listed reading (pos 50) none 5))
    ↔ IsListRequest reading (pos 50) (some principal) 5
      × (listed reading (pos 50) none 5 ≡ listed reading (pos 50) none 5)
to_list_episodes_query_iff_example =
    to_list_episodes_query_iff reading (pos 50) none (some principal)
      (listed reading (pos 50) none 5)

to_list_executions_query_iff_example :
    (to_list_executions_query reading (pos 100) (some "c") (some principal)
      ≡ ok (listed_executions reading (pos 100) (some "c") 5))
    ↔ IsListRequest reading (pos 100) (some principal) 5
      × (listed_executions reading (pos 100) (some "c") 5
          ≡ listed_executions reading (pos 100) (some "c") 5)
to_list_executions_query_iff_example =
    to_list_executions_query_iff reading (pos 100) (some "c") (some principal)
      (listed_executions reading (pos 100) (some "c") 5)

abbrev start_body : StartExecutionRequest
start_body = record {
  actor_id = none;
  scope = scope_request;
  objective_ref = 8;
  root_agent_id = 9;
  memory_query = some (record {
    query_id = "q";
    scope = scope_request;
    text = "what";
    valid_at = none;
    recorded_at = none;
    limit = pos 10;
  });
  budget = record {
    max_input_tokens = pos 10;
    max_output_tokens = pos 10;
    max_cost_micros = pos 0;
    deadline = clock;
  };
  idempotency_key = "k";
}

start_body_valid : validate_start_execution start_body ≡ ok tt
unfolding validate_start_execution validate_budget validate_workspace_id validate_memory_query
    require_aware require_optional_aware require_non_blank is_blank
start_body_valid = refl

start_validated-Answerable_example :
    Answerable (to_start_execution_command 1 3 start_body (some principal))
start_validated-Answerable_example =
    start_validated-Answerable 1 3 (some principal) start_body start_body_valid

-- A time without a zone.
abbrev naive_body : RecordEpisodeRequest
naive_body = record body { observed_at = naive 63_745_056_000_000_000 }

naive_body_valid : validate_record_episode naive_body ≡ ok tt
unfolding validate_record_episode validate_workspace_id require_non_blank is_blank
naive_body_valid = refl

to_command-complaint_example :
    to_command 1 3 naive_body (some principal)
    ≡ by_complaint (complaint naive_body) (command_of 1 3 naive_body 5)
to_command-complaint_example =
    to_command-complaint 1 3 naive_body (some principal) 5 naive_body_valid refl (refl, refl)

body_valid : validate_record_episode body ≡ ok tt
unfolding validate_record_episode validate_workspace_id require_non_blank is_blank
body_valid = refl

record_episode-IsRow_example :
    Tabled ports 1 5 body new_database
      (record_episode ports (to_command 1 3 body (some principal)) new_database)
record_episode-IsRow_example =
    record_episode-IsRow ports new_database refl empty_IsConsistent refl 1 3 5 body (some principal)
      body_valid refl (refl, refl)

handle_exception-injective_example : episode_not_found ≡ episode_not_found
handle_exception-injective_example =
    handle_exception-injective episode_not_found episode_not_found refl refl refl

t_is_solid : is_blank "t" ≡ false
unfolding is_blank
t_is_solid = refl

t_is_trimmed : strip "t" ≡ "t"
unfolding strip is_blank
t_is_trimmed = refl

parse_bearer_token-header_example : parse_bearer_token (some (bearer_header "t")) ≡ ok "t"
parse_bearer_token-header_example = parse_bearer_token-header "t" t_is_solid t_is_trimmed
