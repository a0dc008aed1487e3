-- ===== src/Bootstrap/Http/Requests/Episodes.antt =====
-- bootstrap/http/mappers.py: the body of a new episode, which schemas.py checks for its scope alone.
use Prim.Native.String.{◌++◌}
use engram_mesh.Common.{
  if◌then◌else◌, String, true, not, Option, none, some, ◌≡◌, arith, ◌==◌, nat_eq,
}
use engram_mesh.Common.Result.{Result, ok, err, value_error}
use engram_mesh.Kernel.Ids.{TenantId, CorrelationId, SubjectId}
use engram_mesh.Kernel.Datetime.{is_aware, require_aware}
use engram_mesh.Kernel.Text.{is_blank, require_non_blank}
use engram_mesh.Memory.RecordEpisode.{RecordEpisodeCommand, make_command}
use engram_mesh.Bootstrap.Auth.{AuthenticatedPrincipal}
use engram_mesh.Bootstrap.Http.Schemas.{RecordEpisodeRequest, validate_record_episode}
use engram_mesh.Bootstrap.Http.Requests.{scope_fields, to_command}
use engram_mesh.Bootstrap.Http.Requests.Bounds.{IsActor, resolve_actor_id_iff}
use engram_mesh.Bootstrap.Http.Requests.Validated.{memory_scope_lem}

-- The first complaint about a body: its time is naive, or one of its texts is blank.
abbrev pub complaint : RecordEpisodeRequest → Option String
complaint body =
    if not (is_aware body.observed_at)
    then some "observed_at must be timezone-aware"
    else if is_blank body.content_hash
    then some ("content_hash" ++ " must not be blank")
    else if is_blank body.idempotency_key
    then some ("idempotency_key" ++ " must not be blank")
    else if is_blank body.consent_basis
    then some ("consent_basis" ++ " must not be blank")
    else none

-- The command with the fields of a body.
abbrev pub command_of :
    TenantId → CorrelationId → RecordEpisodeRequest → SubjectId → RecordEpisodeCommand
command_of tenant_id correlation_id body actor_id = record {
  correlation_id = correlation_id;
  actor_id = actor_id;
  scope = scope_fields tenant_id body.scope;
  source_type = body.source_type;
  content_ref = body.content_ref;
  observed_at = body.observed_at;
  content_hash = body.content_hash;
  idempotency_key = body.idempotency_key;
  sensitivity = body.sensitivity;
  retention_class = body.retention_class;
  consent_basis = body.consent_basis;
}

-- What becomes of a body and the command with its fields.
abbrev pub by_complaint : Option String → RecordEpisodeCommand → Result RecordEpisodeCommand
by_complaint none command = ok command
by_complaint (some message) command = err (value_error message)

make_command-complaint :
    (tenant_id : TenantId) (correlation_id : CorrelationId) (body : RecordEpisodeRequest)
    (actor_id : SubjectId)
    → make_command (command_of tenant_id correlation_id body actor_id)
      ≡ by_complaint (complaint body) (command_of tenant_id correlation_id body actor_id)
unfolding make_command require_aware require_non_blank
make_command-complaint tenant_id correlation_id body actor_id = ground arith

-- A body that has passed its validator, for the path's tenant and with the right actor, becomes the
-- command with its fields; but if its time is naive or a text is blank, a ValueError, which is none of the
-- classes of the table of errors.
pub to_command-complaint :
    (tenant_id : TenantId) (correlation_id : CorrelationId) (body : RecordEpisodeRequest)
    (principal : Option AuthenticatedPrincipal) (actor_id : SubjectId)
    → validate_record_episode body ≡ ok tt
    → body.scope.tenant_id ≡ tenant_id
    → IsActor principal body.actor_id actor_id
    → to_command tenant_id correlation_id body principal
      ≡ by_complaint (complaint body) (command_of tenant_id correlation_id body actor_id)
unfolding to_command validate_record_episode
to_command-complaint tenant_id correlation_id body principal actor_id valid same actor =
    let resolved = (resolve_actor_id_iff principal body.actor_id actor_id).1 actor in
    let scope = memory_scope_lem tenant_id body.scope valid in
    let matching : (body.scope.tenant_id == tenant_id) ≡ true =
      (nat_eq.same_iff body.scope.tenant_id tenant_id).1 same in
    rw matching
      (rw resolved (rw scope (make_command-complaint tenant_id correlation_id body actor_id)))
