-- ===== src/Bootstrap/Http/App/Prepared.antt =====
-- What the handler of a recording prepares from a body, and when that is what an episode holds.
use Prim.Native.String.{◌++◌}
use engram_mesh.Common.{
  String, Bool, true, false, ◌&&◌, none, List, nat_eq, string_eq, eqb_iff, ◌==◌, ◌≡◌, ◌↔◌, refl,
  arith, Bool-cases, inl, inr,
}
use engram_mesh.Common.Int.{pos, negsuc, eqb_ℤ_iff}
use engram_mesh.Common.Result.{
  Error, ok, err, value_error, overflow_error, episode_authorization_denied,
}
use engram_mesh.Kernel.Datetime.{
  Datetime, naive, aware, is_aware, instant_of, same_time, canonical_utc, astimezone_utc,
  require_aware,
}
use engram_mesh.Kernel.Ids.{TenantId, CorrelationId, SubjectId}
use engram_mesh.Memory.Episode.{
  Episode, make_episode, source_type_eq, sensitivity_eq, retention_class_eq,
}
use engram_mesh.Memory.Scope.{scope_eq, scope_beq_iff}
use engram_mesh.Kernel.Text.{require_non_blank}
use engram_mesh.Memory.UnitOfWork.{same_episode_request}
use engram_mesh.Memory.RecordEpisode.{Ports, RecordEpisodeCommand, prepare}
use engram_mesh.Bootstrap.Http.Schemas.{RecordEpisodeRequest}
use engram_mesh.Bootstrap.Http.Requests.{scope_fields}
use engram_mesh.Bootstrap.Http.Requests.Episodes.{complaint, command_of}
use engram_mesh.Bootstrap.Http.Errors.{unhandled_exception_handler, handle_exception}
use engram_mesh.Bootstrap.Http.App.Rows.{has_utc, IsDescribed, may_record}

-- A time in UTC.
abbrev utc : Datetime → Datetime
utc value = aware (instant_of value) (pos 0)

canonical_utc-ok :
    (value : Datetime) (name : String)
    → has_utc value ≡ true
    → canonical_utc value name ≡ ok (utc value)
unfolding canonical_utc astimezone_utc require_aware
canonical_utc-ok (naive _) name h = ground arith
canonical_utc-ok (aware (pos n) offset) name h = ground arith
canonical_utc-ok (aware (negsuc n) offset) name h = ground arith

-- A time that has none raises what is answered with 500.
canonical_utc-raises :
    (value : Datetime) (name : String)
    → has_utc value ≡ false
    → (e : Error) × (canonical_utc value name ≡ err e)
      × (handle_exception e ≡ unhandled_exception_handler)
unfolding canonical_utc astimezone_utc require_aware handle_exception
canonical_utc-raises (naive _) name h =
    (value_error (name ++ " must be timezone-aware"), refl, refl)
canonical_utc-raises (aware (pos n) offset) name h = (overflow_error, ground arith, refl)
canonical_utc-raises (aware (negsuc n) offset) name h = (overflow_error, ground arith, refl)

all_nine :
    (a b c d e f g h i : Bool)
    → (a && b && c && d && e && f && g && h && i ≡ true) ↔ (
        (a ≡ true)
        × (b ≡ true)
        × (c ≡ true)
        × (d ≡ true)
        × (e ≡ true)
        × (f ≡ true)
        × (g ≡ true)
        × (h ≡ true)
        × (i ≡ true))
all_nine a b c d e f g h i = ground arith

same_utc_iff :
    (a b : Datetime)
    → (same_time a (utc b) ≡ true) ↔ ((is_aware a ≡ true) × (instant_of a ≡ instant_of b))
same_utc_iff (naive wall) b = ground arith
same_utc_iff (aware instant offset) b = ground (arith, eqb_ℤ_iff instant (instant_of b))

module _ (ports : Ports) (tenant_id : TenantId) (actor_id : SubjectId)
    (body : RecordEpisodeRequest) where
  -- The episode that a request describes.
  abbrev pub described : Episode
  described = record {
    id = ports.new_memory_id;
    scope = scope_fields tenant_id body.scope;
    actor_id = actor_id;
    source_type = body.source_type;
    content_ref = body.content_ref;
    observed_at = utc body.observed_at;
    ingested_at = utc ports.now;
    content_hash = body.content_hash;
    idempotency_key = body.idempotency_key;
    sensitivity = body.sensitivity;
    retention_class = body.retention_class;
    consent_basis = body.consent_basis;
  }

  pub same_episode_request_iff :
      (existing : Episode)
      → (same_episode_request existing described ≡ true)
        ↔ IsDescribed existing tenant_id actor_id body
  unfolding same_episode_request
  same_episode_request_iff x =
      let d = described in
      let all =
        all_nine (x.scope == d.scope) (x.actor_id == d.actor_id) (x.source_type == d.source_type)
          (x.content_ref == d.content_ref) (same_time x.observed_at d.observed_at)
          (x.content_hash == d.content_hash) (x.sensitivity == d.sensitivity)
          (x.retention_class == d.retention_class) (x.consent_basis == d.consent_basis) in
      (
        λ same.
            let (s, a, t, c, o, h, v, r, b) = all.0 same in
            let (timed, moment) = (same_utc_iff x.observed_at body.observed_at).0 o in
            record {
              scope = (scope_beq_iff x.scope d.scope).0 s;
              actor = (eqb_iff x.actor_id d.actor_id).0 a;
              source = (source_type_eq.same_iff x.source_type d.source_type).0 t;
              content = (eqb_iff x.content_ref d.content_ref).0 c;
              aware_time = timed;
              moment = moment;
              hash = (string_eq.same_iff x.content_hash d.content_hash).0 h;
              sensitivity = (sensitivity_eq.same_iff x.sensitivity d.sensitivity).0 v;
              retention = (retention_class_eq.same_iff x.retention_class d.retention_class).0 r;
              consent = (string_eq.same_iff x.consent_basis d.consent_basis).0 b;
            },
        λ is. all.1 (
          (scope_beq_iff x.scope d.scope).1 is.scope,
          (eqb_iff x.actor_id d.actor_id).1 is.actor,
          (source_type_eq.same_iff x.source_type d.source_type).1 is.source,
          (eqb_iff x.content_ref d.content_ref).1 is.content,
          (same_utc_iff x.observed_at body.observed_at).1 (is.aware_time, is.moment),
          (string_eq.same_iff x.content_hash d.content_hash).1 is.hash,
          (sensitivity_eq.same_iff x.sensitivity d.sensitivity).1 is.sensitivity,
          (retention_class_eq.same_iff x.retention_class d.retention_class).1 is.retention,
          (string_eq.same_iff x.consent_basis d.consent_basis).1 is.consent,
        ),
      )

  module _ (correlation_id : CorrelationId) (log : List Episode) where
    abbrev command : RecordEpisodeCommand
    command = command_of tenant_id correlation_id body actor_id

    pub prepare-denied :
        may_record ports log tenant_id actor_id body ≡ false
        → prepare ports command ≡ err episode_authorization_denied
    unfolding prepare
    prepare-denied h = ground arith

    pub prepare-described :
        complaint body ≡ none
        → may_record ports log tenant_id actor_id body ≡ true
        → has_utc ports.now && has_utc body.observed_at ≡ true
        → prepare ports command ≡ ok described
    unfolding prepare make_episode require_aware require_non_blank
    prepare-described c may fits = ground (
      arith,
      canonical_utc-ok ports.now "clock now",
      canonical_utc-ok body.observed_at "observed_at",
    )

    pub prepare-raises :
        may_record ports log tenant_id actor_id body ≡ true
        → has_utc ports.now && has_utc body.observed_at ≡ false
        → (e : Error) × (prepare ports command ≡ err e)
          × (handle_exception e ≡ unhandled_exception_handler)
    unfolding prepare
    prepare-raises may fits = elim (Bool-cases (has_utc ports.now)) [
      | inr no_clock ↦
          let (e, raised, internal) = canonical_utc-raises ports.now "clock now" no_clock in
          (e, ground arith, internal)
      | inl clock ↦
          let (e, raised, internal) =
            canonical_utc-raises body.observed_at "observed_at" (ground arith) in
          (e, ground (arith, canonical_utc-ok ports.now "clock now" clock), internal)
    ]
