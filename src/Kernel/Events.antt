-- ===== src/Kernel/Events.antt =====
-- shared/kernel/events.py: the event envelope, whose constructor validates it.
use engram_mesh.Common.{String, not, Option}
use engram_mesh.Common.Int.{ℤ, pos, leb_ℤ}
use engram_mesh.Common.Result.{Result, ok, value_error, type_error, raise_if, ◌>>=◌, ◌>>◌}
use engram_mesh.Kernel.Text.{is_blank}
use engram_mesh.Kernel.Datetime.{Datetime, is_aware}
use engram_mesh.Kernel.Ids.{EventId, TenantId, UuidValue, CorrelationId}
use engram_mesh.Kernel.Json.{Value, is_mapping}
use engram_mesh.Kernel.Freeze.{freeze_json_value}

-- The payload of a constructed envelope is a mapping.
pub record EventEnvelope : Type 0 where
  pub event_id : EventId
  pub event_type : String
  pub schema_version : ℤ
  pub tenant_id : TenantId
  pub aggregate_id : UuidValue
  pub aggregate_version : ℤ
  pub correlation_id : CorrelationId
  pub causation_id : Option EventId
  pub occurred_at : Datetime
  pub payload : Value

-- `EventEnvelope(...)`: `__post_init__` on the fields as they are given.
unfoldable pub event_envelope : EventEnvelope → Result EventEnvelope
event_envelope event = do
  raise_if (is_blank event.event_type) (value_error "event_type must not be blank")
  raise_if (leb_ℤ event.schema_version (pos 0)) (value_error "schema_version must be positive")
  raise_if (leb_ℤ event.aggregate_version (pos 0))
      (value_error "aggregate_version must be positive")
  raise_if (not (is_aware event.occurred_at)) (value_error "occurred_at must be timezone-aware")
  payload ← freeze_json_value event.payload
  raise_if (not (is_mapping payload)) (type_error "payload must be a mapping")
  ok (record event { payload = payload })
