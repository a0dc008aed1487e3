-- ===== src/Memory/Relay/Examples.antt =====
-- An outbox of three events and a publisher that refuses one of them.
use engram_mesh.Common.{
  ℕ, zero, suc, List, [], ◌∷◌, ◌++◌, map, take, drop, length, none, ◌≡◌, refl, arith, ◌==◌, nat_eq,
  if◌then◌else◌, inl, inr,
}
use engram_mesh.Common.Int.{pos, pos_part}
use engram_mesh.Common.Result.{Error, ok, err, runtime_error}
use engram_mesh.Kernel.Datetime.{Datetime, aware}
use engram_mesh.Kernel.Ids.{EventId}
use engram_mesh.Kernel.Json.{null}
use engram_mesh.Kernel.Events.{EventEnvelope}
use engram_mesh.Memory.Relay.{RelayPorts, handle}
use engram_mesh.Memory.Relay.Delivery.{
  IsRelay, Progress, handle-Progress, IsSafe, polls, polls-IsSafe,
}

abbrev clock : Datetime
clock = aware (pos 63_745_056_000_000_000) (pos 0)

abbrev event : EventId → EventEnvelope
event id = record {
  event_id = id;
  event_type = "memory.episode.recorded";
  schema_version = pos 1;
  tenant_id = 1;
  aggregate_id = 2;
  aggregate_version = pos 1;
  correlation_id = 3;
  causation_id = none;
  occurred_at = clock;
  payload = null;
}

-- The queue, whose marked events are its first ones, and the list of what was published.
abbrev ports : RelayPorts (List EventEnvelope) (List EventEnvelope)
ports = record {
  fetch_unpublished = λ n queue. take (pos_part n) queue;
  mark_published = λ ids at queue. drop (length ids) queue;
  count_unpublished = λ queue. length queue;
  publish = λ e sent.
      if e.event_id == 13 then (err (runtime_error "refused"), sent) else (ok tt, sent ++ e ∷ []);
}

drop-length :
    (n : ℕ) (queue : List EventEnvelope)
    → drop (length (map (λ e. e.event_id) (take n queue))) queue ≡ drop n queue
drop-length zero queue = refl
drop-length (suc n) [] = refl
drop-length (suc n) (e ∷ queue) = drop-length n queue

publish_logged :
    (e : EventEnvelope) (sent : List EventEnvelope)
    → (ports.publish e sent).0 ≡ ok tt
    → (ports.publish e sent).1 ≡ sent ++ e ∷ []
publish_logged e sent h = ground arith

publish_failed :
    (e : EventEnvelope) (sent : List EventEnvelope) (error : Error)
    → (ports.publish e sent).0 ≡ err error
    → (ports.publish e sent).1 ≡ sent
publish_failed e sent error h = ground arith

abbrev relay : IsRelay ports
relay = record {
  pending = λ queue. queue;
  log = λ sent. sent;
  fetched = λ n queue. refl;
  marked = λ n at queue. drop-length n queue;
  counted = λ queue. refl;
  logged = publish_logged;
  failed = λ e sent error h. inl (publish_failed e sent error h);
}

abbrev queue : List EventEnvelope
queue = event 11 ∷ event 12 ∷ event 13 ∷ []

handle-Progress_example :
    Progress ports relay clock 2 queue [] (handle ports clock (pos 2) queue [])
handle-Progress_example = handle-Progress ports relay clock 2 queue []

polls-IsSafe_example :
    IsSafe ports relay clock
      (event 13)
      (polls ports relay clock (2 ∷ 5 ∷ 5 ∷ []) queue []).0
      (polls ports relay clock (2 ∷ 5 ∷ 5 ∷ []) queue []).1
polls-IsSafe_example =
    polls-IsSafe ports relay clock (2 ∷ 5 ∷ 5 ∷ []) queue [] (event 13) (inl (inr (inr (inl refl))))
