-- ===== src/Memory/Inbox/Examples.antt =====
-- An inbox that is a list of the recorded events, a processor that fails at first, and the theorems there.
use engram_mesh.Common.{
  ℕ, ◌+◌, ◌≤◌, Bool, true, false, not, if◌then◌else◌, ◌||◌, none, List, [], ◌∷◌, ◌≡◌, ◌≢◌, refl,
  arith, eqb, Bool-cases, inl, inr, ◌==◌, string_eq,
}
use engram_mesh.Common.Int.{pos}
use engram_mesh.Common.Result.{ok, err, runtime_error}
use engram_mesh.Kernel.Datetime.{Datetime, aware}
use engram_mesh.Kernel.Json.{mapping, end}
use engram_mesh.Kernel.Events.{EventEnvelope}
use engram_mesh.Kernel.Ids.{EventId}
use engram_mesh.Memory.Inbox.{
  InboxRecord, InboxStore, InboxEventProcessor, skipped_result, processed_result, handle,
  process_recorded,
}
use engram_mesh.Memory.Inbox.Once.{
  deliver, processed_count, observed, expected, handle-answers, deliver-once,
}

abbrev has_id : EventId → List EventId → Bool
has_id id [] = false
has_id id (j ∷ ids) = eqb id j || has_id id ids

abbrev without_id : EventId → List EventId → List EventId
without_id gone [] = []
without_id gone (j ∷ ids) = let rest = without_id gone ids in if eqb gone j then rest else j ∷ rest

abbrev record_id : InboxRecord → List EventId → Bool × List EventId
record_id row ids = if has_id row.event_id ids then (false, ids) else (true, row.event_id ∷ ids)

has_id-record_id :
    (row : InboxRecord) (ids : List EventId) → has_id row.event_id (record_id row ids).1 ≡ true
has_id-record_id row ids = elim (Bool-cases (has_id row.event_id ids)) [
  | inl known ↦ ground arith
  | inr new ↦ ground arith
]

has_id-without_id : (id : EventId) (ids : List EventId) → has_id id (without_id id ids) ≡ false
has_id-without_id id [] = refl
has_id-without_id id (j ∷ ids) = ground (arith, has_id-without_id id ids)

record_id-others :
    (row : InboxRecord) (ids : List EventId) (id : EventId)
    → id ≢ row.event_id
    → has_id id (record_id row ids).1 ≡ has_id id ids
record_id-others row ids id other = elim (Bool-cases (has_id row.event_id ids)) [
  | inl known ↦ ground arith
  | inr new ↦ ground arith
]

without_id-others :
    (gone : EventId) (ids : List EventId) (id : EventId)
    → id ≢ gone
    → has_id id (without_id gone ids) ≡ has_id id ids
without_id-others gone [] id other = refl
without_id-others gone (j ∷ ids) id other =
    let rest = without_id-others gone ids id other in
    elim (Bool-cases (eqb gone j)) [
      | inl same ↦ let e : gone ≡ j = ground arith in ground arith
      | inr differ ↦ ground arith
    ]

record_id-recorded :
    (row : InboxRecord) (ids : List EventId) → (record_id row ids).0 ≡ not (has_id row.event_id ids)
record_id-recorded row ids = ground arith

abbrev inbox : InboxStore (List EventId)
inbox = record {
  try_record = record_id;
  remove_record = without_id;
  has_record = has_id;
  recorded = record_id-recorded;
  has_recorded = has_id-record_id;
  has_removed = has_id-without_id;
  recorded_others = record_id-others;
  removed_others = without_id-others;
}

-- It counts its calls, and the first one fails.
abbrev counter : InboxEventProcessor ℕ
counter = record {
  supports = λ event_type. event_type == "memory.episode_recorded";
  process = λ event calls. (if eqb calls 0 then err (runtime_error "down") else ok tt, calls + 1);
}

abbrev event : EventEnvelope
event = record {
  event_id = 20;
  event_type = "memory.episode_recorded";
  schema_version = pos 1;
  tenant_id = 1;
  aggregate_id = 10;
  aggregate_version = pos 1;
  correlation_id = 5;
  causation_id = none;
  occurred_at = aware (pos 0) (pos 0);
  payload = mapping true end;
}

abbrev time : Datetime
time = aware (pos 7) (pos 0)

-- The first delivery fails, the second processes the event, the third is skipped.
three_deliveries :
    deliver inbox (counter ∷ []) "consumer" (time ∷ time ∷ time ∷ []) event (3 ∷ []) 0
    ≡ (err (runtime_error "down") ∷ ok processed_result ∷ ok skipped_result ∷ [], 20 ∷ 3 ∷ [], 2)
unfolding handle process_recorded
three_deliveries = refl

handle-answers_example :
    (observed inbox
        (counter ∷ [])
        "consumer"
        20
        (handle inbox (counter ∷ []) "consumer" time event (3 ∷ []) 1)
      ≡ expected inbox (counter ∷ []) "consumer" false event 1)
    × ((id : EventId)
        → id ≢ 20
        → has_id id (handle inbox (counter ∷ []) "consumer" time event (3 ∷ []) 1).1
          ≡ has_id id (3 ∷ []))
handle-answers_example = handle-answers inbox (counter ∷ []) "consumer" time event (3 ∷ []) 1

deliver-once_example :
    (processed_count inbox
        (counter ∷ [])
        "consumer"
        (deliver inbox (counter ∷ []) "consumer" (time ∷ time ∷ []) event (3 ∷ []) 1).0
      ≤ 1)
    × (has_id 20 (3 ∷ []) ≡ true
        → (processed_count inbox
              (counter ∷ [])
              "consumer"
              (deliver inbox (counter ∷ []) "consumer" (time ∷ time ∷ []) event (3 ∷ []) 1).0
            ≡ 0)
          × ((deliver inbox (counter ∷ []) "consumer" (time ∷ time ∷ []) event (3 ∷ []) 1).2 ≡ 1))
deliver-once_example =
    deliver-once inbox (counter ∷ []) "consumer" (time ∷ time ∷ []) event (3 ∷ []) 1
