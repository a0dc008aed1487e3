-- ===== src/Memory/Inbox.antt =====
-- modules/memory/application/process_inbox_event.py, over the inbox and the processors of
-- modules/memory/ports.py.
pub mod Once
mod Examples
use engram_mesh.Common.{Bool, true, false, not, String, Option, none, some, List, find, ◌≡◌, ◌≢◌}
use engram_mesh.Common.Result.{Result, ok, err}
use engram_mesh.Kernel.Datetime.{Datetime}
use engram_mesh.Kernel.Events.{EventEnvelope}
use engram_mesh.Kernel.Ids.{EventId, TenantId}

-- The arguments of `try_record`.
pub record InboxRecord : Type 0 where
  pub event_id : EventId
  pub consumer_name : String
  pub event_type : String
  pub tenant_id : TenantId
  pub processed_at : Datetime

-- The inbox is kept by a database. `has_record` tells whether an event has a row; an insert that finds
-- one does nothing and answers so, and a delete takes out the row of its event.
pub record InboxStore (S : Type 0) : Type 0 where
  pub try_record : InboxRecord → S → Bool × S
  pub remove_record : EventId → S → S
  pub has_record : EventId → S → Bool
  pub recorded :
      (row : InboxRecord) (s : S) → (try_record row s).0 ≡ not (has_record row.event_id s)
  pub has_recorded :
      (row : InboxRecord) (s : S) → has_record row.event_id (try_record row s).1 ≡ true
  pub has_removed : (id : EventId) (s : S) → has_record id (remove_record id s) ≡ false
  pub recorded_others :
      (row : InboxRecord) (s : S) (id : EventId)
      → id ≢ row.event_id
      → has_record id (try_record row s).1 ≡ has_record id s
  pub removed_others :
      (gone : EventId) (s : S) (id : EventId)
      → id ≢ gone
      → has_record id (remove_record gone s) ≡ has_record id s

-- What a processor works on is a state of its own.
pub record InboxEventProcessor (W : Type 0) : Type 0 where
  pub supports : String → Bool
  pub process : EventEnvelope → W → Result (Unit {0}) × W

pub record ProcessInboxEventResult : Type 0 where
  pub processed : Bool
  pub skipped : Bool

abbrev pub skipped_result : ProcessInboxEventResult
skipped_result = record { processed = false; skipped = true }

abbrev pub processed_result : ProcessInboxEventResult
processed_result = record { processed = true; skipped = false }

module _ {S W : Type 0} (store : InboxStore S) (processors : List (InboxEventProcessor W))
    (consumer_name : String) where
  abbrev pub processor_for : String → Option (InboxEventProcessor W)
  processor_for event_type = find (λ processor. processor.supports event_type) processors

  abbrev pub row_of : Datetime → EventEnvelope → InboxRecord
  row_of processed_at event = record {
    event_id = event.event_id;
    consumer_name = consumer_name;
    event_type = event.event_type;
    tenant_id = event.tenant_id;
    processed_at = processed_at;
  }

  -- The `try` around `process`.
  unfoldable pub process_recorded :
      InboxEventProcessor W → EventEnvelope → S → W → Result ProcessInboxEventResult × S × W
  process_recorded processor event s w =
      let (result, w') = processor.process event w in
      elim result [
        | ok _ ↦ (ok processed_result, s, w')
        | err e ↦ (err e, store.remove_record event.event_id s, w')
      ]

  -- The clock's time is an input.
  unfoldable pub handle : Datetime → EventEnvelope → S → W → Result ProcessInboxEventResult × S × W
  unfolding process_recorded
  handle processed_at event s w = elim (processor_for event.event_type) [
    | none ↦ (ok skipped_result, s, w)
    | some processor ↦
        let (recorded, s') = store.try_record (row_of processed_at event) s in
        elim recorded [
          | false ↦ (ok skipped_result, s', w)
          | true ↦ process_recorded processor event s' w
        ]
  ]
