-- ===== src/Memory/Relay.antt =====
-- modules/memory/application/relay_outbox.py, over any relay store and any publisher. The store is a state
-- with a queue of unpublished events, in order; a publisher works on a world and may raise. The time of the
-- publication is an input. Exceptions of the store itself are left out.
pub mod Delivery
mod Examples
use engram_mesh.Common.{
  ℕ, suc, ◌+◌, List, [], ◌∷◌, ◌++◌, map, take, drop, length, is_empty, ◌≡◌, if◌then◌else◌,
}
use engram_mesh.Common.Int.{ℤ, pos}
use engram_mesh.Common.Result.{Error, Result, ok, err}
use engram_mesh.Kernel.Datetime.{Datetime}
use engram_mesh.Kernel.Ids.{EventId}
use engram_mesh.Kernel.Events.{EventEnvelope}

-- `OutboxRelayStore` and `OutboxEventPublisher`.
pub record RelayPorts (S W : Type 0) : Type 0 where
  pub fetch_unpublished : ℤ → S → List EventEnvelope
  pub mark_published : List EventId → Datetime → S → S
  pub count_unpublished : S → ℕ
  pub publish : EventEnvelope → W → Result (Unit {0}) × W

pub record RelayOutboxResult : Type 0 where
  pub fetched : ℕ
  pub dispatched : ℕ
  pub published : ℕ
  pub remaining_unpublished : ℕ

module _ {S W : Type 0} (ports : RelayPorts S W) (now : Datetime) where
  -- What follows a publication: nothing, if it raised.
  abbrev pub after_publish : Result (Unit {0}) → W → Result ℕ × W → Result ℕ × W
  after_publish (err e) world rest = (err e, world)
  after_publish (ok _) world rest = rest

  -- The loop over the events, with the count of those dispatched so far.
  unfoldable pub dispatch_all : List EventEnvelope → ℕ → W → Result ℕ × W
  dispatch_all [] dispatched world = (ok dispatched, world)
  dispatch_all (event ∷ events) dispatched world =
      let (answer, world') = ports.publish event world in
      let rest = dispatch_all events (suc dispatched) world' in after_publish answer world' rest

  -- The answer after the loop.
  abbrev pub finish : List EventEnvelope → Result ℕ × W → S → Result RelayOutboxResult × S × W
  finish events (err e, world) store = (err e, store, world)
  finish events (ok dispatched, world) store =
      let store' = ports.mark_published (map (λ event. event.event_id) events) now store in
      (
        ok (record {
          fetched = length events;
          dispatched = dispatched;
          published = length events;
          remaining_unpublished = ports.count_unpublished store';
        }),
        store',
        world,
      )

  -- `RelayOutboxEventsHandler.handle`
  unfoldable pub handle : ℤ → S → W → Result RelayOutboxResult × S × W
  unfolding dispatch_all
  handle batch_size store world =
      let events = ports.fetch_unpublished batch_size store in
      if is_empty events
      then (
        ok (record {
          fetched = 0;
          dispatched = 0;
          published = 0;
          remaining_unpublished = ports.count_unpublished store;
        }),
        store,
        world,
      )
      else finish events (dispatch_all events 0 world) store
