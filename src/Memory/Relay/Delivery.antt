-- ===== src/Memory/Relay/Delivery.antt =====
-- modules/memory/application/relay_outbox.py: what is delivered, and what stays in the outbox.
use mathlib.Core.List.{append-nil}
use engram_mesh.Common.{
  ℕ, zero, suc, ◌+◌, List, [], ◌∷◌, ◌++◌, map, take, drop, length, Among, ◌≡◌, refl, sym, subst, ap,
  ◌∙◌, true, ◌⊎◌, inl, inr, arith, Bool-cases, is_empty,
}
use engram_mesh.Common.Int.{pos}
use engram_mesh.Common.Result.{Error, Result, ok, err}
use engram_mesh.Kernel.Datetime.{Datetime}
use engram_mesh.Kernel.Events.{EventEnvelope}
use engram_mesh.Memory.Relay.{
  RelayPorts, RelayOutboxResult, after_publish, dispatch_all, finish, handle,
}

-- What the ports are documented to do: a fetch gives the oldest unpublished events, the mark takes
-- those off the queue, the count is the queue's length, a publisher that returns has logged the event, and one that raises
-- may have.
pub record IsRelay {S W : Type 0} (ports : RelayPorts S W) : Type 0 where
  pub pending : S → List EventEnvelope
  pub log : W → List EventEnvelope
  pub fetched : (n : ℕ) (s : S) → ports.fetch_unpublished (pos n) s ≡ take n (pending s)
  pub marked :
      (n : ℕ) (at : Datetime) (s : S)
      → pending (ports.mark_published (map (λ e. e.event_id) (take n (pending s))) at s)
        ≡ drop n (pending s)
  pub counted : (s : S) → ports.count_unpublished s ≡ length (pending s)
  pub logged :
      (event : EventEnvelope) (w : W)
      → (ports.publish event w).0 ≡ ok tt
      → log (ports.publish event w).1 ≡ log w ++ event ∷ []
  pub failed :
      (event : EventEnvelope) (w : W) (e : Error)
      → (ports.publish event w).0 ≡ err e
      → (log (ports.publish event w).1 ≡ log w)
        ⊎ (log (ports.publish event w).1 ≡ log w ++ event ∷ [])

module _ {S W : Type 0} (ports : RelayPorts S W) (relay : IsRelay ports) (now : Datetime) where
  append_assoc :
      (xs ys : List EventEnvelope) (e : EventEnvelope) → (xs ++ e ∷ []) ++ ys ≡ xs ++ e ∷ ys
  append_assoc [] ys e = refl
  append_assoc (x ∷ xs) ys e = ap (λ zs. x ∷ zs) (append_assoc xs ys e)

  -- How a loop over the events ends: it raises with the first of them logged, or all are.
  abbrev pub Dispatched : List EventEnvelope → ℕ → W → Result ℕ × W → Type 0
  Dispatched events n world (err e, world') =
      (k : ℕ) × (relay.log world' ≡ relay.log world ++ take k events)
  Dispatched events n world (ok count, world') =
      (count ≡ n + length events) × (relay.log world' ≡ relay.log world ++ events)

  Dispatched-cons :
      (event : EventEnvelope) (events : List EventEnvelope) (n : ℕ) (world world' : W)
      (outcome : Result ℕ × W)
      → relay.log world' ≡ relay.log world ++ event ∷ []
      → Dispatched events (suc n) world' outcome
      → Dispatched (event ∷ events) n world outcome
  Dispatched-cons event events n world world' (err e, last) sent (k, d) = (
    suc k,
    d ∙ ap (λ l. l ++ take k events) sent ∙ append_assoc (relay.log world) (take k events) event,
  )
  Dispatched-cons event events n world world' (ok count, last) sent (c, d) =
      (omega arith, d ∙ ap (λ l. l ++ events) sent ∙ append_assoc (relay.log world) events event)

  after_publish-Dispatched :
      (event : EventEnvelope) (events : List EventEnvelope) (n : ℕ) (world world' : W)
      (answer : Result (Unit {0})) (rest : Result ℕ × W)
      → ((e : Error)
          → answer ≡ err e
          → (relay.log world' ≡ relay.log world)
            ⊎ (relay.log world' ≡ relay.log world ++ event ∷ []))
      → (answer ≡ ok tt → relay.log world' ≡ relay.log world ++ event ∷ [])
      → Dispatched events (suc n) world' rest
      → Dispatched (event ∷ events) n world (after_publish ports now answer world' rest)
  after_publish-Dispatched event events n world world' (err e) rest failed logged d =
      elim (failed e refl) [
        | inl unsent ↦ (0, unsent ∙ sym (append-nil (relay.log world)))
        | inr sent ↦ (1, sent)
      ]
  after_publish-Dispatched event events n world world' (ok u) rest failed logged d =
      Dispatched-cons event events n world world' rest (logged refl) d

  dispatch_all-Dispatched :
      (events : List EventEnvelope) (n : ℕ) (world : W)
      → Dispatched events n world (dispatch_all ports now events n world)
  unfolding dispatch_all
  dispatch_all-Dispatched [] n world = (omega arith, sym (append-nil (relay.log world)))
  dispatch_all-Dispatched (event ∷ events) n world =
      let world' = (ports.publish event world).1 in
      after_publish-Dispatched event events n world world' (ports.publish event world).0
        (dispatch_all ports now events (suc n) world') (relay.failed event world)
        (relay.logged event world) (dispatch_all-Dispatched events (suc n) world')

  -- How a run of the relay ends: it raises, with the store as it was and the first events of the batch
  -- logged, or it answers, with the batch logged and off the queue.
  abbrev pub Progress : ℕ → S → W → Result RelayOutboxResult × S × W → Type 0
  Progress n store world (err e, store', world') =
      (store' ≡ store)
      × (k : ℕ) × (relay.log world' ≡ relay.log world ++ take k (take n (relay.pending store)))
  Progress n store world (ok result, store', world') =
      (result ≡ record {
        fetched = length (take n (relay.pending store));
        dispatched = length (take n (relay.pending store));
        published = length (take n (relay.pending store));
        remaining_unpublished = length (relay.pending store');
      })
      × (relay.pending store' ≡ drop n (relay.pending store))
      × (relay.log world' ≡ relay.log world ++ take n (relay.pending store))

  drop_of_none : (n : ℕ) (xs : List EventEnvelope) → take n xs ≡ [] → drop n xs ≡ xs
  drop_of_none zero xs h = refl
  drop_of_none (suc n) [] h = refl
  drop_of_none (suc n) (x ∷ xs) h = ground arith

  is_empty_lem : (xs : List EventEnvelope) → is_empty xs ≡ true → xs ≡ []
  is_empty_lem [] h = refl
  is_empty_lem (x ∷ xs) h = ground arith

  finish-Progress :
      (n : ℕ) (store : S) (world : W) (outcome : Result ℕ × W)
      → Dispatched (take n (relay.pending store)) 0 world outcome
      → Progress n store world (finish ports now (take n (relay.pending store)) outcome store)
  finish-Progress n store world (err e, world') (k, d) = (refl, k, d)
  finish-Progress n store world (ok count, world') (c, d) =
      let store' =
        ports.mark_published (map (λ e. e.event_id) (take n (relay.pending store))) now store in
      (ground (arith, relay.counted store'), relay.marked n now store, d)

  -- A poll that raises leaves the outbox as it was, with the first events of the batch published; a poll
  -- that answers has published the whole batch, the oldest events of the outbox in order, taken it off the
  -- outbox, and counted it and what is left.
  pub handle-Progress :
      (n : ℕ) (store : S) (world : W)
      → Progress n store world (handle ports now (pos n) store world)
  unfolding handle
  handle-Progress n store world =
      rw (relay.fetched n store) (elim (Bool-cases (is_empty (take n (relay.pending store)))) [
        | inl none ↦
            let nothing : take n (relay.pending store) ≡ [] =
              is_empty_lem (take n (relay.pending store)) none in
            rw none (
              ground (arith, relay.counted store, nothing),
              sym (drop_of_none n (relay.pending store) nothing),
              sym (append-nil (relay.log world)) ∙ ap (λ xs. relay.log world ++ xs) (sym nothing),
            )
        | inr some ↦ rw some (
            finish-Progress n store world _
              (dispatch_all-Dispatched (take n (relay.pending store)) 0 world))
      ])

  Among-left : (e : EventEnvelope) (xs ys : List EventEnvelope) → Among e xs → Among e (xs ++ ys)
  Among-left e [] ys h = absurd h.lower
  Among-left e (x ∷ xs) ys (inl here) = inl here
  Among-left e (x ∷ xs) ys (inr there) = inr (Among-left e xs ys there)

  Among-right : (e : EventEnvelope) (xs ys : List EventEnvelope) → Among e ys → Among e (xs ++ ys)
  Among-right e [] ys h = h
  Among-right e (x ∷ xs) ys h = inr (Among-right e xs ys h)

  Among-take-drop :
      (e : EventEnvelope) (n : ℕ) (xs : List EventEnvelope)
      → Among e xs
      → Among e (drop n xs) ⊎ Among e (take n xs)
  Among-take-drop e zero xs h = inl h
  Among-take-drop e (suc n) [] h = inl h
  Among-take-drop e (suc n) (x ∷ xs) (inl here) = inr (inl here)
  Among-take-drop e (suc n) (x ∷ xs) (inr there) = elim (Among-take-drop e n xs there) [
    | inl dropped ↦ inl dropped
    | inr taken ↦ inr (inr taken)
  ]

  -- The event is in the outbox, or the publisher has logged it.
  abbrev pub IsSafe : EventEnvelope → S → W → Type 0
  IsSafe event store world = Among event (relay.pending store) ⊎ Among event (relay.log world)

  step-IsSafe :
      (event : EventEnvelope) (n : ℕ) (store : S) (world : W)
      (outcome : Result RelayOutboxResult × S × W)
      → Progress n store world outcome
      → IsSafe event store world
      → IsSafe event outcome.1 outcome.2
  step-IsSafe event n store world (err e, store', world') (kept, k, logged) (inl waits) =
      inl (subst (λ (s : S). Among event (relay.pending s)) (sym kept) waits)
  step-IsSafe event n store world (err e, store', world') (kept, k, logged) (inr sent) =
      inr (subst (λ l. Among event l) (sym logged) (Among-left event (relay.log world) _ sent))
  step-IsSafe event n store world (ok r, store', world') (is, pending, logged) (inl waits) =
      elim (Among-take-drop event n (relay.pending store) waits) [
        | inl left ↦ inl (subst (λ l. Among event l) (sym pending) left)
        | inr taken ↦
            inr (
              subst (λ l. Among event l) (sym logged) (Among-right event (relay.log world) _ taken))
      ]
  step-IsSafe event n store world (ok r, store', world') (is, pending, logged) (inr sent) =
      inr (subst (λ l. Among event l) (sym logged) (Among-left event (relay.log world) _ sent))

  -- The worker's polls, one after another, whatever each answers.
  abbrev pub polls : List ℕ → S → W → S × W
  polls [] store world = (store, world)
  polls (n ∷ ns) store world =
      let outcome = handle ports now (pos n) store world in polls ns outcome.1 outcome.2

  -- At least once: through any polls, with any batch sizes and whichever publications raise, an event of the
  -- outbox stays there or has been published.
  pub polls-IsSafe :
      (batches : List ℕ) (store : S) (world : W) (event : EventEnvelope)
      → IsSafe event store world
      → IsSafe event (polls batches store world).0 (polls batches store world).1
  polls-IsSafe [] store world event safe = safe
  polls-IsSafe (n ∷ ns) store world event safe =
      let outcome = handle ports now (pos n) store world in
      polls-IsSafe ns outcome.1 outcome.2 event
        (step-IsSafe event n store world outcome (handle-Progress n store world) safe)
