-- ===== src/Memory/Inbox/Once.antt =====
-- What the inbox handler makes of deliveries and redeliveries.
use engram_mesh.Common.{
  ℕ, ◌+◌, ◌≤◌, Bool, true, false, if◌then◌else◌, String, Option, none, some, List, [], ◌∷◌, ◌≡◌,
  ◌≢◌, ◌⊎◌, refl, arith, ◌∙◌, sym, subst, Bool-cases, Option-cases, inl, inr, ap,
}
use engram_mesh.Common.Result.{Result, ok, err, Result-cases}
use engram_mesh.Kernel.Datetime.{Datetime}
use engram_mesh.Kernel.Events.{EventEnvelope}
use engram_mesh.Kernel.Ids.{EventId}
use engram_mesh.Memory.Inbox.{
  InboxStore, InboxEventProcessor, ProcessInboxEventResult, skipped_result, processed_result,
  processor_for, row_of, process_recorded, handle,
}

module _ {S W : Type 0} (store : InboxStore S) (processors : List (InboxEventProcessor W))
    (consumer_name : String) where
  -- The outcome of processing: the record stays where the processor returned.
  abbrev pub settle : Result (Unit {0}) × W → Result ProcessInboxEventResult × Bool × W
  settle (ok _, w) = (ok processed_result, true, w)
  settle (err e, w) = (err e, false, w)

  -- The answer, whether the event is recorded afterwards, and what the processor's state is.
  abbrev pub expected : Bool → EventEnvelope → W → Result ProcessInboxEventResult × Bool × W
  expected known event w = elim (processor_for store processors consumer_name event.event_type) [
    | none ↦ (ok skipped_result, known, w)
    | some processor ↦
        if known then (ok skipped_result, true, w) else settle (processor.process event w)
  ]

  abbrev pub observed :
      EventId → Result ProcessInboxEventResult × S × W → Result ProcessInboxEventResult × Bool × W
  observed id (answer, s, w) = (answer, store.has_record id s, w)

  observed-process_recorded :
      (processor : InboxEventProcessor W) (event : EventEnvelope) (s : S) (w : W)
      → store.has_record event.event_id s ≡ true
      → observed event.event_id
          (process_recorded store processors consumer_name processor event s w)
        ≡ settle (processor.process event w)
  unfolding process_recorded
  observed-process_recorded processor event s w here =
      let gone = store.has_removed event.event_id s in
      elim (Result-cases (processor.process event w).0) [
        | inl (e, fails) ↦ grind arith
        | inr (u, returns) ↦ grind arith
      ]

  handle-observed :
      (processed_at : Datetime) (event : EventEnvelope) (s : S) (w : W)
      → observed event.event_id (handle store processors consumer_name processed_at event s w)
        ≡ expected (store.has_record event.event_id s) event w
  unfolding handle
  handle-observed t event s w =
      let row = row_of store processors consumer_name t event in
      let first = store.recorded row s in
      let there = store.has_recorded row s in
      elim (Option-cases (processor_for store processors consumer_name event.event_type)) [
        | inl unsupported ↦ ground arith
        | inr (processor, supports) ↦
            let ends =
              observed-process_recorded processor event (store.try_record row s).1 w there in
            elim (Bool-cases (store.has_record event.event_id s)) [
              | inl known ↦ ground arith
              | inr new ↦ ground arith
            ]
      ]

  process_recorded-others :
      (processor : InboxEventProcessor W) (event : EventEnvelope) (s : S) (w : W) (id : EventId)
      → id ≢ event.event_id
      → store.has_record id (process_recorded store processors consumer_name processor event s w).1
        ≡ store.has_record id s
  unfolding process_recorded
  process_recorded-others processor event s w id other =
      let kept = store.removed_others event.event_id s id other in
      elim (Result-cases (processor.process event w).0) [
        | inl (e, fails) ↦ grind arith
        | inr (u, returns) ↦ grind arith
      ]

  handle-others :
      (t : Datetime) (event : EventEnvelope) (s : S) (w : W) (id : EventId)
      → id ≢ event.event_id
      → store.has_record id (handle store processors consumer_name t event s w).1
        ≡ store.has_record id s
  unfolding handle
  handle-others t event s w id other =
      let row = row_of store processors consumer_name t event in
      let kept = store.recorded_others row s id other in
      elim (Option-cases (processor_for store processors consumer_name event.event_type)) [
        | inl unsupported ↦ ground arith
        | inr (processor, supports) ↦
            let ends =
              process_recorded-others processor event (store.try_record row s).1 w id other in
            elim (Bool-cases (store.try_record row s).0) [
              | inl known ↦ ground arith
              | inr new ↦ ground arith
            ]
      ]

  -- An event without a processor is skipped and leaves no record. A recorded event is skipped. A new event
  -- is handed to the first processor that supports its type, and stays recorded exactly where the
  -- processor returns; its exception is the answer. The records of other events stay as they were.
  pub handle-answers :
      (processed_at : Datetime) (event : EventEnvelope) (s : S) (w : W)
      → (observed event.event_id (handle store processors consumer_name processed_at event s w)
          ≡ expected (store.has_record event.event_id s) event w)
        × ((id : EventId)
            → id ≢ event.event_id
            → store.has_record id (handle store processors consumer_name processed_at event s w).1
              ≡ store.has_record id s)
  handle-answers t event s w = (handle-observed t event s w, handle-others t event s w)

  -- The same event is delivered at each of these times.
  abbrev pub deliver :
      List Datetime → EventEnvelope → S → W → List (Result ProcessInboxEventResult) × S × W
  deliver [] event s w = ([], s, w)
  deliver (t ∷ ts) event s w =
      let (answer, s', w') = handle store processors consumer_name t event s w in
      let (answers, s'', w'') = deliver ts event s' w' in (answer ∷ answers, s'', w'')

  abbrev pub one_processed : Result ProcessInboxEventResult → ℕ
  one_processed (ok result) = if result.processed then 1 else 0
  one_processed (err e) = 0

  abbrev pub processed_count : List (Result ProcessInboxEventResult) → ℕ
  processed_count [] = 0
  processed_count (answer ∷ answers) = one_processed answer + processed_count answers

  handle-recorded :
      (t : Datetime) (event : EventEnvelope) (s : S) (w : W)
      → store.has_record event.event_id s ≡ true
      → observed event.event_id (handle store processors consumer_name t event s w)
        ≡ (ok skipped_result, true, w)
  handle-recorded t event s w known =
      let is = handle-observed t event s w in
      elim (Option-cases (processor_for store processors consumer_name event.event_type)) [
        | inl unsupported ↦ grind arith
        | inr (processor, supports) ↦ grind arith
      ]

  -- An answer that counts leaves a record.
  abbrev IsCounted : Result ProcessInboxEventResult × Bool × W → Type 0
  IsCounted (answer, known, w) =
      (one_processed answer ≡ 0) ⊎ (one_processed answer ≡ 1) × (known ≡ true)

  settle-IsCounted : (end : Result (Unit {0}) × W) → IsCounted (settle end)
  settle-IsCounted (ok u, w) = inr (refl, refl)
  settle-IsCounted (err e, w) = inl refl

  choice-IsCounted :
      (known : Bool) (supported : Option (InboxEventProcessor W)) (event : EventEnvelope) (w : W)
      → IsCounted (elim supported [
        | none ↦ (ok skipped_result, known, w)
        | some processor ↦
            if known then (ok skipped_result, true, w) else settle (processor.process event w)
      ])
  choice-IsCounted known none event w = inl refl
  choice-IsCounted true (some processor) event w = inl refl
  choice-IsCounted false (some processor) event w = settle-IsCounted (processor.process event w)

  handle-IsCounted :
      (t : Datetime) (event : EventEnvelope) (s : S) (w : W)
      → IsCounted (observed event.event_id (handle store processors consumer_name t event s w))
  handle-IsCounted t event s w = subst IsCounted (sym (handle-observed t event s w)) (
      choice-IsCounted (store.has_record event.event_id s)
        (processor_for store processors consumer_name event.event_type) event w)

  deliver-recorded :
      (ts : List Datetime) (event : EventEnvelope) (s : S) (w : W)
      → store.has_record event.event_id s ≡ true
      → (processed_count (deliver ts event s w).0 ≡ 0) × ((deliver ts event s w).2 ≡ w)
  deliver-recorded [] event s w known = (refl, refl)
  deliver-recorded (t ∷ ts) event s w known =
      let step = handle-recorded t event s w known in
      let rest =
        deliver-recorded ts event (handle store processors consumer_name t event s w).1
          (handle store processors consumer_name t event s w).2 (ap (λ o. o.1) step) in
      (
        (let none_here = ap (λ o. one_processed o.0) step in omega (arith, rest.0, none_here)),
        rest.1 ∙ ap (λ o. o.2) step,
      )

  -- However often and whenever an event is delivered, at most one delivery processes it; once it is
  -- recorded, none does, and what the processors work on is left alone.
  pub deliver-once :
      (times : List Datetime) (event : EventEnvelope) (s : S) (w : W)
      → (processed_count (deliver times event s w).0 ≤ 1)
        × (store.has_record event.event_id s ≡ true
            → (processed_count (deliver times event s w).0 ≡ 0) × ((deliver times event s w).2 ≡ w))
  deliver-once [] event s w = (omega arith, deliver-recorded [] event s w)
  deliver-once (t ∷ ts) event s w =
      let s' = (handle store processors consumer_name t event s w).1 in
      let w' = (handle store processors consumer_name t event s w).2 in
      let rest = deliver-once ts event s' w' in
      (
        (elim (handle-IsCounted t event s w) [
          | inl not_now ↦ omega (arith, rest.0)
          | inr (now, known) ↦ omega (arith, now, (rest.1 known).0)
        ]),
        deliver-recorded (t ∷ ts) event s w,
      )
