-- ===== src/Eventing/Delivery.antt =====
-- Delivery: backend/internal/eventing/subscribe.go and dispatcher.go, and `Publish` of
-- backend/internal/analytics/application/eventbus/bus.go. The registry's decoding, the handlers that
-- are subscribed to a type, and the text of an error are parameters.
use microgrid_cloud.Prelude.{
  ℕ, suc, String, List, [], ◌∷◌, Bool, true, false, Option, none, some, ◌==◌, eqb, if◌then◌else◌,
  length,
}
use microgrid_cloud.Prelude.Exec.{Result, ok, err, pure, raise, caught, ◌>>=◌, ◌>>◌}
use microgrid_cloud.Eventing.Domain.{Envelope, OutboxRecord, EventError, DispatchResult}
use microgrid_cloud.Eventing.Stores.{
  Act, has_processed, mark_processed, mark_sent, mark_failed, record_failure, list_pending,
}

-- A handler of the events of type `P`, with the envelope of its context.
abbrev pub Handler : Type 0 → Type 0 → Type 0
Handler X P = Envelope → P → Act X (Unit {0})

abbrev pub first_of : Option EventError → Result EventError (Unit {0}) → Option EventError
first_of (some e) r = some e
first_of none (err e) = some e
first_of none (ok u) = none

module _ {X P : Type 0} where
  unfoldable pub run_unless : Bool → String → Handler X P → Handler X P
  run_unless true consumer handler env event = pure tt
  run_unless false consumer handler env event = do
    handler env event
    mark_processed env.event_id consumer

  -- `WrapHandler`: the handler runs unless the event is recorded as processed by the consumer.
  unfoldable pub wrap_handler : String → Handler X P → Handler X P
  unfolding run_unless
  wrap_handler consumer handler env event = if env.event_id == "" then handler env event else do
    processed ← has_processed env.event_id consumer
    run_unless processed consumer handler env event

  -- `Publish` of the bus: every handler runs, and the first error is returned.
  unfoldable pub run_handlers : Option EventError → List (Handler X P) → Handler X P
  run_handlers (some e) [] env event = raise e
  run_handlers none [] env event = pure tt
  run_handlers first (h ∷ hs) env event = do
    r ← caught (h env event)
    run_handlers (first_of first r) hs env event

-- A record that was delivered counts as sent only if that could be written down.
abbrev pub after_mark : DispatchResult → Result EventError (Unit {0}) → DispatchResult
after_mark result (ok u) = record result { sent_count = suc result.sent_count }
after_mark result (err e) = record result {
  failed_count = suc result.failed_count;
  first_error = first_of result.first_error (err e);
}

abbrev pub count_ok : Result EventError (Unit {0}) → ℕ → ℕ
count_ok (ok u) n = suc n
count_ok (err e) n = n

module _ {X P : Type 0} (decode : Envelope → Result EventError P)
    (handlers : String → List (Handler X P)) (message : EventError → String) (has_dlq : Bool)
    (order : List OutboxRecord → List OutboxRecord) where
  -- The dead letter of a failed record, if there is a store for it.
  unfoldable pub dead_letter : OutboxRecord → EventError → DispatchResult → Act X DispatchResult
  dead_letter r e result =
      if has_dlq
      then (do
        buried ← caught (record_failure r.envelope (message e))
        pure (record result {
          dlq_count = count_ok buried result.dlq_count;
          failed_count = suc result.failed_count;
        }))
      else pure (record result { failed_count = suc result.failed_count })

  unfoldable pub fail_record : OutboxRecord → EventError → DispatchResult → Act X DispatchResult
  unfolding dead_letter
  fail_record r e result = do
    marked ← caught (mark_failed r.id)
    dead_letter r e (record result { first_error = first_of result.first_error marked })

  unfoldable pub after_publish :
      OutboxRecord → DispatchResult → Result EventError (Unit {0}) → Act X DispatchResult
  unfolding fail_record
  after_publish r result (err e) = fail_record r e result
  after_publish r result (ok u) = do
    marked ← caught (mark_sent r.id)
    pure (after_mark result marked)

  unfoldable pub deliver :
      OutboxRecord → DispatchResult → Result EventError P → Act X DispatchResult
  unfolding after_publish run_handlers
  deliver r result (err e) = fail_record r e result
  deliver r result (ok event) = do
    published ← caught (run_handlers none (handlers r.envelope.event_type) r.envelope event)
    after_publish r result published

  unfoldable pub dispatch_records : List OutboxRecord → DispatchResult → Act X DispatchResult
  unfolding deliver
  dispatch_records [] result = pure result
  dispatch_records (r ∷ rs) result = do
    next ← deliver r result (decode r.envelope)
    dispatch_records rs next

  -- A limit of zero, which stands for one that is not positive, is taken as 50.
  unfoldable pub dispatch : ℕ → Act X DispatchResult
  unfolding dispatch_records
  dispatch limit = do
    records ← list_pending order (if eqb limit 0 then 50 else limit)
    dispatch_records records (record {
      requested = if eqb limit 0 then 50 else limit;
      claimed = length records;
      sent_count = 0;
      failed_count = 0;
      dlq_count = 0;
      first_error = none;
    })
