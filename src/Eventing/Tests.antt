-- ===== src/Eventing/Tests.antt =====
-- The theorems on event delivery at two records, with a handler that counts its runs.
use microgrid_cloud.Prelude.{
  ℕ, suc, String, List, [], ◌∷◌, true, ◌≡◌, refl, none, ◌==◌, if◌then◌else◌, select, sort_by,
  update_where, any_where,
}
use microgrid_cloud.Prelude.Exec.{Result, ok, err, World, modify, ◌>>=◌}
use microgrid_cloud.Eventing.Domain.{
  Envelope, pending, OutboxRow, EventDb, EventError, undecodable, DispatchResult,
}
use microgrid_cloud.Eventing.Stores.{
  list_pending, claimable, take, mark_sent, mark_failed, record_failure, has_processed,
  mark_processed, record_processed,
}
use microgrid_cloud.Eventing.Delivery.{
  Handler, wrap_handler, run_unless, run_handlers, dispatch, dispatch_records, deliver,
  after_publish, fail_record, dead_letter,
}
use microgrid_cloud.Eventing.Counts.{Tallied, dispatch_tallies}
use microgrid_cloud.Eventing.Redelivery.{deliver_once}

abbrev letter : String → String → Envelope
letter event_id event_type = record {
  event_id = event_id;
  event_type = event_type;
  occurred_at = 1;
  correlation_id = event_id;
  tenant_id = "home";
  station_id = "s1";
  schema_version = 1;
  payload = "{}";
}

abbrev counting : Handler ℕ String
counting env event = modify (λ d. record d { app = suc d.app })

abbrev decode : Envelope → Result EventError String
decode env =
    if env.event_type == "known" then ok env.payload else err (undecodable "unknown event type")

abbrev handlers : String → List (Handler ℕ String)
handlers event_type = wrap_handler "counter" counting ∷ []

abbrev row : String → String → ℕ → OutboxRow
row id event_type created_at = record {
  id = id;
  envelope = letter id event_type;
  status = pending;
  attempts = 0;
  created_at = created_at;
  sent_at = 0;
}

abbrev tables : EventDb ℕ
tables = record {
  outbox = row "o2" "odd" 3 ∷ row "o1" "known" 2 ∷ [];
  processed = [];
  dead_letters = [];
  app = 0;
}

abbrev start : World (EventDb ℕ)
start = record { db = tables; outcomes = []; clock = suc; reads = 4 }

abbrev report : DispatchResult
report = record {
  requested = 9;
  claimed = 2;
  sent_count = 1;
  failed_count = 1;
  dlq_count = 1;
  first_error = none;
}

abbrev dispatched : World (EventDb ℕ)
dispatched = (dispatch decode handlers (λ e. "error") true (λ records. records) 9 start).1

dispatching :
    dispatch decode handlers (λ e. "error") true (λ records. records) 9 start
    ≡ (ok report, dispatched)
unfolding dispatch dispatch_records deliver after_publish fail_record dead_letter run_handlers
    wrap_handler run_unless list_pending claimable take select sort_by update_where any_where
    mark_sent mark_failed record_failure has_processed mark_processed record_processed ◌>>=◌
dispatching = refl

dispatch_tallies_example : Tallied report
dispatch_tallies_example =
    dispatch_tallies decode handlers (λ e. "error") true (λ records. records) 9 start dispatched
      report dispatching

-- The handler has run once.
abbrev delivered : World (EventDb ℕ)
delivered = record start {
  db = record tables {
    processed = record { event_id = "e1"; consumer_name = "counter"; processed_at = 5 } ∷ [];
    app = 1;
  };
  reads = 5;
}

delivering : wrap_handler "counter" counting (letter "e1" "known") "{}" start ≡ (ok tt, delivered)
unfolding wrap_handler run_unless has_processed mark_processed record_processed any_where ◌>>=◌
delivering = refl

deliver_once_example :
    wrap_handler "counter" counting (letter "e1" "known") "{}" delivered ≡ (ok tt, delivered)
deliver_once_example =
    deliver_once "counter" counting (letter "e1" "known") "{}" start delivered refl refl delivering
      refl
