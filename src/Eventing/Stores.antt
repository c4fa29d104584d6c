-- ===== src/Eventing/Stores.antt =====
-- The SQL of backend/internal/eventing/infrastructure/postgres. The random id of an outbox row is an
-- argument of the insert.
use microgrid_cloud.Prelude.{
  ℕ, suc, String, List, [], ◌∷◌, ◌++◌, map, Bool, true, false, not, ◌&&◌, ◌||◌, ◌==◌, if◌then◌else◌,
  leb, eqb, any_where, select, sort_by, update_where, ◌-◌,
}
use microgrid_cloud.Prelude.Exec.{Exec, pure, gets, modify, now, attempt, guard, ◌>>=◌, ◌>>◌}
use microgrid_cloud.Eventing.Domain.{
  Envelope, OutboxStatus, pending, processing, sent, failed, OutboxRow, OutboxRecord,
  ProcessedEvent, DeadLetter, EventDb, EventError, db_failed, invalid_arguments, empty_event_id,
}

abbrev pub Act : Type 0 → Type 0 → Type 0
Act X A = Exec (EventDb X) EventError A

abbrev pub is_pending : OutboxStatus → Bool
is_pending pending = true
is_pending _ = false

abbrev pub has_id : String → OutboxRow → Bool
has_id id r = r.id == id

-- `LIMIT`.
unfoldable pub take : {A : Type 0} → ℕ → List A → List A
take n [] = []
take n (x ∷ xs) = let rest = take (n - 1) xs in if eqb n 0 then [] else x ∷ rest

abbrev pub to_record : OutboxRow → OutboxRecord
to_record r = record { id = r.id; envelope = r.envelope }

abbrev pub was_processed : String → String → ProcessedEvent → Bool
was_processed event_id consumer p = p.event_id == event_id && p.consumer_name == consumer

-- The upsert of a dead letter.
unfoldable pub bury : Envelope → String → ℕ → List DeadLetter → List DeadLetter
bury env message t [] =
    record {
      event_id = env.event_id;
      event_type = env.event_type;
      payload = env;
      error = message;
      first_seen_at = t;
      last_seen_at = t;
      attempts = 1;
    }
    ∷ []
bury env message t (l ∷ ls) =
    if l.event_id == env.event_id
    then record l {
      event_type = env.event_type;
      payload = env;
      error = message;
      last_seen_at = t;
      attempts = suc l.attempts;
    }
      ∷ ls
    else l ∷ bury env message t ls

module _ {X : Type 0} where
  -- A new row is pending, without attempts; one with a known id changes nothing.
  unfoldable pub insert : String → Envelope → Act X String
  insert id env = do
    t ← now
    attempt db_failed
    modify (λ d. if any_where (has_id id) d.outbox then d else record d {
      outbox =
          d.outbox
          ++ record {
            id = id;
            envelope = env;
            status = pending;
            attempts = 0;
            created_at = t;
            sent_at = 0;
          }
            ∷ [];
    })
    pure id

  unfoldable pub claimable : ℕ → EventDb X → List OutboxRow
  unfolding take
  claimable limit d =
      take limit (
        sort_by (λ r s. leb r.created_at s.created_at) (select (λ r. is_pending r.status) d.outbox))

  -- The oldest pending rows, which are processing from then on. The order in which the database
  -- returns them is a parameter. The rows are claimed also where reading them fails.
  unfoldable pub list_pending :
      (List OutboxRecord → List OutboxRecord) → ℕ → Act X (List OutboxRecord)
  unfolding claimable
  list_pending order limit = do
    attempt db_failed
    rows ← gets (claimable (if eqb limit 0 then 50 else limit))
    modify (λ d. record d {
      outbox =
          update_where (λ r. any_where (λ c. c.id == r.id) rows)
            (λ r. record r { status = processing }) d.outbox;
    })
    attempt db_failed
    pure (order (map to_record rows))

  unfoldable pub mark_sent : String → Act X (Unit {0})
  mark_sent id = do
    t ← now
    attempt db_failed
    modify (λ d. record d {
      outbox = update_where (has_id id) (λ r. record r { status = sent; sent_at = t }) d.outbox;
    })

  unfoldable pub mark_failed : String → Act X (Unit {0})
  mark_failed id = do
    attempt db_failed
    modify (λ d. record d {
      outbox =
          update_where (has_id id) (λ r. record r { status = failed; attempts = suc r.attempts })
            d.outbox;
    })

  unfoldable pub has_processed : String → String → Act X Bool
  has_processed event_id consumer = do
    guard (not (event_id == "" || consumer == "")) invalid_arguments
    attempt db_failed
    gets (λ d. any_where (was_processed event_id consumer) d.processed)

  unfoldable pub record_processed : String → String → ℕ → EventDb X → EventDb X
  record_processed event_id consumer t d =
      if any_where (was_processed event_id consumer) d.processed then d else record d {
        processed =
            d.processed
            ++ record { event_id = event_id; consumer_name = consumer; processed_at = t } ∷ [];
      }

  unfoldable pub mark_processed : String → String → Act X (Unit {0})
  unfolding record_processed
  mark_processed event_id consumer = do
    guard (not (event_id == "" || consumer == "")) invalid_arguments
    t ← now
    attempt db_failed
    modify (record_processed event_id consumer t)

  unfoldable pub record_failure : Envelope → String → Act X (Unit {0})
  unfolding bury
  record_failure env message = do
    guard (not (env.event_id == "")) empty_event_id
    t ← now
    attempt db_failed
    modify (λ d. record d { dead_letters = bury env message t d.dead_letters })
