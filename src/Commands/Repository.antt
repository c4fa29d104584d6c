-- ===== src/Commands/Repository.antt =====
-- The SQL of backend/internal/commands/infrastructure/postgres/repository.go on the table of
-- backend/migrations/007_commands.sql, and the outbox that events are published to.
use microgrid_cloud.Prelude.{
  ℕ, String, List, [], ◌∷◌, ◌++◌, Bool, true, false, not, ◌&&◌, ◌||◌, Option, ◌==◌, if◌then◌else◌,
  leb, ltb, is_zero, find_first, select, update_where, count_where, any_where, sort_by, latest,
}
use microgrid_cloud.Prelude.Exec.{Exec, pure, gets, with_db, modify, attempt, guard, ◌>>=◌, ◌>>◌}
use microgrid_cloud.Commands.Domain.{
  CommandStatus, sent, acked, failed, timeout, Command, CommandEvent, CommandDb, CommandError,
  db_failed, publish_failed, duplicate_id, invalid_query, invalid_payload, Json,
}

abbrev pub Act : Type 0 → Type 0
Act A = Exec CommandDb CommandError A

abbrev pub has_id : String → Command → Bool
has_id id c = c.command_id == id

abbrev pub is_sent : CommandStatus → Bool
is_sent sent = true
is_sent _ = false

-- The rows of an idempotency query.
unfoldable pub keyed_since : String → String → ℕ → Command → Bool
keyed_since tenant_id key since c =
    c.tenant_id == tenant_id && (c.idempotency_key == key && leb since c.created_at)

unfoldable pub latest_keyed : String → String → ℕ → CommandDb → Option Command
unfolding keyed_since
latest_keyed tenant_id key since d =
    latest (λ c. c.created_at) (select (keyed_since tenant_id key since) d.commands)

unfoldable pub find_by_idempotency_key : String → String → ℕ → Act (Option Command)
unfolding latest_keyed
find_by_idempotency_key tenant_id key since = do
  guard (not (tenant_id == "" || key == "")) invalid_query
  attempt db_failed
  gets (latest_keyed tenant_id key since)

unfoldable pub get_by_id : String → Act (Option Command)
get_by_id id = do attempt db_failed; gets (λ d. find_first (has_id id) d.commands)

-- An empty payload is stored as an empty object.
unfoldable pub stored_payload : String → String
stored_payload payload = if payload == "" then "{}" else payload

-- The columns that the insert leaves out are NULL, and the payload is read back from JSONB.
unfoldable pub row_of : Json → Command → Command
unfolding stored_payload
row_of json c = record c {
  payload = json.normalized (stored_payload c.payload);
  sent_at = 0;
  acked_at = 0;
  error = "";
}

unfoldable pub create : Json → Command → Act (Unit {0})
unfolding row_of stored_payload
create json c = do
  guard (json.is_valid (stored_payload c.payload)) invalid_payload
  attempt db_failed
  with_db (λ d. guard (not (any_where (has_id c.command_id) d.commands)) duplicate_id)
  modify (λ d. record d { commands = d.commands ++ row_of json c ∷ [] })

-- The `SET` clauses of the updates.
unfoldable pub as_sent : ℕ → Command → Command
as_sent t c = record c { status = sent; sent_at = t }

unfoldable pub as_acked : ℕ → Command → Command
as_acked t c = record c { status = acked; acked_at = t }

unfoldable pub as_failed : String → Command → Command
as_failed message c = record c { status = failed; error = message }

unfoldable pub as_timeout : Command → Command
as_timeout c = record c { status = timeout; error = "timeout" }

unfoldable pub update_command : (Command → Bool) → (Command → Command) → CommandDb → CommandDb
update_command p f d = record d { commands = update_where p f d.commands }

unfoldable pub mark_sent : String → ℕ → Act (Unit {0})
unfolding update_command as_sent
mark_sent id t = do attempt db_failed; modify (update_command (has_id id) (as_sent t))

unfoldable pub mark_acked : String → ℕ → Act (Unit {0})
unfolding update_command as_acked
mark_acked id t = do attempt db_failed; modify (update_command (has_id id) (as_acked t))

unfoldable pub mark_failed : String → String → Act (Unit {0})
unfolding update_command as_failed
mark_failed id message = do
  attempt db_failed
  modify (update_command (has_id id) (as_failed message))

-- `status = 'sent' AND sent_at < before`, which no NULL satisfies.
unfoldable pub overdue : ℕ → Command → Bool
overdue before c = is_sent c.status && (not (is_zero c.sent_at) && ltb c.sent_at before)

unfoldable pub mark_timeout_before : ℕ → Act ℕ
unfolding update_command as_timeout overdue
mark_timeout_before before = do
  attempt db_failed
  count ← gets (λ d. count_where (overdue before) d.commands)
  modify (update_command (overdue before) as_timeout)
  pure count

unfoldable pub list_by_station_and_time : String → String → ℕ → ℕ → Act (List Command)
list_by_station_and_time tenant_id station_id from to = do
  attempt db_failed
  gets (λ d.
      sort_by (λ c e. leb c.created_at e.created_at)
        (select
          (λ c.
            c.tenant_id == tenant_id
            && (c.station_id == station_id && (leb from c.created_at && ltb c.created_at to)))
          d.commands))

-- `publisher.Publish`: a row of the outbox.
unfoldable pub publish : CommandEvent → Act (Unit {0})
publish event = do
  attempt publish_failed
  modify (λ d. record d { published = d.published ++ event ∷ [] })
