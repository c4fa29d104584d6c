-- ===== src/Commands/Safety.antt =====
-- What every operation of the command repository keeps: the ids are unique, and a command only
-- changes in its status and what belongs to it.
use microgrid_cloud.Prelude.{
  ℕ, String, List, Bool, true, false, ◌≡◌, refl, arith, ◌==◌, eq_iff, any_where, any_where_never,
  any_where-weaken,
}
use microgrid_cloud.Prelude.Exec.{Keeps, modify}
use microgrid_cloud.Prelude.Exec.Rules.{
  keeps_rules, Keeps-bind, Keeps-attempt, Keeps-modify, Keeps-guard, Keeps-triple, Triple-bind,
  Triple-guard, Triple-modify,
}
use microgrid_cloud.Prelude.Tables.{
  Apart, append-Apart, update-Apart, Grows, Grows-append, Grows-update,
}
use microgrid_cloud.Commands.Domain.{
  CommandStatus, created, Command, CommandEvent, CommandDb, CommandError, Json,
}
use microgrid_cloud.Commands.Repository.{
  has_id, find_by_idempotency_key, row_of, create, as_sent, as_acked, as_failed, as_timeout,
  overdue, update_command, mark_sent, mark_acked, mark_failed, mark_timeout_before,
  list_by_station_and_time, publish,
}

unfoldable pub same_command : Command → Command → Bool
same_command a b = b.command_id == a.command_id

-- No two commands have one id.
abbrev pub Unique : List Command → Type 0
Unique = Apart same_command

abbrev pub is_created : CommandStatus → Bool
is_created created = true
is_created _ = false

-- One command, earlier and later: only its status and what belongs to it changes, and the status
-- does not come back to created.
pub record Moves (a b : Command) : Type 0 where
  pub same_id : b.command_id ≡ a.command_id
  pub same_tenant : b.tenant_id ≡ a.tenant_id
  pub same_station : b.station_id ≡ a.station_id
  pub same_device : b.device_id ≡ a.device_id
  pub same_type : b.command_type ≡ a.command_type
  pub same_payload : b.payload ≡ a.payload
  pub same_key : b.idempotency_key ≡ a.idempotency_key
  pub same_creation : b.created_at ≡ a.created_at
  pub begun : is_created a.status ≡ false → is_created b.status ≡ false

pub Moves-refl : (a : Command) → Moves a a
Moves-refl a = ground arith

abbrev pub Evolves : List Command → List Command → Type 0
Evolves = Grows Moves

abbrev pub Tracks : List Command → CommandDb → Type 0
Tracks earlier d = Unique d.commands × Evolves earlier d.commands

-- An update that leaves the identity and sets a status that is not created.
module _ (earlier : List Command) (p : Command → Bool) (f : Command → Command)
    (same : (c : Command) → (f c).command_id ≡ c.command_id)
    (moves : (a b : Command) → Moves a b → Moves a (f b)) where
  update-Tracks : (d : CommandDb) → Tracks earlier d → Tracks earlier (update_command p f d)
  unfolding update_command same_command
  update-Tracks d h = (
    update-Apart same_command p (λ _. false) f d.commands (λ a b _ _ k. rw same k)
        (λ a b _ _ k. rw same k) (any_where_never d.commands) h.0,
    Grows-update Moves p (λ _. false) f earlier d.commands (λ a b _ _ m. moves a b m)
        (any_where_never d.commands) h.1,
  )

module _ (earlier : List Command) where
  pub mark_sent-Keeps : (id : String) (t : ℕ) → Keeps (Tracks earlier) (mark_sent id t)
  unfolding mark_sent as_sent
  mark_sent-Keeps id t = Keeps-bind _ _ (Keeps-attempt _) λ _.
      Keeps-modify _
        (update-Tracks earlier (has_id id) (as_sent t) (λ c. refl) (λ a b m. ground arith))

  pub mark_acked-Keeps : (id : String) (t : ℕ) → Keeps (Tracks earlier) (mark_acked id t)
  unfolding mark_acked as_acked
  mark_acked-Keeps id t = Keeps-bind _ _ (Keeps-attempt _) λ _.
      Keeps-modify _
        (update-Tracks earlier (has_id id) (as_acked t) (λ c. refl) (λ a b m. ground arith))

  pub mark_failed-Keeps : (id message : String) → Keeps (Tracks earlier) (mark_failed id message)
  unfolding mark_failed as_failed
  mark_failed-Keeps id message = Keeps-bind _ _ (Keeps-attempt _) λ _.
      Keeps-modify _
        (update-Tracks earlier (has_id id) (as_failed message) (λ c. refl) (λ a b m. ground arith))

  timeout_update-Keeps :
      (before : ℕ)
      → Keeps
          (Tracks earlier)
          (modify {E = CommandError} (update_command (overdue before) as_timeout))
  unfolding as_timeout
  timeout_update-Keeps before =
      Keeps-modify _
        (update-Tracks earlier (overdue before) as_timeout (λ c. refl) (λ a b m. ground arith))

  pub mark_timeout_before-Keeps : (before : ℕ) → Keeps (Tracks earlier) (mark_timeout_before before)
  unfolding mark_timeout_before
  mark_timeout_before-Keeps before = search (keeps_rules, timeout_update-Keeps)

  pub publish-Keeps : (event : CommandEvent) → Keeps (Tracks earlier) (publish event)
  unfolding publish
  publish-Keeps event = Keeps-bind _ _ (Keeps-attempt _) λ _. Keeps-modify _ λ d h. h

  new_id :
      (json : Json) (c : Command) (rows : List Command)
      → any_where (has_id c.command_id) rows ≡ false
      → any_where (λ b. same_command b (row_of json c)) rows ≡ false
  unfolding same_command row_of
  new_id json c rows h =
      any_where-weaken (has_id c.command_id) (λ b. c.command_id == b.command_id) rows
        (λ b k. ground (arith, eq_iff b.command_id c.command_id, eq_iff c.command_id b.command_id))
        h

  pub create-Keeps : (json : Json) (c : Command) → Keeps (Tracks earlier) (create json c)
  unfolding create
  create-Keeps json c = Keeps-bind _ _ (Keeps-guard _ _) λ _. Keeps-bind _ _ (Keeps-attempt _) λ _.
      Keeps-triple _ (
        Triple-bind _ _ (Triple-guard _ _ (λ d h. h)) λ _. Triple-modify _ λ d h. (
          append-Apart same_command d.commands _ (new_id json c d.commands (ground arith)) h.0.0,
          Grows-append Moves earlier d.commands _ h.0.1,
        ))

  pub find_by_idempotency_key-Keeps :
      (tenant key : String) (since : ℕ)
      → Keeps (Tracks earlier) (find_by_idempotency_key tenant key since)
  unfolding find_by_idempotency_key
  find_by_idempotency_key-Keeps tenant key since = search keeps_rules

  pub list-Keeps :
      (tenant station : String) (from to : ℕ)
      → Keeps (Tracks earlier) (list_by_station_and_time tenant station from to)
  unfolding list_by_station_and_time
  list-Keeps tenant station from to = search keeps_rules

pub ruleset command_keeps = (
  keeps_rules, mark_sent-Keeps, mark_acked-Keeps, mark_failed-Keeps, mark_timeout_before-Keeps,
  publish-Keeps, create-Keeps, find_by_idempotency_key-Keeps, list-Keeps,
)
