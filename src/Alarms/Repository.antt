-- ===== src/Alarms/Repository.antt =====
-- The SQL of backend/internal/alarms/infrastructure/postgres over tables as lists of rows, with the
-- keys of backend/migrations/009_alarms.sql: `alarms` has a primary key and the unique index
-- `uq_active_alarm`, and `alarm_rule_states` is keyed by tenant, rule and originator. The list of
-- rules and point mappings is read from the tables of the same database.
use Prim.Native.String.{compare as compare_text}
use text.Mathlib.Text.{is_le}
use microgrid_cloud.Prelude.{
  ℕ, String, List, [], ◌∷◌, ◌++◌, Bool, true, false, not, ◌&&◌, ◌||◌, Option, none, some, ◌==◌,
  if◌then◌else◌, leb, ltb, is_zero, find_first, select, update_where, any_where, sort_by, latest,
}
use microgrid_cloud.Prelude.Exec.{
  Exec, pure, raise, gets, with_db, modify, now, attempt, guard, ◌>>=◌, ◌>>◌,
}
use microgrid_cloud.Alarms.Domain.{
  Status, active, acknowledged, cleared, OriginatorType, station, device, Alarm, AlarmRule,
  AlarmRuleState, PointMapping, AlarmEvent,
}

pub data AlarmError : Type 0 where
  db_failed missing_fields invalid_query duplicate_id duplicate_open : AlarmError
  missing_station_tenant id_required station_id_required empty_station_id : AlarmError
  not_found tenant_mismatch : AlarmError

-- The tables, and the lifecycle events handed to the notifier, oldest first.
pub record AlarmDb (V : Type 0) : Type 0 where
  pub rules : List (AlarmRule V)
  pub mappings : List (PointMapping V)
  pub alarms : List (Alarm V)
  pub states : List (AlarmRuleState V)
  pub notified : List (AlarmEvent V)

abbrev pub originator_eq : OriginatorType → OriginatorType → Bool
originator_eq station station = true
originator_eq device device = true
originator_eq _ _ = false

abbrev pub is_open : Status → Bool
is_open active = true
is_open acknowledged = true
is_open cleared = false

abbrev pub status_eq : Status → Status → Bool
status_eq active active = true
status_eq acknowledged acknowledged = true
status_eq cleared cleared = true
status_eq _ _ = false

-- The optional filter of a listing; an empty status text is `none`.
abbrev wanted : Option Status → Status → Bool
wanted none s = true
wanted (some t) s = status_eq s t

module _ {V : Type 0} where
  abbrev pub has_id : String → Alarm V → Bool
  has_id id a = a.id == id

  -- The rows of `uq_active_alarm` under a key.
  unfoldable pub open_for : String → String → OriginatorType → String → Alarm V → Bool
  open_for tenant_id rule_id originator_type originator_id a =
      a.tenant_id == tenant_id
      && (a.rule_id == rule_id
          && (originator_eq a.originator_type originator_type
              && (a.originator_id == originator_id && is_open a.status)))

  unfoldable pub state_for : String → String → OriginatorType → String → AlarmRuleState V → Bool
  state_for tenant_id rule_id originator_type originator_id s =
      s.tenant_id == tenant_id
      && (s.rule_id == rule_id
          && (originator_eq s.originator_type originator_type && s.originator_id == originator_id))

  list_enabled_rows : String → String → AlarmDb V → List (AlarmRule V)
  list_enabled_rows tenant_id station_id d =
      sort_by (λ r s. leb r.created_at s.created_at)
        (select (λ r. r.tenant_id == tenant_id && (r.station_id == station_id && r.enabled))
          d.rules)

  unfoldable pub list_enabled_by_station :
      String → String → Exec (AlarmDb V) AlarmError (List (AlarmRule V))
  unfolding list_enabled_rows
  list_enabled_by_station tenant_id station_id = do
    guard (not (tenant_id == "" || station_id == "")) invalid_query
    attempt db_failed
    gets (list_enabled_rows tenant_id station_id)

  -- Sorted by `point_key`, byte by byte.
  mapping_rows : String → AlarmDb V → List (PointMapping V)
  mapping_rows station_id d =
      sort_by (λ m n. is_le (compare_text m.point_key n.point_key))
        (select (λ m. m.station_id == station_id) d.mappings)

  unfoldable pub list_by_station : String → Exec (AlarmDb V) AlarmError (List (PointMapping V))
  unfolding mapping_rows
  list_by_station station_id = do
    guard (not (station_id == "")) empty_station_id
    attempt db_failed
    gets (mapping_rows station_id)

  unfoldable pub get_by_id : String → Exec (AlarmDb V) AlarmError (Option (Alarm V))
  get_by_id id = do attempt db_failed; gets (λ d. find_first (has_id id) d.alarms)

  unfoldable pub find_open_by_rule_originator :
      String → String → OriginatorType → String → Exec (AlarmDb V) AlarmError (Option (Alarm V))
  find_open_by_rule_originator tenant_id rule_id originator_type originator_id = do
    guard (not (tenant_id == "" || (rule_id == "" || originator_id == ""))) invalid_query
    attempt db_failed
    gets (λ d.
        latest (λ a. a.created_at)
          (select (open_for tenant_id rule_id originator_type originator_id) d.alarms))

  -- The row that the statement inserts: a missing creation or update time is filled in.
  unfoldable pub stamp : ℕ → Alarm V → Alarm V
  stamp t a =
      let created : ℕ = if is_zero a.created_at then t else a.created_at in
      record a {
        created_at = created;
        updated_at = if is_zero a.updated_at then created else a.updated_at;
      }

  -- An insert is refused by the primary key, then by the unique index.
  unfoldable pub insert_checked : Alarm V → AlarmDb V → Exec (AlarmDb V) AlarmError (Unit {0})
  insert_checked a d =
      if any_where (has_id a.id) d.alarms
      then raise duplicate_id
      else if is_open a.status
          && any_where (open_for a.tenant_id a.rule_id a.originator_type a.originator_id) d.alarms
      then raise duplicate_open
      else modify (λ s. record s { alarms = s.alarms ++ a ∷ [] })

  unfoldable pub create : Alarm V → Exec (AlarmDb V) AlarmError (Unit {0})
  unfolding insert_checked stamp
  create a = do
    guard (not (a.id == "" || (a.tenant_id == "" || (a.rule_id == "" || a.station_id == ""))))
        missing_fields
    t ← (if is_zero a.created_at then now else pure a.created_at)
    attempt db_failed
    with_db (insert_checked (stamp t a))

  -- The `SET` clauses of the three updates.
  unfoldable pub touched : V → ℕ → Alarm V → Alarm V
  touched value t a = record a { last_value = value; updated_at = t }

  unfoldable pub acked : ℕ → Alarm V → Alarm V
  acked t a = record a { status = acknowledged; acked_at = t; updated_at = t }

  unfoldable pub closed : V → ℕ → Alarm V → Alarm V
  closed value t a = record a {
    status = cleared;
    last_value = value;
    end_at = t;
    cleared_at = t;
    updated_at = t;
  }

  unfoldable pub update_alarm : String → (Alarm V → Alarm V) → AlarmDb V → AlarmDb V
  update_alarm id f d = record d { alarms = update_where (has_id id) f d.alarms }

  unfoldable pub update_last_value : String → V → ℕ → Exec (AlarmDb V) AlarmError (Unit {0})
  unfolding update_alarm touched
  update_last_value id value t = do attempt db_failed; modify (update_alarm id (touched value t))

  unfoldable pub mark_acknowledged : String → ℕ → Exec (AlarmDb V) AlarmError (Unit {0})
  unfolding update_alarm acked
  mark_acknowledged id t = do attempt db_failed; modify (update_alarm id (acked t))

  unfoldable pub mark_cleared : String → V → ℕ → Exec (AlarmDb V) AlarmError (Unit {0})
  unfolding update_alarm closed
  mark_cleared id value t = do attempt db_failed; modify (update_alarm id (closed value t))

  listed_rows : String → String → Option Status → ℕ → ℕ → AlarmDb V → List (Alarm V)
  listed_rows tenant_id station_id status from to d =
      sort_by (λ a b. leb b.start_at a.start_at)
        (select
          (λ a.
            a.tenant_id == tenant_id
            && (a.station_id == station_id
                && (leb from a.start_at && (ltb a.start_at to && wanted status a.status))))
          d.alarms)

  unfoldable pub list_by_station_status_and_time :
      String → String → Option Status → ℕ → ℕ → Exec (AlarmDb V) AlarmError (List (Alarm V))
  unfolding listed_rows
  list_by_station_status_and_time tenant_id station_id status from to = do
    guard (not (tenant_id == "" || station_id == "")) invalid_query
    attempt db_failed
    gets (listed_rows tenant_id station_id status from to)

  -- The table of pending rule states.
  unfoldable pub get_state :
      String
      → String
      → OriginatorType
      → String
      → Exec (AlarmDb V) AlarmError (Option (AlarmRuleState V))
  unfolding state_for
  get_state tenant_id rule_id originator_type originator_id = do
    attempt db_failed
    gets (λ d. find_first (state_for tenant_id rule_id originator_type originator_id) d.states)

  unfoldable pub upsert_rows : AlarmRuleState V → List (AlarmRuleState V) → List (AlarmRuleState V)
  unfolding state_for
  upsert_rows s [] = s ∷ []
  upsert_rows s (x ∷ xs) =
      if state_for s.tenant_id s.rule_id s.originator_type s.originator_id x
      then s ∷ xs
      else x ∷ upsert_rows s xs

  unfoldable pub upsert_state : AlarmRuleState V → Exec (AlarmDb V) AlarmError (Unit {0})
  unfolding upsert_rows
  upsert_state s = do
    t ← (if is_zero s.updated_at then now else pure s.updated_at)
    attempt db_failed
    modify (λ d. record d {
      states =
          upsert_rows (record s { updated_at = if is_zero s.updated_at then t else s.updated_at })
            d.states;
    })

  unfoldable pub clear_state :
      String → String → OriginatorType → String → Exec (AlarmDb V) AlarmError (Unit {0})
  unfolding state_for
  clear_state tenant_id rule_id originator_type originator_id = do
    attempt db_failed
    modify (λ d. record d {
      states =
          select (λ s. not (state_for tenant_id rule_id originator_type originator_id s)) d.states;
    })
