-- ===== src/Alarms/Safety.antt =====
-- Every operation of the alarm repositories keeps the alarms table valid and moves its rows
-- forward; an acknowledgement does so where no row under the id has been cleared.
use microgrid_cloud.Prelude.{
  ℕ, String, List, false, ◌≡◌, ◌&&◌, any_where, Bool-cases, inl, inr, find_first, Option,
}
use microgrid_cloud.Prelude.Exec.{World, Keeps, Triple, raise, modify, with_db}
use microgrid_cloud.Prelude.Exec.Rules.{
  keeps_rules, Keeps-modify, Keeps-bind, Keeps-attempt, Keeps-pure, Keeps-if, Keeps-now,
  Triple-bind, triple-Keeps, Triple-gets,
}
use microgrid_cloud.Prelude.Tables.{Grows-append}
use microgrid_cloud.Alarms.Domain.{Status, OriginatorType, Alarm, AlarmRuleState}
use microgrid_cloud.Alarms.Repository.{
  AlarmDb, is_open, open_for, has_id, insert_checked, create, update_last_value, mark_acknowledged,
  mark_cleared, upsert_state, clear_state, get_state, get_by_id, find_open_by_rule_originator,
  list_by_station, list_enabled_by_station, list_by_station_status_and_time,
}
use microgrid_cloud.Alarms.Invariant.{
  Valid, shut, append-Valid, touched-Valid, closed-Valid, acked-Valid,
}
use microgrid_cloud.Alarms.Lifecycle.{
  Evolves, Moves, touched-Evolves, closed-Evolves, acked-Evolves,
}

-- The table is valid, and grew out of an earlier one.
abbrev pub Tracks : {V : Type 0} → List (Alarm V) → AlarmDb V → Type 0
Tracks earlier d = Valid d.alarms × Evolves earlier d.alarms

module _ {V : Type 0} (earlier : List (Alarm V)) where
  insert-Keeps :
      (a : Alarm V) (w : World (AlarmDb V))
      → Tracks earlier w.db
      → Tracks earlier (insert_checked a w.db w).1.db
  unfolding insert_checked raise modify
  insert-Keeps a w h = elim (Bool-cases (any_where (has_id a.id) w.db.alarms)) [
    | inl dup ↦ rw dup h
    | inr fresh ↦
        elim (Bool-cases (
          is_open a.status
          && any_where (open_for a.tenant_id a.rule_id a.originator_type a.originator_id)
              w.db.alarms)) [
                | inl taken ↦ rw (fresh, taken) h
                | inr free ↦
                    rw (fresh, free)
                      (
                        append-Valid w.db.alarms a fresh free h.0,
                        Grows-append Moves earlier w.db.alarms a h.1,
                      )
              ]
  ]

  Keeps-insert : (a : Alarm V) → Keeps (Tracks earlier) (with_db (insert_checked a))
  unfolding with_db
  Keeps-insert a = record { at = λ w h. insert-Keeps a w h }

  pub create-Keeps : (a : Alarm V) → Keeps (Tracks earlier) (create a)
  unfolding create
  create-Keeps a = search (keeps_rules, Keeps-insert)

  pub update_last_value-Keeps :
      (id : String) (value : V) (t : ℕ) → Keeps (Tracks earlier) (update_last_value id value t)
  unfolding update_last_value
  update_last_value-Keeps id value t = Keeps-bind _ _ (Keeps-attempt _) λ _. Keeps-modify _ λ s h.
      (touched-Valid id value t s.alarms h.0, touched-Evolves id value t earlier s.alarms h.1)

  pub mark_cleared-Keeps :
      (id : String) (value : V) (t : ℕ) → Keeps (Tracks earlier) (mark_cleared id value t)
  unfolding mark_cleared
  mark_cleared-Keeps id value t = Keeps-bind _ _ (Keeps-attempt _) λ _.
      Keeps-modify _ λ s h.
        (closed-Valid id value t s.alarms h.0, closed-Evolves id value t earlier s.alarms h.1)

  abbrev pub Unshut : String → AlarmDb V → Type 0
  Unshut id d = any_where (shut id) d.alarms ≡ false

  pub mark_acknowledged_run :
      (id : String) (t : ℕ)
      → Triple
          (λ s. Tracks earlier s × Unshut id s)
          (mark_acknowledged id t)
          (λ _. Tracks earlier)
          (Tracks earlier)
  unfolding mark_acknowledged modify
  mark_acknowledged_run id t = Triple-bind _ _ (triple-Keeps _ (Keeps-attempt _) (λ s h. h.0)) λ _.
      record {
        run = λ w h. (
          acked-Valid id t w.db.alarms h.1 h.0.0,
          acked-Evolves id t earlier w.db.alarms h.1 h.0.1,
        );
      }

  pub upsert_state-Keeps : (s : AlarmRuleState V) → Keeps (Tracks earlier) (upsert_state s)
  unfolding upsert_state
  upsert_state-Keeps s =
      Keeps-bind _ _ (Keeps-if _ _ _ Keeps-now (Keeps-pure _))
        λ t. Keeps-bind _ _ (Keeps-attempt _) λ _. Keeps-modify _ λ _ h. h

  module _ (tenant_id rule_id : String) (originator_type : OriginatorType)
      (originator_id : String) where
    pub clear_state-Keeps :
        Keeps (Tracks earlier) (clear_state {V = V} tenant_id rule_id originator_type originator_id)
    unfolding clear_state
    clear_state-Keeps = Keeps-bind _ _ (Keeps-attempt _) λ _. Keeps-modify _ λ _ h. h

    pub get_state-Keeps :
        Keeps (Tracks earlier) (get_state {V = V} tenant_id rule_id originator_type originator_id)
    unfolding get_state
    get_state-Keeps = search keeps_rules

    pub find_open-Keeps :
        Keeps
          (Tracks earlier)
          (find_open_by_rule_originator {V = V} tenant_id rule_id originator_type originator_id)
    unfolding find_open_by_rule_originator
    find_open-Keeps = search keeps_rules

  pub list_by_station-Keeps : (id : String) → Keeps (Tracks earlier) (list_by_station {V = V} id)
  unfolding list_by_station
  list_by_station-Keeps id = search keeps_rules

  pub list_enabled-Keeps :
      (tenant_id id : String)
      → Keeps (Tracks earlier) (list_enabled_by_station {V = V} tenant_id id)
  unfolding list_enabled_by_station
  list_enabled-Keeps tenant_id id = search keeps_rules

  pub list_alarms-Keeps :
      (tenant_id id : String) (status : Option Status) (from to : ℕ)
      → Keeps (Tracks earlier) (list_by_station_status_and_time {V = V} tenant_id id status from to)
  unfolding list_by_station_status_and_time
  list_alarms-Keeps tenant_id id status from to = search keeps_rules

  pub get_by_id-Keeps : (id : String) → Keeps (Tracks earlier) (get_by_id {V = V} id)
  unfolding get_by_id
  get_by_id-Keeps id = search keeps_rules

  -- What a lookup by id finds, with the state that it found it in.
  pub get_by_id_run :
      (id : String)
      → Triple
          (Tracks earlier)
          (get_by_id id)
          (λ found s. Tracks earlier s × (find_first (has_id id) s.alarms ≡ found))
          (Tracks earlier)
  unfolding get_by_id
  get_by_id_run id =
      Triple-bind _ _ (triple-Keeps _ (Keeps-attempt _) (λ s h. h)) λ _. Triple-gets _

pub ruleset alarm_keeps = (
  keeps_rules, create-Keeps, update_last_value-Keeps, mark_cleared-Keeps, upsert_state-Keeps,
  clear_state-Keeps, get_state-Keeps, find_open-Keeps, list_by_station-Keeps, list_enabled-Keeps,
  list_alarms-Keeps, get_by_id-Keeps,
)
