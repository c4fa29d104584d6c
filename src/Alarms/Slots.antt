-- ===== src/Alarms/Slots.antt =====
-- The rows of a rule and an originator, and the insert of a new one.
use microgrid_cloud.Prelude.{
  ℕ, String, List, [], ◌∷◌, ◌++◌, false, not, ◌≡◌, ◌||◌, ◌&&◌, Option, ◌==◌, find_first, any_where,
  select, latest, is_zero,
}
use microgrid_cloud.Prelude.Exec.{calm, ok, ◌>>=◌}
use microgrid_cloud.Alarms.Domain.{
  OriginatorType, Alarm, AlarmRule, AlarmRuleState, TelemetryReceived,
}
use microgrid_cloud.Alarms.Repository.{AlarmDb, is_open, open_for, state_for, has_id, create}

module _ {V : Type 0} where
  -- The open alarm of a rule and an originator, and its pending state.
  abbrev pub open_row :
      TelemetryReceived V → AlarmRule V → OriginatorType → String → AlarmDb V → Option (Alarm V)
  open_row evt rule t id d =
      latest (λ a. a.created_at) (select (open_for evt.tenant_id rule.id t id) d.alarms)

  abbrev pub pending_row :
      TelemetryReceived V
      → AlarmRule V
      → OriginatorType
      → String
      → AlarmDb V
      → Option (AlarmRuleState V)
  pending_row evt rule t id d = find_first (state_for evt.tenant_id rule.id t id) d.states

  -- Keys that the repositories accept.
  abbrev pub Keyed : TelemetryReceived V → AlarmRule V → String → Type 0
  Keyed evt rule id =
      ((evt.tenant_id == "" || (rule.id == "" || id == "")) ≡ false)
      × ((evt.station_id == "") ≡ false)

  -- The pending states without the one of the rule and originator.
  abbrev pub settled :
      TelemetryReceived V
      → AlarmRule V
      → OriginatorType
      → String
      → AlarmDb V
      → List (AlarmRuleState V)
  settled evt rule t id d = select (λ s. not (state_for evt.tenant_id rule.id t id s)) d.states

  -- An insert that the table takes.
  pub create-calm :
      (a : Alarm V) (d : AlarmDb V) (clock : ℕ → ℕ) (reads : ℕ)
      → (a.id == "" || (a.tenant_id == "" || (a.rule_id == "" || a.station_id == ""))) ≡ false
      → is_zero a.created_at ≡ false
      → is_zero a.updated_at ≡ false
      → any_where (has_id a.id) d.alarms ≡ false
      → (is_open a.status
          && any_where (open_for a.tenant_id a.rule_id a.originator_type a.originator_id) d.alarms)
        ≡ false
      → create a (calm d clock reads)
        ≡ (ok tt, calm (record d { alarms = d.alarms ++ a ∷ [] }) clock reads)
  unfolding create ◌>>=◌
  create-calm a d clock reads keys c u fresh free = rw (keys, c, u, fresh, free)
