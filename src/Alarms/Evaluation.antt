-- ===== src/Alarms/Evaluation.antt =====
-- What `evaluateRule` does on each of its branches, where the calls of the database succeed.
use microgrid_cloud.Prelude.{
  ℕ, suc, String, [], ◌∷◌, ◌++◌, true, false, ◌≡◌, refl, ◌||◌, ◌+◌, ◌*◌, ◌≤◌, arith, some, none,
  Bool-cases, inl, inr, Float64, ◌==◌, any_where, update_where, ltb, append_filled,
  any_where_of_latest, if◌then◌else◌, is_zero, time_sub-lt-seconds,
}
use microgrid_cloud.Prelude.Platform.{Platform}
use microgrid_cloud.Prelude.Exec.{calm, ok, ◌>>=◌}
use microgrid_cloud.Alarms.Domain.{
  active, cleared, OriginatorType, Alarm, AlarmRule, AlarmRuleState, TelemetryReceived,
  should_trigger, should_clear,
}
use microgrid_cloud.Alarms.Repository.{
  AlarmDb, open_for, has_id, closed, find_open_by_rule_originator, mark_cleared, update_alarm,
  get_state, upsert_state, upsert_rows, clear_state,
}
use microgrid_cloud.Alarms.Service.{
  Service, build_alarm_id, evaluate_rule, evaluate_closed, evaluate_pending, keep_pending,
  create_alarm, notify, at_or_now,
}
use microgrid_cloud.Alarms.Slots.{open_row, pending_row, Keyed, settled, create-calm}

module _ {V : Type 0} ⦃f : Float64 V⦄ (platform : Platform) (service : Service)
    (evt : TelemetryReceived V) (rule : AlarmRule V) (t : OriginatorType) (id : String) (value : V)
    (at : ℕ) (clock : ℕ → ℕ) (reads : ℕ) where
  -- The tables after an open alarm is closed and announced.
  abbrev pub shut_down : AlarmDb V → Alarm V → AlarmDb V
  shut_down d a = record d {
    alarms = update_where (has_id a.id) (closed value at) d.alarms;
    notified =
        if service.has_notifier
        then d.notified
          ++ record {
            event_type = cleared;
            alarm = record a {
              status = cleared;
              cleared_at = at;
              end_at = at;
              last_value = value;
              updated_at = at;
            };
          }
            ∷ []
        else d.notified;
  }

  -- An open alarm whose value has returned past the hysteresis.
  pub evaluate_rule_clears :
      (d : AlarmDb V) (a : Alarm V)
      → Keyed evt rule id
      → is_zero at ≡ false
      → open_row evt rule t id d ≡ some a
      → should_clear rule value ≡ true
      → evaluate_rule platform service evt rule t id value at (calm d clock reads)
        ≡ (ok tt, calm (shut_down d a) clock reads)
  unfolding evaluate_rule find_open_by_rule_originator mark_cleared update_alarm notify at_or_now
      ◌>>=◌
  evaluate_rule_clears d a k p e c = elim (Bool-cases service.has_notifier) [
    | inl on ↦ rw (k.0, e, c, p, on)
    | inr off ↦ rw (k.0, e, c, p, off)
  ]

  -- The row that a raised alarm inserts.
  abbrev pub raised : ℕ → ℕ → Alarm V
  raised start created = record {
    id = build_alarm_id platform evt.tenant_id rule.id id start;
    tenant_id = evt.tenant_id;
    station_id = evt.station_id;
    originator_type = t;
    originator_id = id;
    rule_id = rule.id;
    status = active;
    start_at = start;
    end_at = 0;
    last_value = value;
    acked_at = 0;
    cleared_at = 0;
    created_at = created;
    updated_at = clock (suc reads);
  }

  -- An alarm id is never empty.
  id_filled : (start : ℕ) → (build_alarm_id platform evt.tenant_id rule.id id start == "") ≡ false
  unfolding build_alarm_id
  id_filled start = append_filled "alarm-" _ refl

  -- The tables after an alarm is raised and announced.
  abbrev pub announced : AlarmDb V → Alarm V → AlarmDb V
  announced d a = record d {
    alarms = d.alarms ++ a ∷ [];
    notified =
        if service.has_notifier
        then d.notified ++ record { event_type = active; alarm = a } ∷ []
        else d.notified;
  }

  -- The row of a pending state that starts with the sample.
  abbrev pub pending : ℕ → AlarmRuleState V
  pending updated = record {
    tenant_id = evt.tenant_id;
    station_id = evt.station_id;
    rule_id = rule.id;
    originator_type = t;
    originator_id = id;
    pending_since = at;
    last_value = value;
    updated_at = updated;
  }

  create_alarm-calm :
      (d : AlarmDb V) (start : ℕ)
      → Keyed evt rule id
      → is_zero start ≡ false
      → is_zero (clock reads) ≡ false
      → is_zero (clock (suc reads)) ≡ false
      → any_where (has_id (build_alarm_id platform evt.tenant_id rule.id id start)) d.alarms ≡ false
      → any_where (open_for evt.tenant_id rule.id t id) d.alarms ≡ false
      → create_alarm platform service evt rule t id value start (calm d clock reads)
        ≡ (ok tt, calm (announced d (raised start (clock reads))) clock (suc (suc reads)))
  unfolding create_alarm ◌>>=◌ notify at_or_now
  create_alarm-calm d start k p q r fresh free =
      let keys : (build_alarm_id platform evt.tenant_id rule.id id start == ""
            || (evt.tenant_id == "" || (rule.id == "" || evt.station_id == "")))
          ≡ false =
        ground (arith, id_filled start, k.0, k.1) in
      rw p (
        rw (create-calm (raised start (clock reads)) d clock (suc (suc reads)) keys q r fresh free)
          (ground arith))

  -- Where no call of the database fails, the keys are filled in, the sample and the clock's readings
  -- are times, and no alarm has the new id: without a duration the first value over the threshold,
  -- while none is open, raises one active alarm that starts at the time of the sample and announces
  -- it to the notifier, if there is one; no pending state changes.
  evaluate_rule_raises :
      (d : AlarmDb V)
      → Keyed evt rule id
      → is_zero at ≡ false
      → is_zero (clock reads) ≡ false
      → is_zero (clock (suc reads)) ≡ false
      → open_row evt rule t id d ≡ none
      → should_trigger rule value ≡ true
      → ltb 0 rule.duration_seconds ≡ false
      → any_where (has_id (build_alarm_id platform evt.tenant_id rule.id id at)) d.alarms ≡ false
      → evaluate_rule platform service evt rule t id value at (calm d clock reads)
        ≡ (ok tt, calm (announced d (raised at (clock reads))) clock (suc (suc reads)))
  unfolding evaluate_rule find_open_by_rule_originator at_or_now ◌>>=◌
  evaluate_rule_raises d k p q r e c n fresh =
      rw (k.0, e, c, n, p)
        (create_alarm-calm d at k p q r fresh (any_where_of_latest _ _ d.alarms e))

  -- Where no call of the database fails, the keys are filled in, and the sample and the clock's
  -- reading are times: the first value over the threshold of a rule with a duration, while no alarm
  -- is open and no state pending, starts a pending state and raises nothing.
  evaluate_rule_pends :
      (d : AlarmDb V)
      → Keyed evt rule id
      → is_zero at ≡ false
      → is_zero (clock reads) ≡ false
      → open_row evt rule t id d ≡ none
      → should_trigger rule value ≡ true
      → ltb 0 rule.duration_seconds ≡ true
      → pending_row evt rule t id d ≡ none
      → evaluate_rule platform service evt rule t id value at (calm d clock reads) ≡ (
        ok tt,
        calm (record d { states = upsert_rows (pending (clock reads)) d.states }) clock (suc reads),
      )
  unfolding evaluate_rule evaluate_closed evaluate_pending find_open_by_rule_originator get_state
      upsert_state at_or_now ◌>>=◌
  evaluate_rule_pends d k p q e c n none_yet = rw (k.0, e, c, n, none_yet, p, q)

  -- Where no call of the database fails, the keys are filled in, the times and the clock's readings
  -- are not zero, the duration is positive and within the range of time.Duration, no alarm of the
  -- rule and originator is open and none has the new id: a value over the threshold, where a pending
  -- state is stored, refreshes that state and raises nothing before the duration has passed; from
  -- then on it raises the alarm, starting when the state began, and drops the state.
  pub evaluate_rule_matures :
      (d : AlarmDb V) (state : AlarmRuleState V)
      → Keyed evt rule id
      → is_zero at ≡ false
      → is_zero state.pending_since ≡ false
      → is_zero (clock reads) ≡ false
      → is_zero (clock (suc reads)) ≡ false
      → open_row evt rule t id d ≡ none
      → should_trigger rule value ≡ true
      → ltb 0 rule.duration_seconds ≡ true
      → rule.duration_seconds ≤ 9223372036
      → pending_row evt rule t id d ≡ some state
      → any_where
          (has_id (build_alarm_id platform evt.tenant_id rule.id id state.pending_since))
          d.alarms
        ≡ false
      → evaluate_rule platform service evt rule t id value at (calm d clock reads) ≡ (
          if ltb at (state.pending_since + rule.duration_seconds * 1000000000)
          then (
            ok tt,
            calm
                (record d {
                  states =
                      upsert_rows
                        (record state { last_value = value; updated_at = clock reads })
                        d.states;
                })
                clock
                (suc reads),
          )
          else (
            ok tt,
            calm
                (record (announced d (raised state.pending_since (clock reads))) {
                  states = settled evt rule t id d;
                })
                clock
                (suc (suc reads)),
          ))
  unfolding evaluate_rule evaluate_closed evaluate_pending find_open_by_rule_originator get_state
      upsert_state clear_state at_or_now ◌>>=◌ keep_pending
  evaluate_rule_matures d state k p s q r e c n bound found fresh =
      rw
        (
          k.0,
          e,
          c,
          n,
          found,
          s,
          p,
          time_sub-lt-seconds at state.pending_since rule.duration_seconds bound,
        )
        (elim (Bool-cases (ltb at (state.pending_since + rule.duration_seconds * 1000000000))) [
          | inl early ↦ rw (early, q)
          | inr late ↦ rw late (
              create_alarm-calm (record d { states = settled evt rule t id d }) state.pending_since
                k s q r fresh (any_where_of_latest _ _ d.alarms e))
        ])

  -- Where no call of the database fails, the keys are filled in and no alarm is open: a value that
  -- does not trigger drops the pending state, and changes nothing else.
  pub evaluate_rule_resets :
      (d : AlarmDb V)
      → Keyed evt rule id
      → open_row evt rule t id d ≡ none
      → should_trigger rule value ≡ false
      → evaluate_rule platform service evt rule t id value at (calm d clock reads)
        ≡ (ok tt, calm (record d { states = settled evt rule t id d }) clock reads)
  unfolding evaluate_rule find_open_by_rule_originator clear_state ◌>>=◌
  evaluate_rule_resets d k e c = rw (k.0, e, c)
