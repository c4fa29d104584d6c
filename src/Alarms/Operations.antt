-- ===== src/Alarms/Operations.antt =====
-- The alarm service keeps its table: evaluation, acknowledgement and clearing.
use microgrid_cloud.Prelude.{
  ℕ, String, List, [], ◌∷◌, true, false, ◌≡◌, ◌||◌, arith, Option, some, none, Float64, find_first,
  find_first-passes, eq_iff,
}
use microgrid_cloud.Prelude.Platform.{Platform}
use microgrid_cloud.Prelude.Exec.{Keeps, Triple, raise, pure}
use microgrid_cloud.Prelude.Exec.Rules.{
  keeps_rules, Keeps-modify, Keeps-bind, Keeps-now, Keeps-if, Keeps-pure, Triple-bind, triple-Keeps,
  Triple-if, Keeps-triple, Triple-weaken, Triple-pure, Triple-raise, Keeps-raise, Keeps-guard,
}
use microgrid_cloud.Alarms.Domain.{
  Status, acknowledged, cleared, OriginatorType, Alarm, AlarmRule, AlarmRuleState,
  TelemetryReceived,
}
use microgrid_cloud.Alarms.Repository.{AlarmDb, status_eq, is_open, has_id, tenant_mismatch}
use microgrid_cloud.Alarms.Invariant.{shut_of_found}
use microgrid_cloud.Alarms.Samples.{Sample}
use microgrid_cloud.Alarms.Safety.{
  Tracks, Unshut, alarm_keeps, mark_acknowledged_run, get_by_id_run,
}
use microgrid_cloud.Alarms.Service.{
  Service, at_or_now, notify, create_alarm, keep_pending, continue_pending, evaluate_pending,
  evaluate_closed, evaluate_found, evaluate_rules, evaluate_samples, acknowledge, ack_found, clear,
  clear_found, evaluate_open, evaluate_rule, handle_telemetry_received, ack_alarm, clear_alarm,
  list_alarms, foreign,
}

module _ {V : Type 0} (earlier : List (Alarm V)) where
  at_or_now-Keeps : (t : ℕ) → Keeps (Tracks earlier) (at_or_now {V = V} t)
  unfolding at_or_now
  at_or_now-Keeps t = search keeps_rules

module _ {V : Type 0} ⦃f : Float64 V⦄ (platform : Platform) (service : Service)
    (earlier : List (Alarm V)) where
  notify-Keeps : (s : Status) (a : Alarm V) → Keeps (Tracks earlier) (notify platform service s a)
  unfolding notify
  notify-Keeps s a = Keeps-if _ _ _ (Keeps-modify _ λ _ h. h) (Keeps-pure tt)

  create_alarm-Keeps :
      (evt : TelemetryReceived V) (rule : AlarmRule V) (t : OriginatorType) (id : String)
      (value : V) (start : ℕ)
      → Keeps (Tracks earlier) (create_alarm platform service evt rule t id value start)
  unfolding create_alarm
  create_alarm-Keeps evt rule t id value start = search (alarm_keeps, notify-Keeps, at_or_now-Keeps)

  evaluate_open-Keeps :
      (rule : AlarmRule V) (a : Alarm V) (value : V) (at : ℕ)
      → Keeps (Tracks earlier) (evaluate_open platform service rule a value at)
  unfolding evaluate_open
  evaluate_open-Keeps rule a value at = search (alarm_keeps, notify-Keeps, at_or_now-Keeps)

  module _ (evt : TelemetryReceived V) (rule : AlarmRule V) (t : OriginatorType) (id : String)
      (value : V) (at : ℕ) where
    continue_pending-Keeps :
        (state : AlarmRuleState V)
        → Keeps (Tracks earlier) (continue_pending platform service evt rule t id value at state)
    unfolding continue_pending keep_pending
    continue_pending-Keeps state = search (alarm_keeps, at_or_now-Keeps, create_alarm-Keeps) depth 9

    evaluate_pending-Keeps :
        (state : Option (AlarmRuleState V))
        → Keeps (Tracks earlier) (evaluate_pending platform service evt rule t id value at state)
    unfolding evaluate_pending
    evaluate_pending-Keeps none = search (alarm_keeps, at_or_now-Keeps)
    evaluate_pending-Keeps (some state) = continue_pending-Keeps state

    evaluate_closed-Keeps :
        Keeps (Tracks earlier) (evaluate_closed platform service evt rule t id value at)
    unfolding evaluate_closed
    evaluate_closed-Keeps =
        search (alarm_keeps, at_or_now-Keeps, create_alarm-Keeps, evaluate_pending-Keeps)

    evaluate_found-Keeps :
        (found : Option (Alarm V))
        → Keeps (Tracks earlier) (evaluate_found platform service evt rule t id value at found)
    unfolding evaluate_found
    evaluate_found-Keeps none = evaluate_closed-Keeps
    evaluate_found-Keeps (some a) = evaluate_open-Keeps rule a value at

    evaluate_rule-Keeps :
        Keeps (Tracks earlier) (evaluate_rule platform service evt rule t id value at)
    unfolding evaluate_rule
    evaluate_rule-Keeps = search (alarm_keeps, evaluate_found-Keeps)

  module _ (evt : TelemetryReceived V) (t : OriginatorType) (id : String) where
    evaluate_rules-Keeps :
        (sample : Sample V) (rules : List (AlarmRule V))
        → Keeps (Tracks earlier) (evaluate_rules platform service evt t id sample rules)
    unfolding evaluate_rules
    evaluate_rules-Keeps sample [] = Keeps-pure tt
    evaluate_rules-Keeps sample (rule ∷ rules) =
        Keeps-bind _ _ (evaluate_rule-Keeps evt rule t id sample.value sample.at)
          λ _. evaluate_rules-Keeps sample rules

    evaluate_samples-Keeps :
        (rules : List (String × List (AlarmRule V))) (samples : List (String × Sample V))
        → Keeps (Tracks earlier) (evaluate_samples platform service evt t id rules samples)
    unfolding evaluate_samples
    evaluate_samples-Keeps rules [] = Keeps-pure tt
    evaluate_samples-Keeps rules ((semantic, sample) ∷ rest) =
        Keeps-bind _ _ (evaluate_rules-Keeps sample _) λ _. evaluate_samples-Keeps rules rest

  pub handle-Keeps :
      (order : List (String × Sample V) → List (String × Sample V)) (evt : TelemetryReceived V)
      → Keeps (Tracks earlier) (handle_telemetry_received platform service order evt)
  unfolding handle_telemetry_received
  handle-Keeps order evt = search (alarm_keeps, evaluate_samples-Keeps) depth 8

  -- An acknowledgement of a row that is open in the state at hand.
  acknowledge_run :
      (a : Alarm V)
      → Triple
          (λ s. Tracks earlier s × Unshut earlier a.id s)
          (acknowledge platform service a)
          (λ _. Tracks earlier)
          (Tracks earlier)
  unfolding acknowledge
  acknowledge_run a = Triple-bind _ _ (triple-Keeps _ Keeps-now (λ s h. h.0)) λ t.
      Triple-bind _ _ (mark_acknowledged_run earlier a.id t)
        λ _. triple-Keeps _ (search (keeps_rules, notify-Keeps)) (λ s h. h)

  clear-Keeps : (a : Alarm V) → Keeps (Tracks earlier) (clear platform service a)
  unfolding clear
  clear-Keeps a = search (alarm_keeps, notify-Keeps)

  clear_found-Keeps :
      (tenant : String) (found : Option (Alarm V))
      → Keeps (Tracks earlier) (clear_found platform service tenant found)
  unfolding clear_found
  clear_found-Keeps tenant none = Keeps-raise _
  clear_found-Keeps tenant (some a) = search (keeps_rules, clear-Keeps)

  open_of_refused :
      (s : Status) → status_eq s cleared || status_eq s acknowledged ≡ false → is_open s ≡ true
  open_of_refused s h = ground arith

  -- The row that a lookup found is the only one under its id, so none there has been cleared.
  found_open :
      (id : String) (a : Alarm V) (s : AlarmDb V)
      → is_open a.status ≡ true
      → Tracks earlier s
      → find_first (has_id id) s.alarms ≡ some a
      → Unshut earlier a.id s
  found_open id a s o h e =
      rw ((eq_iff a.id id).0 (find_first-passes (has_id id) s.alarms a e))
        (shut_of_found id s.alarms a e o h.0)

  ack_found_run :
      (tenant id : String) (found : Option (Alarm V))
      → Triple
          (λ s. Tracks earlier s × (find_first (has_id id) s.alarms ≡ found))
          (ack_found platform service tenant found)
          (λ _. Tracks earlier)
          (Tracks earlier)
  unfolding ack_found
  ack_found_run tenant id none = Triple-raise _ (λ s h. h.0)
  ack_found_run tenant id (some a) =
      Triple-if (foreign tenant a) (raise tenant_mismatch) _ (λ _. Triple-raise _ (λ s h. h.0))
        λ _.
          Triple-if (status_eq a.status cleared || status_eq a.status acknowledged) (pure a)
            (acknowledge platform service a) (λ _. Triple-pure _ (λ s h. h.0))
            λ fresh.
              Triple-weaken _
                (λ s h. (h.0, found_open id a s (open_of_refused a.status fresh) h.0 h.1))
                (acknowledge_run a)

  pub ack_alarm-Keeps :
      (tenant id : String) → Keeps (Tracks earlier) (ack_alarm platform service tenant id)
  unfolding ack_alarm
  ack_alarm-Keeps tenant id =
      Keeps-bind _ _ (Keeps-guard _ _)
        λ _. Keeps-triple _ (Triple-bind _ _ (get_by_id_run earlier id) (ack_found_run _ id))

  pub clear_alarm-Keeps :
      (tenant id : String) → Keeps (Tracks earlier) (clear_alarm platform service tenant id)
  unfolding clear_alarm
  clear_alarm-Keeps tenant id = search (alarm_keeps, clear_found-Keeps)

  pub list_alarms_all-Keeps :
      (tenant id : String) (status : Option Status) (from to : ℕ)
      → Keeps (Tracks earlier) (list_alarms {V = V} platform service tenant id status from to)
  unfolding list_alarms
  list_alarms_all-Keeps tenant id status from to = search alarm_keeps
