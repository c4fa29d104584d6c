-- ===== src/Alarms/Service.antt =====
-- The alarm service, backend/internal/alarms/application/service.go. Each method is an action on
-- the tables; the notifier is the list `notified`. A nil service is not modelled. `order` is the
-- order in which Go ranges over the map of samples, which the language leaves open.
use microgrid_cloud.Prelude.{
  ℕ, String, ◌+++◌, List, [], ◌∷◌, ◌++◌, Bool, true, false, not, ◌&&◌, ◌||◌, Option, none, some,
  ◌==◌, if◌then◌else◌, ltb, is_zero, entry, Float64, time_sub, seconds, ltb_ℤ,
}
use microgrid_cloud.Prelude.Platform.{Platform}
use microgrid_cloud.Prelude.Exec.{Exec, pure, raise, modify, now, guard, ignore, ◌>>=◌, ◌>>◌}
use microgrid_cloud.Alarms.Domain.{
  Status, active, acknowledged, cleared, OriginatorType, station, device, Alarm, AlarmRule,
  AlarmRuleState, TelemetryReceived, should_trigger, should_clear,
}
use microgrid_cloud.Alarms.Repository.{
  AlarmDb, AlarmError, missing_station_tenant, id_required, station_id_required, not_found,
  tenant_mismatch, status_eq, list_enabled_by_station, list_by_station, get_by_id,
  find_open_by_rule_originator, create, update_last_value, mark_acknowledged, mark_cleared,
  list_by_station_status_and_time, get_state, upsert_state, clear_state,
}
use microgrid_cloud.Alarms.Samples.{
  Sample, or_else, rules_by_semantic, index_mappings, collect_samples,
}

-- The configuration of the service: its default tenant, and whether it has a notifier.
pub record Service : Type 0 where
  pub tenant_id : String
  pub has_notifier : Bool

abbrev pub Act : Type 0 → Type 0 → Type 0
Act V A = Exec (AlarmDb V) AlarmError A

unfoldable pub at_or_now : {V : Type 0} → ℕ → Act V ℕ
at_or_now t = if is_zero t then now else pure t

-- `buildAlarmID`.
unfoldable pub build_alarm_id : Platform → String → String → String → ℕ → String
build_alarm_id platform tenant_id rule_id originator_id start_at =
    "alarm-"
    +++ platform.sha1_short (
        tenant_id
        +++ "|"
        +++ rule_id
        +++ "|"
        +++ originator_id
        +++ "|"
        +++ platform.format_nano start_at)

-- The tenant of the request, or the service's own.
abbrev pub tenant_of : Service → String → String
tenant_of service ctx_tenant = if ctx_tenant == "" then service.tenant_id else ctx_tenant

abbrev pub foreign : {V : Type 0} → String → Alarm V → Bool
foreign tenant alarm = not (tenant == "") && not (alarm.tenant_id == tenant)

abbrev pub is_empty {ℓ} : {A : Type ℓ} → List A → Bool
is_empty [] = true
is_empty (x ∷ xs) = false

module _ {V : Type 0} ⦃f : Float64 V⦄ (platform : Platform) (service : Service) where
  unfoldable pub notify : Status → Alarm V → Act V (Unit {0})
  notify event_type alarm =
      if service.has_notifier
      then modify (λ d. record d {
        notified = d.notified ++ record { event_type = event_type; alarm = alarm } ∷ [];
      })
      else pure tt

  unfoldable pub create_alarm :
      TelemetryReceived V → AlarmRule V → OriginatorType → String → V → ℕ → Act V (Unit {0})
  unfolding build_alarm_id at_or_now
  create_alarm evt rule originator_type originator_id value start = do
    start_at ← at_or_now start
    created ← now
    updated ← now
    let alarm : Alarm V = record {
      id = build_alarm_id platform evt.tenant_id rule.id originator_id start_at;
      tenant_id = evt.tenant_id;
      station_id = evt.station_id;
      originator_type = originator_type;
      originator_id = originator_id;
      rule_id = rule.id;
      status = active;
      start_at = start_at;
      end_at = 0;
      last_value = value;
      acked_at = 0;
      cleared_at = 0;
      created_at = created;
      updated_at = updated;
    }
    create alarm
    notify active alarm

  -- The branch of `evaluateRule` for an open alarm.
  unfoldable pub evaluate_open : AlarmRule V → Alarm V → V → ℕ → Act V (Unit {0})
  unfolding at_or_now
  evaluate_open rule alarm value at =
      if should_clear rule value
      then (do
        cleared_at ← at_or_now at
        mark_cleared alarm.id value cleared_at
        notify cleared (record alarm {
          status = cleared;
          cleared_at = cleared_at;
          end_at = cleared_at;
          last_value = value;
          updated_at = cleared_at;
        }))
      else (do t ← at_or_now at; update_last_value alarm.id value t)

  module _ (evt : TelemetryReceived V) (rule : AlarmRule V) (originator_type : OriginatorType)
      (originator_id : String) (value : V) (at : ℕ) where
    -- The first sample over the threshold of a rule with a duration.
    unfoldable pub start_pending : Act V (Unit {0})
    start_pending = do
      since ← at_or_now at
      updated ← now
      upsert_state (record {
        tenant_id = evt.tenant_id;
        station_id = evt.station_id;
        rule_id = rule.id;
        originator_type = originator_type;
        originator_id = originator_id;
        pending_since = since;
        last_value = value;
        updated_at = updated;
      })

    unfoldable pub keep_pending : ℕ → AlarmRuleState V → Act V (Unit {0})
    keep_pending start state = do
      updated ← now
      upsert_state
          (record state { pending_since = start; last_value = value; updated_at = updated })

    -- A further one: the alarm is raised once the duration has passed.
    unfoldable pub continue_pending : AlarmRuleState V → Act V (Unit {0})
    continue_pending state = do
      start ← (if is_zero state.pending_since then at_or_now at else pure state.pending_since)
      current ← at_or_now at
      if ltb_ℤ (time_sub current start) (seconds rule.duration_seconds)
          then keep_pending start state
          else (do
            ignore (clear_state evt.tenant_id rule.id originator_type originator_id)
            create_alarm evt rule originator_type originator_id value start)

    unfoldable pub evaluate_pending : Option (AlarmRuleState V) → Act V (Unit {0})
    unfolding start_pending keep_pending continue_pending
    evaluate_pending none = start_pending
    evaluate_pending (some state) = continue_pending state

    -- The branch for no open alarm.
    unfoldable pub evaluate_closed : Act V (Unit {0})
    unfolding evaluate_pending
    evaluate_closed =
        if not (should_trigger rule value)
        then ignore (clear_state evt.tenant_id rule.id originator_type originator_id)
        else (if ltb 0 rule.duration_seconds
            then (do
              state ← get_state evt.tenant_id rule.id originator_type originator_id
              evaluate_pending state)
            else (do
              start ← at_or_now at
              create_alarm evt rule originator_type originator_id value start))

    unfoldable pub evaluate_found : Option (Alarm V) → Act V (Unit {0})
    unfolding evaluate_open evaluate_closed
    evaluate_found (some alarm) = evaluate_open rule alarm value at
    evaluate_found none = evaluate_closed

    unfoldable pub evaluate_rule : Act V (Unit {0})
    unfolding evaluate_found
    evaluate_rule = do
      found ← find_open_by_rule_originator evt.tenant_id rule.id originator_type originator_id
      evaluate_found found

  unfoldable pub evaluate_rules :
      TelemetryReceived V
      → OriginatorType
      → String
      → Sample V
      → List (AlarmRule V)
      → Act V (Unit {0})
  evaluate_rules evt originator_type originator_id sample [] = pure tt
  evaluate_rules evt originator_type originator_id sample (rule ∷ rules) = do
    evaluate_rule evt rule originator_type originator_id sample.value sample.at
    evaluate_rules evt originator_type originator_id sample rules

  unfoldable pub evaluate_samples :
      TelemetryReceived V
      → OriginatorType
      → String
      → List (String × List (AlarmRule V))
      → List (String × Sample V)
      → Act V (Unit {0})
  unfolding evaluate_rules
  evaluate_samples evt originator_type originator_id rules [] = pure tt
  evaluate_samples evt originator_type originator_id rules ((semantic, sample) ∷ rest) = do
    evaluate_rules evt originator_type originator_id sample (or_else (entry rules semantic) [])
    evaluate_samples evt originator_type originator_id rules rest

  unfoldable pub handle_telemetry_received :
      (List (String × Sample V) → List (String × Sample V)) → TelemetryReceived V → Act V (Unit {0})
  unfolding evaluate_samples
  handle_telemetry_received order evt = do
    guard (not (evt.station_id == "" || evt.tenant_id == "")) missing_station_tenant
    if is_empty evt.points then pure tt else do
      mappings ← list_by_station evt.station_id
      if is_empty mappings then pure tt else do
        rules ← list_enabled_by_station evt.tenant_id evt.station_id
        if is_empty rules then pure tt else do
          let indexed = index_mappings (record { by_device = []; by_station = [] }) mappings
          let samples = collect_samples indexed evt [] evt.points
          let by_station = evt.device_id == ""
          evaluate_samples evt (if by_station then station else device)
              (if by_station then evt.station_id else evt.device_id) (rules_by_semantic [] rules)
              (order samples)

  unfoldable pub acknowledge : Alarm V → Act V (Alarm V)
  acknowledge alarm = do
    acked_at ← now
    mark_acknowledged alarm.id acked_at
    let acked : Alarm V = record alarm {
      status = acknowledged;
      acked_at = acked_at;
      updated_at = acked_at;
    }
    notify acknowledged acked
    pure acked

  unfoldable pub ack_found : String → Option (Alarm V) → Act V (Alarm V)
  unfolding acknowledge
  ack_found tenant none = raise not_found
  ack_found tenant (some alarm) =
      if foreign tenant alarm
      then raise tenant_mismatch
      else if status_eq alarm.status cleared || status_eq alarm.status acknowledged
      then pure alarm
      else acknowledge alarm

  unfoldable pub ack_alarm : String → String → Act V (Alarm V)
  unfolding ack_found
  ack_alarm ctx_tenant id = do
    guard (not (id == "")) id_required
    found ← get_by_id id
    ack_found (tenant_of service ctx_tenant) found

  unfoldable pub clear : Alarm V → Act V (Alarm V)
  clear alarm = do
    cleared_at ← now
    mark_cleared alarm.id alarm.last_value cleared_at
    let done : Alarm V = record alarm {
      status = cleared;
      cleared_at = cleared_at;
      end_at = cleared_at;
      updated_at = cleared_at;
    }
    notify cleared done
    pure done

  unfoldable pub clear_found : String → Option (Alarm V) → Act V (Alarm V)
  unfolding clear
  clear_found tenant none = raise not_found
  clear_found tenant (some alarm) =
      if foreign tenant alarm
      then raise tenant_mismatch
      else if status_eq alarm.status cleared
      then pure alarm
      else clear alarm

  unfoldable pub clear_alarm : String → String → Act V (Alarm V)
  unfolding clear_found
  clear_alarm ctx_tenant id = do
    guard (not (id == "")) id_required
    found ← get_by_id id
    clear_found (tenant_of service ctx_tenant) found

  unfoldable pub list_alarms : String → String → Option Status → ℕ → ℕ → Act V (List (Alarm V))
  list_alarms ctx_tenant station_id status from to = do
    guard (not (station_id == "")) station_id_required
    list_by_station_status_and_time (tenant_of service ctx_tenant) station_id status from to
