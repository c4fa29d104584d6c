-- ===== src/Notices/Notifier.antt =====
-- The notifier of alarms: backend/internal/alarms/notify/notifier.go, with the rule's GetByID of
-- backend/internal/alarms/infrastructure/postgres/rule_repository.go and the station's Get of
-- backend/internal/masterdata/infrastructure/postgres/station_repository.go. The lock is held over
-- single reads and writes of the maps, so each of those is one step.
use microgrid_cloud.Prelude.{
  ℕ, ◌+◌, String, ◌+++◌, List, [], ◌∷◌, Bool, true, false, not, ◌&&◌, ◌||◌, Option, none, some,
  ◌==◌, if◌then◌else◌, is_zero, ltb, ltb_ℤ, pos, time_sub, find_first, select, entry, assign,
}
use microgrid_cloud.Prelude.Platform.{Platform}
use microgrid_cloud.Prelude.Exec.{
  Exec, Result, ok, err, pure, gets, modify, now, caught, ignore, attempt, guard, ◌>>=◌, ◌>>◌,
}
use microgrid_cloud.Prelude.Exec.Zoom.{zoom}
use microgrid_cloud.Alarms.Domain.{
  Status, active, acknowledged, cleared, AlarmRule, Alarm, AlarmEvent,
}
use microgrid_cloud.Alarms.Repository.{get_by_id, status_eq}
use microgrid_cloud.Notices.Domain.{
  Station, SendRecord, Delivery, NoticeDb, NoticeError, db_failed, invalid_query, empty_id,
  send_failed, alarm_failed, Options, Texts, Decimals,
}
use microgrid_cloud.Notices.Message.{build_template_data, severity_at_least, status_label}

abbrev pub Act : Type 0 → Type 0 → Type 0
Act V A = Exec (NoticeDb V) NoticeError A

abbrev pub notification_key : String → String → String
notification_key alarm_id event = alarm_id +++ "|" +++ event

-- A result whose error is dropped.
abbrev pub found : {A : Type 0} → Result NoticeError (Option A) → Option A
found (ok a) = a
found (err e) = none

-- `delete(n.timers, id)`, and the timer is stopped.
abbrev pub without_timer : String → List (String × ℕ) → List (String × ℕ)
without_timer id timers = select (λ t. not (t.0 == id)) timers

module _ {V : Type 0} where
  abbrev pub is_rule : String → String → AlarmRule V → Bool
  is_rule tenant_id id r = r.tenant_id == tenant_id && r.id == id

  unfoldable pub get_rule : String → String → Act V (Option (AlarmRule V))
  get_rule tenant_id id = do
    guard (not (tenant_id == "" || id == "")) invalid_query
    attempt db_failed
    gets (λ d. find_first (is_rule tenant_id id) d.alarm_tables.rules)

  unfoldable pub get_station : String → Act V (Option Station)
  get_station id = do
    guard (not (id == "")) empty_id
    attempt db_failed
    gets (λ d. find_first (λ s. s.id == id) d.stations)

  unfoldable pub get_alarm : String → Act V (Option (Alarm V))
  get_alarm id =
      zoom (λ (d : NoticeDb V). d.alarm_tables) (λ d t. record d { alarm_tables = t }) alarm_failed
        (get_by_id id)

  unfoldable pub cancel_escalation : String → Act V (Unit {0})
  cancel_escalation id =
      if id == "" then pure tt else modify (λ d. record d { timers = without_timer id d.timers })

  -- Close stops all timers.
  unfoldable pub close : Act V (Unit {0})
  close = modify (λ d. record d { timers = [] })

module _ {V : Type 0} ⦃texts : Texts⦄ ⦃decimals : Decimals V⦄ (platform : Platform)
    (options : Options V) where
  -- The decision for a key that was sent before.
  unfoldable pub allows : SendRecord → ℕ → String → Bool
  allows r t hash =
      if ltb 0 options.cooldown && ltb_ℤ (time_sub t r.at) (pos options.cooldown)
      then false
      else if ltb 0 options.dedupe_window
          && (r.hash == hash && ltb_ℤ (time_sub t r.at) (pos options.dedupe_window))
      then false
      else true

  unfoldable pub allows_entry : Option SendRecord → ℕ → String → Bool
  unfolding allows
  allows_entry none t hash = true
  allows_entry (some r) t hash = allows r t hash

  -- The answer, with the reading of the clock that it rests on.
  unfoldable pub should_send : String → String → String → Act V (Bool × ℕ)
  unfolding allows_entry
  should_send alarm_id event content =
      if is_zero options.cooldown && is_zero options.dedupe_window then pure (true, 0) else (do
        t ← now
        r ← gets (λ d. entry d.sent (notification_key alarm_id event))
        pure (allows_entry r t (platform.sha1_short content), t))

  -- What is recorded of a message that the channel took.
  unfoldable pub recorded : Delivery → NoticeDb V → NoticeDb V
  recorded m d = record d {
    sent = assign d.sent m.key (record { at = m.recorded_at; hash = m.hash });
    delivered = m ∷ d.delivered;
  }

  unfoldable pub mark_sent : String → String → String → ℕ → Act V (Unit {0})
  unfolding recorded
  mark_sent alarm_id event content checked = do
    t ← now
    modify (
        recorded (record {
          key = notification_key alarm_id event;
          content = content;
          hash = platform.sha1_short content;
          checked_at = checked;
          recorded_at = t;
        }))

  -- The sending of an allowed message; a channel that fails ends it.
  unfoldable pub send_allowed : String → String → String → Bool × ℕ → Act V (Unit {0})
  unfolding mark_sent
  send_allowed alarm_id event content (allowed, checked) =
      if not allowed
      then pure tt
      else (do attempt send_failed; mark_sent alarm_id event content checked)

  unfoldable pub send_content : String → String → Option String → Act V (Unit {0})
  unfolding should_send send_allowed
  send_content alarm_id event none = pure tt
  send_content alarm_id event (some content) = do
    answer ← should_send alarm_id event content
    send_allowed alarm_id event content answer

  unfoldable pub dispatch :
      String → Alarm V → Option (AlarmRule V) → Option Station → Act V (Unit {0})
  unfolding send_content build_template_data
  dispatch event a rule station =
      let url = options.report_url a rule station in
      let fields = build_template_data platform event a rule station url in
      ignore (send_content a.id event (texts.render fields))

  unfoldable pub lookup : Alarm V → Act V (Option (AlarmRule V) × Option Station)
  unfolding get_rule get_station
  lookup a = do
    rule ← caught (get_rule a.tenant_id a.rule_id)
    station ← (if options.has_stations then caught (get_station a.station_id) else pure (ok none))
    pure (found rule, found station)

  abbrev pub is_severe : Option (AlarmRule V) → Bool
  is_severe none = false
  is_severe (some rule) = severity_at_least rule.severity "high"

  -- A timer replaces the one of the same alarm.
  unfoldable pub schedule_escalation : Alarm V → Option (AlarmRule V) → Act V (Unit {0})
  schedule_escalation a rule =
      if is_zero options.escalation || a.id == ""
      then pure tt
      else if not (is_severe rule)
      then pure tt
      else (do
        t ← now
        modify (λ d. record d {
          timers = (a.id, t + options.escalation) ∷ without_timer a.id d.timers;
        }))

  abbrev pub after_dispatch : Status → Alarm V → Option (AlarmRule V) → Act V (Unit {0})
  after_dispatch active a rule = schedule_escalation a rule
  after_dispatch cleared a rule = cancel_escalation a.id
  after_dispatch acknowledged a rule = pure tt

  unfoldable pub notify : AlarmEvent V → Act V (Unit {0})
  unfolding lookup dispatch schedule_escalation cancel_escalation
  notify event = do
    (rule, station) ← lookup event.alarm
    dispatch (status_label event.event_type) event.alarm rule station
    after_dispatch event.event_type event.alarm rule

  -- An alarm that is still open is announced again, if its rule is severe.
  unfoldable pub escalate : Option (Alarm V) → Act V (Unit {0})
  unfolding lookup dispatch
  escalate none = pure tt
  escalate (some a) = if status_eq a.status cleared then pure tt else (do
    (rule, station) ← lookup a
    if not (is_severe rule) then pure tt else dispatch "escalated" a rule station)

  -- A timer that fires.
  unfoldable pub run_escalation : String → Act V (Unit {0})
  unfolding escalate get_alarm
  run_escalation id = if id == "" then pure tt else (do
    modify (λ d. record d { timers = without_timer id d.timers })
    a ← caught (get_alarm id)
    escalate (found a))
