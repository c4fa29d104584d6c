-- ===== src/Notices/Message.antt =====
-- The text of a notification: buildTemplateData and the functions on severities and labels of
-- backend/internal/alarms/notify/notifier.go.
use microgrid_cloud.Prelude.{
  ℕ, String, ◌+++◌, Bool, ◌&&◌, not, Option, none, some, ◌==◌, if◌then◌else◌, is_zero, leb,
}
use microgrid_cloud.Prelude.Platform.{Platform}
use microgrid_cloud.Alarms.Domain.{
  Status, active, acknowledged, cleared, Operator, greater, greater_or_equal, less, less_or_equal,
  other, AlarmRule, Alarm,
}
use microgrid_cloud.Notices.Domain.{Station, TemplateData, Texts, Decimals}

abbrev pub status_label : Status → String
status_label active = "active"
status_label acknowledged = "acknowledged"
status_label cleared = "cleared"

unfoldable pub event_label : String → String
event_label event =
    if event == "active"
    then "Triggered"
    else if event == "acknowledged"
    then "Acknowledged"
    else if event == "cleared"
    then "Cleared"
    else if event == "escalated"
    then "Escalated"
    else event

abbrev pub operator_text : Operator → String
operator_text greater = ">"
operator_text greater_or_equal = ">="
operator_text less = "<"
operator_text less_or_equal = "<="
operator_text (other s) = s

-- `station.Name`, where there is one.
abbrev pub station_name : String → Option Station → String
station_name id none = id
station_name id (some s) = if s.name == "" then id else s.name

module _ {V : Type 0} where
  abbrev pub rule_name : String → Option (AlarmRule V) → String
  rule_name id none = id
  rule_name id (some rule) = if rule.name == "" then id else rule.name

  abbrev pub severity_of : Option (AlarmRule V) → String
  severity_of none = ""
  severity_of (some rule) = rule.severity

module _ ⦃texts : Texts⦄ where
  unfoldable pub severity_rank : String → ℕ
  severity_rank value =
      let s = texts.trim_space (texts.to_lower value) in
      if s == "critical"
      then 4
      else if s == "high"
      then 3
      else if s == "medium"
      then 2
      else if s == "low"
      then 1
      else 0

  unfoldable pub severity_at_least : String → String → Bool
  unfolding severity_rank
  severity_at_least value target = leb (severity_rank target) (severity_rank value)

module _ {V : Type 0} ⦃texts : Texts⦄ where
  unfoldable pub suggestion_for : Option (AlarmRule V) → String
  suggestion_for none = "Inspect the station and confirm the alarm condition."
  suggestion_for (some rule) =
      let s = texts.trim_space (texts.to_lower rule.severity) in
      if s == "critical"
      then "Investigate immediately and mitigate risk."
      else if s == "high"
      then "Investigate immediately and mitigate risk."
      else if s == "medium"
      then "Verify the condition and take action if needed."
      else "Monitor the alarm condition."

module _ {V : Type 0} ⦃texts : Texts⦄ ⦃decimals : Decimals V⦄ where
  unfoldable pub threshold_text : Option (AlarmRule V) → String
  threshold_text none = ""
  threshold_text (some rule) =
      let operator = operator_text rule.operator in
      let threshold = decimals.format_float rule.threshold in
      if not (operator == "") && not (threshold == "")
      then operator +++ " " +++ threshold
      else threshold

  unfoldable pub build_template_data :
      Platform → String → Alarm V → Option (AlarmRule V) → Option Station → String → TemplateData
  unfolding suggestion_for threshold_text event_label
  build_template_data platform event a rule station report_url = record {
    station = station_name a.station_id station;
    station_id = a.station_id;
    rule = rule_name a.rule_id rule;
    rule_id = a.rule_id;
    trigger_value = decimals.format_float a.last_value;
    threshold = threshold_text rule;
    start_time = platform.format_seconds (if is_zero a.start_at then a.created_at else a.start_at);
    status = status_label a.status;
    status_code = status_label a.status;
    severity = severity_of rule;
    suggestion = suggestion_for rule;
    report_url = report_url;
    event = event;
    event_label = event_label event;
  }
