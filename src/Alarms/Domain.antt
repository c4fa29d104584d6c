-- ===== src/Alarms/Domain.antt =====
-- Alarms, rules and pending rule states: backend/internal/alarms/domain, and the events and rows
-- that the alarm service reads (telemetry/application/events, masterdata/domain).
use microgrid_cloud.Prelude.{
  ℕ, String, List, Bool, true, false, Option, none, some, ◌==◌, if◌then◌else◌, Float64,
}

-- `alarm.go` spells the statuses "active", "acknowledged" and "cleared".
pub data Status : Type 0 where
  active acknowledged cleared : Status

pub Status-discrete : Discrete Status
Status-discrete = hlevel

pub data OriginatorType : Type 0 where
  station device : OriginatorType

-- An operator is any text of the rules table; `other` stands for the ones that are not supported.
pub data Operator : Type 0 where
  greater greater_or_equal less less_or_equal : Operator
  other : String → Operator

unfoldable pub valid : Operator → Bool
valid greater = true
valid greater_or_equal = true
valid less = true
valid less_or_equal = true
valid (other s) = false

pub record AlarmRule (V : Type 0) : Type 0 where
  pub id : String
  pub tenant_id : String
  pub station_id : String
  pub name : String
  pub semantic : String
  pub operator : Operator
  pub threshold : V
  pub hysteresis : V
  pub duration_seconds : ℕ  -- an int; a negative one acts as 0, since the code tests `> 0`
  pub severity : String
  pub enabled : Bool
  pub created_at : ℕ
  pub updated_at : ℕ

pub data RuleError : Type 0 where
  empty_id empty_tenant_id empty_station_id empty_name empty_semantic invalid_operator : RuleError

-- `none` is a nil error.
unfoldable pub validate : {V : Type 0} → AlarmRule V → Option RuleError
unfolding valid
validate r =
    if r.id == ""
    then some empty_id
    else if r.tenant_id == ""
    then some empty_tenant_id
    else if r.station_id == ""
    then some empty_station_id
    else if r.name == ""
    then some empty_name
    else if r.semantic == ""
    then some empty_semantic
    else if valid r.operator
    then none
    else some invalid_operator

-- The zero time stands for a missing one, as in Go.
pub record Alarm (V : Type 0) : Type 0 where
  pub id : String
  pub tenant_id : String
  pub station_id : String
  pub originator_type : OriginatorType
  pub originator_id : String
  pub rule_id : String
  pub status : Status
  pub start_at : ℕ
  pub end_at : ℕ
  pub last_value : V
  pub acked_at : ℕ
  pub cleared_at : ℕ
  pub created_at : ℕ
  pub updated_at : ℕ

pub record AlarmRuleState (V : Type 0) : Type 0 where
  pub tenant_id : String
  pub station_id : String
  pub rule_id : String
  pub originator_type : OriginatorType
  pub originator_id : String
  pub pending_since : ℕ
  pub last_value : V
  pub updated_at : ℕ

pub record TelemetryPoint (V : Type 0) : Type 0 where
  pub point_key : String
  pub value : V
  pub quality : String
  pub ts : ℕ

pub record TelemetryReceived (V : Type 0) : Type 0 where
  pub event_id : String
  pub tenant_id : String
  pub station_id : String
  pub device_id : String
  pub points : List (TelemetryPoint V)
  pub occurred_at : ℕ

pub record PointMapping (V : Type 0) : Type 0 where
  pub id : String
  pub station_id : String
  pub device_id : String
  pub point_key : String
  pub semantic : String
  pub unit : String
  pub factor : V
  pub created_at : ℕ
  pub updated_at : ℕ

-- The `Type` of an alarm event: "active", "acknowledged" or "cleared".
pub record AlarmEvent (V : Type 0) : Type 0 where
  pub event_type : Status
  pub alarm : Alarm V

-- `shouldTrigger` and `shouldClear` of the service.
module _ {V : Type 0} ⦃f : Float64 V⦄ where
  trigger_by : Operator → V → V → Bool
  trigger_by greater threshold value = f.lt threshold value
  trigger_by greater_or_equal threshold value = f.le threshold value
  trigger_by less threshold value = f.lt value threshold
  trigger_by less_or_equal threshold value = f.le value threshold
  trigger_by (other s) threshold value = false

  unfoldable pub should_trigger : AlarmRule V → V → Bool
  unfolding trigger_by
  should_trigger rule value = trigger_by rule.operator rule.threshold value

  clear_by : Operator → V → V → V → Bool
  clear_by greater threshold h value = f.le value (f.sub threshold h)
  clear_by greater_or_equal threshold h value = f.le value (f.sub threshold h)
  clear_by less threshold h value = f.le (f.add threshold h) value
  clear_by less_or_equal threshold h value = f.le (f.add threshold h) value
  clear_by (other s) threshold h value = false

  -- A negative hysteresis counts as none.
  unfoldable pub effective_hysteresis : V → V
  effective_hysteresis h = if f.lt h f.nil then f.nil else h

  unfoldable pub should_clear : AlarmRule V → V → Bool
  unfolding clear_by effective_hysteresis
  should_clear rule value =
      clear_by rule.operator rule.threshold (effective_hysteresis rule.hysteresis) value
