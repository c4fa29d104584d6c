-- ===== src/Strategy/Domain.antt =====
-- Strategies of stations: backend/internal/strategy/domain, the readings and parameters that a
-- decision is made on, and the tables. Another component's tables stand beside them: the device
-- commands, which the engine issues.
use microgrid_cloud.Prelude.{ℕ, String, List, Bool, Option}
use microgrid_cloud.Alarms.Domain.{PointMapping}
use microgrid_cloud.Commands.Domain.{CommandDb, CommandError}

-- "auto" and "manual".
abbrev pub mode_auto : String
mode_auto = "auto"

abbrev pub mode_manual : String
mode_manual = "manual"

pub record Strategy : Type 0 where
  pub station_id : String
  pub mode : String
  pub enabled : Bool
  pub template_id : String
  pub version : ℕ
  pub created_at : ℕ
  pub updated_at : ℕ

-- `params` is the text of a JSON object.
pub record Template : Type 0 where
  pub id : String
  pub type : String
  pub params : String
  pub created_at : ℕ
  pub updated_at : ℕ

-- The start and the end of the window are read for their hour and minute only.
pub record Calendar : Type 0 where
  pub strategy_id : String
  pub date : ℕ
  pub enabled : Bool
  pub start_time : ℕ
  pub end_time : ℕ
  pub created_at : ℕ
  pub updated_at : ℕ

-- "issued", "no_action", "skipped" and "error".
pub data RunStatus : Type 0 where
  issued no_action skipped error : RunStatus

pub data StrategyError : Type 0 where
  db_failed unknown_strategy unknown_template : StrategyError
  station_id_required invalid_mode : StrategyError
  template_not_found invalid_arguments no_mappings no_telemetry_points : StrategyError
  missing_device_id : StrategyError
  command_failed : CommandError → StrategyError

-- What `LatestSemantic` returns.
pub record LatestValue (V : Type 0) : Type 0 where
  pub value : V
  pub timestamp : ℕ
  pub points : List String

pub record AntiBackflowParams (V : Type 0) : Type 0 where
  pub threshold_kw : V
  pub min_kw : V
  pub max_kw : V
  pub device_id : String
  pub command_type : String

-- The object that the engine writes down as its decision, before it is JSON. An absent key is `none`.
pub record Decision (V : Type 0) : Type 0 where
  pub station_id : String
  pub template_id : String
  pub latest : LatestValue V
  pub params : AntiBackflowParams V
  pub mode : String
  pub error : Option StrategyError
  pub target_kw : Option V
  pub command_id : Option String

-- What stands in the column `decision`: a decision, or the error of an evaluation.
pub data Outcome (V : Type 0) : Type 0 where
  decided : Decision V → Outcome V
  broken : StrategyError → Outcome V

pub record Run (V : Type 0) : Type 0 where
  pub strategy_id : String
  pub ts : ℕ
  pub decision : Outcome V
  pub command_id : String
  pub status : RunStatus
  pub created_at : ℕ

-- A row of telemetry_points; `none` is NULL.
pub record Point (V : Type 0) : Type 0 where
  pub tenant_id : String
  pub station_id : String
  pub device_id : String
  pub point_key : String
  pub ts : ℕ
  pub value_numeric : Option V

pub record StrategyDb (V : Type 0) : Type 0 where
  pub strategies : List Strategy
  pub templates : List Template
  pub calendars : List Calendar
  pub runs : List (Run V)
  pub mappings : List (PointMapping V)
  pub points : List (Point V)
  pub commands : CommandDb

-- What the engine uses of float64 beside `Float64`, and of encoding/json for its two formats.
-- `round_milli x` is `math.Round(x*1000) / 1000`, `format_milli` the verb %.3f, and
-- `power_payload x` the object with `x` under "pcs_target_power_kw", or the empty text where x is
-- not finite. `decode` gives the fields of a document, those that it does not have being zero.
pub record Numbers (V : Type 0) : Type 0 where
  pub is_nil : V → Bool
  pub one : V
  pub default_max : V
  pub round_milli : V → V
  pub format_milli : V → String
  pub power_payload : V → String
  pub decode : String → AntiBackflowParams V
