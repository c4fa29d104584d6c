-- ===== src/Shadowrun/Domain.antt =====
-- The rows that a shadow run compares, and what it keeps: the types of
-- backend/internal/shadowrun/application/reconcile.go, config.go, infrastructure/postgres/repository.go
-- and notify/notifier.go.
use microgrid_cloud.Prelude.{ℕ, String, List, Bool, true, false, ℤ, Option}
use microgrid_cloud.Statements.Domain.{StatementAggregate}
use microgrid_cloud.Tariffs.Domain.{TariffDb}

-- A row of analytics_statistics.
pub record StatisticRow (V : Type 0) : Type 0 where
  pub subject_id : String
  pub time_type : String
  pub time_key : String
  pub period_start : ℕ
  pub statistic_id : String
  pub is_completed : Bool
  pub charge_kwh : V
  pub discharge_kwh : V
  pub earnings : V
  pub carbon_reduction : V
  pub created_at : ℕ
  pub updated_at : ℕ

-- The row is the part of the struct that is scanned; the rule's minutes are -1 where no rule fits.
pub record HourStat (V : Type 0) : Type 0 where
  pub row : StatisticRow V
  pub energy_kwh : V
  pub amount : V
  pub tariff_plan_id : String
  pub tariff_mode : String
  pub tariff_rule_id : String
  pub rule_start_minute : ℤ
  pub rule_end_minute : ℤ
  pub price_per_kwh : V

pub record DayStat (V : Type 0) : Type 0 where
  pub row : StatisticRow V
  pub energy_kwh : V

-- A row of settlements_day.
pub record SettlementRow (V : Type 0) : Type 0 where
  pub tenant_id : String
  pub station_id : String
  pub day_start : ℕ
  pub energy_kwh : V
  pub amount : V
  pub currency : String
  pub status : String
  pub version : ℕ
  pub created_at : ℕ
  pub updated_at : ℕ

pub record ReconcileResult (V : Type 0) : Type 0 where
  pub hours : List (HourStat V)
  pub days : List (DayStat V)
  pub settlements : List (SettlementRow V)
  pub statements : List (StatementAggregate V)

pub record Thresholds (V : Type 0) : Type 0 where
  pub energy_abs : V
  pub energy_pct : V
  pub amount_abs : V
  pub amount_pct : V
  pub missing_hours : ℤ
  pub late_data_count : ℤ

pub record DiffDay (V : Type 0) : Type 0 where
  pub day_start : ℕ
  pub energy_hour : V
  pub energy_settle : V
  pub energy_diff : V
  pub amount_hour : V
  pub amount_settle : V
  pub amount_diff : V
  pub missing_hours : ℕ

pub record DiffSummary (V : Type 0) : Type 0 where
  pub month : String
  pub station_id : String
  pub diff_energy_max : V
  pub diff_amount_max : V
  pub missing_hours_total : ℕ
  pub late_data_count : ℕ
  pub generated_at : String
  pub day_diffs : List (DiffDay V)
  pub thresholds : Thresholds V

-- "created", "running", "succeeded" and "failed".
pub data JobStatus : Type 0 where
  created running succeeded failed : JobStatus

pub data ShadowError : Type 0 where
  db_failed plan_not_found invalid_month_range ids_required : ShadowError
  already_running io_failed report_exists alert_exists notify_failed : ShadowError
  -- The job is nil where the code reads its status: a panic.
  nil_job : ShadowError

abbrev pub panics : ShadowError → Bool
panics nil_job = true
panics _ = false

-- An absent time is zero.
pub record Job : Type 0 where
  pub id : String
  pub tenant_id : String
  pub station_id : String
  pub month : ℕ
  pub job_date : ℕ
  pub job_type : String
  pub status : JobStatus
  pub attempts : ℕ
  pub error : Option ShadowError
  pub created_at : ℕ
  pub updated_at : ℕ
  pub started_at : ℕ
  pub ended_at : ℕ

-- The summary stands here as it is before it is JSON; it is absent where it cannot be encoded.
pub record Report (V : Type 0) : Type 0 where
  pub id : String
  pub job_id : String
  pub tenant_id : String
  pub station_id : String
  pub month : ℕ
  pub report_date : ℕ
  pub status : String
  pub location : String
  pub diff_summary : Option (DiffSummary V)
  pub diff_energy_kwh_max : V
  pub diff_amount_max : V
  pub missing_hours : ℕ
  pub recommended_action : String
  pub created_at : ℕ

-- The payload of an alert, before it is JSON.
pub record AlertPayload (V : Type 0) : Type 0 where
  pub diff_energy_max : V
  pub diff_amount_max : V
  pub missing_hours : ℕ
  pub late_data_count : ℕ
  pub recommended_action : String

pub record ShadowrunAlert (V : Type 0) : Type 0 where
  pub id : String
  pub tenant_id : String
  pub station_id : String
  pub category : String
  pub severity : String
  pub title : String
  pub message : String
  pub payload : AlertPayload V
  pub report_id : String
  pub status : String
  pub created_at : ℕ

pub record AlertMessage (V : Type 0) : Type 0 where
  pub tenant_id : String
  pub station_id : String
  pub month : String
  pub report_id : String
  pub report_url : String
  pub diff_summary : AlertPayload V
  pub recommended_action : String
  pub job_id : String

-- The files of a report: tables of texts, the summary, and the archive with the names in it.
pub data Content (V : Type 0) : Type 0 where
  csv : List (List String) → Content V
  summary : Option (DiffSummary V) → Content V
  archive : List String → Content V

pub record ReportFile (V : Type 0) : Type 0 where
  pub dir : String
  pub name : String
  pub content : Content V

-- The tables, the file system, and the messages that were sent.
pub record ShadowDb (V : Type 0) : Type 0 where
  pub tariffs : TariffDb V
  pub statistics : List (StatisticRow V)
  pub settlements : List (SettlementRow V)
  pub statements : List (StatementAggregate V)
  pub jobs : List Job
  pub reports : List (Report V)
  pub alerts : List (ShadowrunAlert V)
  pub files : List (ReportFile V)
  pub sent : List (AlertMessage V)

-- What the code uses of float64 beside `Float64`: the test for zero, `strconv.FormatFloat`, and
-- whether encoding/json takes a summary, of which no number may be NaN or infinite.
pub record Numerals (V : Type 0) : Type 0 where
  pub is_nil : V → Bool
  pub format_float : V → String
  pub encodes : DiffSummary V → Bool
