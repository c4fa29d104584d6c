-- ===== src/Shadowrun/Reports.antt =====
-- The files of a report: the write functions of
-- backend/internal/shadowrun/application/reconcile.go. A file is its table of texts; quoting them is
-- encoding/csv's. Creating and writing a file may fail, and then it holds nothing that is read here.
use microgrid_cloud.Prelude.{
  ℕ, String, ◌+++◌, List, [], ◌∷◌, ◌++◌, Bool, true, false, ◌&&◌, ◌==◌, if◌then◌else◌, is_zero, ℤ,
  pos, negsuc, map, select, any_where, Option, none, some,
}
use microgrid_cloud.Prelude.Platform.{Platform}
use microgrid_cloud.Prelude.Exec.{pure, raise, gets, modify, attempt, ◌>>=◌, ◌>>◌}
use microgrid_cloud.Statements.Domain.{StatementAggregate, StatementStatus, draft, frozen, voided}
use microgrid_cloud.Shadowrun.Domain.{
  HourStat, DayStat, SettlementRow, ReconcileResult, DiffSummary, Content, csv, summary, archive,
  ReportFile, io_failed, Numerals,
}
use microgrid_cloud.Shadowrun.Reconcile.{Act}

abbrev pub format_bool : Bool → String
format_bool true = "true"
format_bool false = "false"

abbrev pub status_text : StatementStatus → String
status_text draft = "draft"
status_text frozen = "frozen"
status_text voided = "voided"

abbrev pub hour_header : List String
hour_header =
    "subject_id" ∷ "time_type" ∷ "time_key" ∷ "period_start" ∷ "statistic_id" ∷ "is_completed"
    ∷ "charge_kwh" ∷ "discharge_kwh" ∷ "energy_kwh" ∷ "earnings" ∷ "carbon_reduction"
    ∷ "tariff_plan_id" ∷ "tariff_mode" ∷ "tariff_rule_id" ∷ "rule_start_minute" ∷ "rule_end_minute"
    ∷ "price_per_kwh" ∷ "amount" ∷ "created_at" ∷ "updated_at" ∷ []

abbrev pub day_header : List String
day_header =
    "subject_id" ∷ "time_type" ∷ "time_key" ∷ "period_start" ∷ "statistic_id" ∷ "is_completed"
    ∷ "charge_kwh" ∷ "discharge_kwh" ∷ "energy_kwh" ∷ "earnings" ∷ "carbon_reduction" ∷ "created_at"
    ∷ "updated_at" ∷ []

abbrev pub settlement_header : List String
settlement_header =
    "tenant_id" ∷ "station_id" ∷ "day_start" ∷ "energy_kwh" ∷ "amount" ∷ "currency" ∷ "status"
    ∷ "version" ∷ "created_at" ∷ "updated_at" ∷ []

abbrev pub statement_header : List String
statement_header =
    "id" ∷ "tenant_id" ∷ "station_id" ∷ "statement_month" ∷ "category" ∷ "status" ∷ "version"
    ∷ "total_energy_kwh" ∷ "total_amount" ∷ "currency" ∷ "snapshot_hash" ∷ "void_reason"
    ∷ "created_at" ∷ "updated_at" ∷ "frozen_at" ∷ "voided_at" ∷ []

module _ (platform : Platform) where
  unfoldable pub format_time : ℕ → String
  format_time t = if is_zero t then "" else platform.format_seconds t

  unfoldable pub format_month_date : ℕ → String
  format_month_date t = if is_zero t then "" else platform.format_date t

  unfoldable pub format_optional_int : ℤ → String
  format_optional_int (pos n) = platform.itoa n
  format_optional_int (negsuc n) = ""

  module _ {V : Type 0} ⦃n : Numerals V⦄ where
    unfoldable pub hour_fields : HourStat V → List String
    unfolding format_time format_optional_int
    hour_fields h =
        h.row.subject_id
        ∷ h.row.time_type
        ∷ h.row.time_key
        ∷ format_time h.row.period_start
        ∷ h.row.statistic_id
        ∷ format_bool h.row.is_completed
        ∷ n.format_float h.row.charge_kwh
        ∷ n.format_float h.row.discharge_kwh
        ∷ n.format_float h.energy_kwh
        ∷ n.format_float h.row.earnings
        ∷ n.format_float h.row.carbon_reduction
        ∷ h.tariff_plan_id
        ∷ h.tariff_mode
        ∷ h.tariff_rule_id
        ∷ format_optional_int h.rule_start_minute
        ∷ format_optional_int h.rule_end_minute
        ∷ n.format_float h.price_per_kwh
        ∷ n.format_float h.amount
        ∷ format_time h.row.created_at
        ∷ format_time h.row.updated_at
        ∷ []

    unfoldable pub day_fields : DayStat V → List String
    unfolding format_time
    day_fields d =
        d.row.subject_id
        ∷ d.row.time_type
        ∷ d.row.time_key
        ∷ format_time d.row.period_start
        ∷ d.row.statistic_id
        ∷ format_bool d.row.is_completed
        ∷ n.format_float d.row.charge_kwh
        ∷ n.format_float d.row.discharge_kwh
        ∷ n.format_float d.energy_kwh
        ∷ n.format_float d.row.earnings
        ∷ n.format_float d.row.carbon_reduction
        ∷ format_time d.row.created_at
        ∷ format_time d.row.updated_at
        ∷ []

    unfoldable pub settlement_fields : SettlementRow V → List String
    unfolding format_time
    settlement_fields s =
        s.tenant_id
        ∷ s.station_id
        ∷ format_time s.day_start
        ∷ n.format_float s.energy_kwh
        ∷ n.format_float s.amount
        ∷ s.currency
        ∷ s.status
        ∷ platform.itoa s.version
        ∷ format_time s.created_at
        ∷ format_time s.updated_at
        ∷ []

    -- A time of freezing or voiding is nil where it is zero.
    unfoldable pub statement_fields : StatementAggregate V → List String
    unfolding format_time format_month_date
    statement_fields s =
        s.id
        ∷ s.tenant_id
        ∷ s.station_id
        ∷ format_month_date s.statement_month
        ∷ s.category
        ∷ status_text s.status
        ∷ platform.itoa s.version
        ∷ n.format_float s.total_energy_kwh
        ∷ n.format_float s.total_amount
        ∷ s.currency
        ∷ s.snapshot_hash
        ∷ s.void_reason
        ∷ format_time s.created_at
        ∷ format_time s.updated_at
        ∷ format_time s.frozen_at
        ∷ format_time s.voided_at
        ∷ []

abbrev pub entries : List String
entries =
    "hour_stats.csv" ∷ "day_stats.csv" ∷ "settlements_day.csv" ∷ "statement_summary.csv"
    ∷ "diff_summary.json" ∷ []

module _ {V : Type 0} where
  abbrev pub is_file : String → String → ReportFile V → Bool
  is_file dir name f = f.dir == dir && f.name == name

  -- `os.Create` truncates a file that is there.
  unfoldable pub write_file : String → String → Content V → Act V (Unit {0})
  write_file dir name content = do
    attempt io_failed
    modify (λ d. record d {
      files =
          select (λ f. if is_file dir name f then false else true) d.files
          ++ record { dir = dir; name = name; content = content } ∷ [];
    })

  -- The files that are there go into the archive.
  unfoldable pub write_archive : String → Act V String
  unfolding write_file
  write_archive dir = do
    present ← gets (λ d. select (λ name. any_where (is_file dir name) d.files) entries)
    write_file dir "report.zip" (archive present)
    pure (dir +++ "/report.zip")

-- The JSON of a summary.
unfoldable pub encoded : {V : Type 0} → ⦃n : Numerals V⦄ → DiffSummary V → Option (DiffSummary V)
encoded ⦃n⦄ s = if n.encodes s then some s else none

module _ {V : Type 0} ⦃n : Numerals V⦄ where
  -- The file is created before the summary is encoded: it stays empty where that fails.
  unfoldable pub write_summary_json : String → DiffSummary V → Act V (Unit {0})
  unfolding write_file encoded
  write_summary_json dir s = do
    write_file dir "diff_summary.json" (summary (encoded s))
    if n.encodes s then pure tt else raise io_failed

module _ {V : Type 0} ⦃n : Numerals V⦄ (platform : Platform) where
  unfoldable pub write_reports : String → ReconcileResult V → Act V (Unit {0})
  unfolding write_file hour_fields day_fields settlement_fields statement_fields
  write_reports dir r = do
    attempt io_failed
    write_file dir "hour_stats.csv" (csv (hour_header ∷ map (hour_fields platform) r.hours))
    write_file dir "day_stats.csv" (csv (day_header ∷ map (day_fields platform) r.days))
    write_file dir "settlements_day.csv"
        (csv (settlement_header ∷ map (settlement_fields platform) r.settlements))
    write_file dir "statement_summary.csv"
        (csv (statement_header ∷ map (statement_fields platform) r.statements))
