-- ===== src/Shadowrun/Tests.antt =====
-- The theorems on shadow runs at a month of two days.
use microgrid_cloud.Prelude.{
  ℕ, ◌+◌, [], ◌∷◌, true, false, ◌≡◌, refl, none, some, leb_ℤ, ℤ, pos, int_float, ◌+ℤ◌, ◌*ℤ◌,
  Float64, select, sort_by, find_first, any_where, get_elem?, arith,
}
use microgrid_cloud.Prelude.Platform.{Platform}
use microgrid_cloud.Prelude.TestPlatform.{test_platform}
use microgrid_cloud.Prelude.Exec.{calm, ok, err, ◌>>=◌}
use microgrid_cloud.Tariffs.Domain.{TariffPlan, TariffRule}
use microgrid_cloud.Tariffs.Provider.{price_at}
use microgrid_cloud.Shadowrun.Domain.{
  StatisticRow, HourStat, SettlementRow, ReconcileResult, Thresholds, ShadowDb, Job, succeeded,
  nil_job, Report, Numerals,
}
use microgrid_cloud.Shadowrun.Config.{Config}
use microgrid_cloud.Shadowrun.Reconcile.{
  load_tariff, load_rules, rules_of, tariff_or, load_hour_stats, load_day_stats, load_settlements,
  load_statements, statistic_rows, reconcile, hour_stat, energy_of, priced, match_rule,
}
use microgrid_cloud.Shadowrun.Diff.{end_date, diff_day, build_diff_summary}
use microgrid_cloud.Shadowrun.Days.{find_last, day_diffs_exact}
use microgrid_cloud.Shadowrun.Extremes.{IsStrictOrder, IsLargest, sum_missing, summary_extremes}
use microgrid_cloud.Shadowrun.Prices.{Agrees, price_at-eq-reconciled}
use microgrid_cloud.Shadowrun.Repository.{same_key}
use microgrid_cloud.Shadowrun.Steps.{validate_month, new_job, job_id_for}
use microgrid_cloud.Shadowrun.Runner.{run}
use microgrid_cloud.Shadowrun.Backed.{Backed, unreported, reported}
use microgrid_cloud.Shadowrun.Calls.{manual, scheduled, perform_all, perform_all-Backed}
use microgrid_cloud.Shadowrun.Answers.{succeeded_unanswered, taken_id_panics}

-- The month is the second and the third day.
abbrev platform : Platform
platform = record test_platform {
  month_start = λ t. 86400000000000;
  next_month = λ t. t + 172800000000000;
  format_seconds = λ t. "time";
  format_day = λ t. "day";
}

instance abbrev numerals : Numerals ℤ
numerals = record { is_nil = λ v. leb_ℤ v (pos 0); format_float = λ v. "v"; encodes = λ s. true }

instance abbrev floats : Float64 ℤ
floats = int_float

abbrev limits : Thresholds ℤ
limits = record {
  energy_abs = pos 1;
  energy_pct = pos 0;
  amount_abs = pos 1;
  amount_pct = pos 0;
  missing_hours = pos 1;
  late_data_count = pos 0;
}

abbrev config : Config ℤ
config = record {
  defaults = limits;
  stations = [];
  storage_root = "var";
  public_base_url = "url";
  fallback_price = pos 0;
}

-- One o'clock of the second day.
abbrev statistic : StatisticRow ℤ
statistic = record {
  subject_id = "s";
  time_type = "HOUR";
  time_key = "k";
  period_start = 90000000000000;
  statistic_id = "HOUR:k";
  is_completed = true;
  charge_kwh = pos 3;
  discharge_kwh = pos 4;
  earnings = pos 0;
  carbon_reduction = pos 0;
  created_at = 1;
  updated_at = 1;
}

abbrev settlement : SettlementRow ℤ
settlement = record {
  tenant_id = "t";
  station_id = "s";
  day_start = 86400000000000;
  energy_kwh = pos 9;
  amount = pos 18;
  currency = "CNY";
  status = "ok";
  version = 1;
  created_at = 1;
  updated_at = 1;
}

abbrev plan : TariffPlan
plan = record {
  id = "plan";
  tenant_id = "t";
  station_id = "s";
  effective_month = 86400000000000;
  currency = "CNY";
  mode = "tou";
}

abbrev night : TariffRule ℤ
night = record {
  id = "night";
  plan_id = "plan";
  start_minute = 0;
  end_minute = 360;
  price_per_kwh = pos 2;
}

abbrev priced_hour : HourStat ℤ
priced_hour = record {
  row = statistic;
  energy_kwh = pos 7;
  amount = pos 14;
  tariff_plan_id = "plan";
  tariff_mode = "tou";
  tariff_rule_id = "night";
  rule_start_minute = pos 0;
  rule_end_minute = pos 360;
  price_per_kwh = pos 2;
}

pricing_an_hour : hour_stat (plan, night ∷ []) statistic ≡ priced_hour
unfolding hour_stat priced match_rule energy_of find_first ◌+ℤ◌ ◌*ℤ◌
pricing_an_hour = refl

abbrev loaded : ReconcileResult ℤ
loaded = record {
  hours = priced_hour ∷ [];
  days = [];
  settlements = settlement ∷ [];
  statements = [];
}

int-IsStrictOrder : IsStrictOrder ℤ
int-IsStrictOrder = record { irrefl = λ a. ground arith; trans = λ a b c p q. ground arith }

-- A run that is asked for in the month, at a day after it.
abbrev asked : ℕ
asked = 864000000000000

summary_extremes_example :
    let s = build_diff_summary platform loaded 86400000000000 259200000000000 asked limits 5 in
    IsLargest (λ x. x.energy_diff) s.diff_energy_max s.day_diffs
    × IsLargest (λ x. x.amount_diff) s.diff_amount_max s.day_diffs
    × (s.missing_hours_total ≡ sum_missing s.day_diffs)
summary_extremes_example =
    summary_extremes int-IsStrictOrder platform loaded 86400000000000 259200000000000 asked limits 5

day_diffs_exact_example :
    get_elem?
      (build_diff_summary platform loaded 86400000000000 259200000000000 asked limits 5).day_diffs
      1
    ≡ some (diff_day 172800000000000 [] none)
unfolding end_date select find_last
day_diffs_exact_example =
    day_diffs_exact platform loaded 86400000000000 259200000000000 asked limits 5 1

abbrev done_job : Job
done_job = record {
  id = "sr-s-202601-day";
  tenant_id = "t";
  station_id = "s";
  month = 86400000000000;
  job_date = asked;
  job_type = "shadowrun";
  status = succeeded;
  attempts = 1;
  error = none;
  created_at = 1;
  updated_at = 2;
  started_at = 1;
  ended_at = 2;
}

abbrev old_report : Report ℤ
old_report = record {
  id = "report-sr-s-202601-day";
  job_id = "sr-s-202601-day";
  tenant_id = "t";
  station_id = "s";
  month = 86400000000000;
  report_date = asked;
  status = "generated";
  location = "var/report.zip";
  diff_summary =
      some (build_diff_summary platform loaded 86400000000000 259200000000000 asked limits 5);
  diff_energy_kwh_max = pos 2;
  diff_amount_max = pos 4;
  missing_hours = 47;
  recommended_action = "replay_missing_hours";
  created_at = 2;
}

abbrev tables : ShadowDb ℤ
tables = record {
  tariffs = record { plans = plan ∷ []; rules = night ∷ [] };
  statistics = statistic ∷ [];
  settlements = settlement ∷ [];
  statements = [];
  jobs = done_job ∷ [];
  reports = old_report ∷ [];
  alerts = [];
  files = [];
  sent = [];
}

abbrev ticks : ℕ → ℕ
ticks n = n

reconciling :
    reconcile "t" "s" 86400000000000 259200000000000 (pos 0) (calm tables ticks 0)
    ≡ (ok loaded, calm tables ticks 0)
unfolding reconcile load_tariff load_rules rules_of tariff_or load_hour_stats load_day_stats
    load_settlements load_statements statistic_rows hour_stat priced match_rule energy_of find_first
    select sort_by ◌+ℤ◌ ◌*ℤ◌ ◌>>=◌
reconciling = refl

price_at-eq-reconciled_example :
    Agrees
      (pos 0)
      priced_hour
      (price_at platform "t" "s" statistic.period_start (calm tables.tariffs ticks 0)).0
price_at-eq-reconciled_example =
    price_at-eq-reconciled platform "t" "s" 86400000000000 259200000000000 (pos 0) tables ticks 0
      loaded (calm tables ticks 0) [] [] priced_hour reconciling refl refl refl refl refl refl

perform_all-Backed_example :
    Backed
      (perform_all platform config true
        (manual "t" "s" 0 asked none ∷ scheduled "t" ("s" ∷ "" ∷ []) 950400000000000 ∷ [])
        (record (calm tables ticks 0) { outcomes = false ∷ false ∷ true ∷ [] })).db
unfolding any_where unreported reported
perform_all-Backed_example =
    perform_all-Backed platform config true
      (manual "t" "s" 0 asked none ∷ scheduled "t" ("s" ∷ "" ∷ []) 950400000000000 ∷ [])
      (record (calm tables ticks 0) { outcomes = false ∷ false ∷ true ∷ [] }) refl

-- The report is there, under the id that runs give it.
report_there : reported tables.reports "sr-s-202601-day" ≡ true
unfolding reported any_where
report_there = refl

succeeded_unanswered_example :
    run platform config true "t" "s" 0 asked none (calm tables ticks 0)
    ≡ (ok none, calm tables ticks 1)
unfolding validate_month find_first same_key new_job job_id_for any_where
succeeded_unanswered_example =
    succeeded_unanswered platform config true "t" "s" 0 asked none tables ticks 0 done_job refl refl
      refl refl refl

taken_id_panics_example :
    run platform config true "other" "s" 0 asked none (calm tables ticks 0)
    ≡ (err nil_job, calm tables ticks 1)
unfolding validate_month same_key new_job job_id_for any_where
taken_id_panics_example =
    taken_id_panics platform config true "other" "s" 0 asked none tables ticks 0 refl refl refl refl
