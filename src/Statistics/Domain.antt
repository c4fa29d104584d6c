-- ===== src/Statistics/Domain.antt =====
-- Statistic aggregates: backend/internal/analytics/domain/statistic/aggregate.go and time.go, and the
-- identities of daily_rollup_service.go.
use microgrid_cloud.Prelude.{
  ℕ, String, ◌+++◌, Bool, true, false, ◌||◌, ◌==◌, if◌then◌else◌, is_zero, Float64,
}
use microgrid_cloud.Prelude.Platform.{Platform}
use microgrid_cloud.Prelude.Exec.{Result, ok, err}

-- "HOUR", "DAY", "MONTH" and "YEAR"; `invalid` stands for every other text.
pub data Granularity : Type 0 where
  hour day month year : Granularity
  invalid : String → Granularity

pub data StatisticError : Type 0 where
  empty_id invalid_granularity invalid_period_start invalid_completed_at : StatisticError
  already_completed negative_fact_value statistic_not_found repository_failed : StatisticError
  day_already_completed hours_not_completed incomplete_hours : StatisticError
  subject_mismatch empty_subject_id invalid_window duplicate_statistic : StatisticError

abbrev pub is_valid : Granularity → Bool
is_valid (invalid s) = false
is_valid _ = true

pub record StatisticFact (V : Type 0) : Type 0 where
  pub charge_kwh : V
  pub discharge_kwh : V
  pub earnings : V
  pub carbon_reduction : V

pub record StatisticAggregate (V : Type 0) : Type 0 where
  pub id : String
  pub granularity : Granularity
  pub period_start : ℕ
  pub fact : StatisticFact V
  pub completed : Bool
  pub completed_at : ℕ

-- `BuildStatisticID`, with `timeKeyLayout`.
unfoldable pub build_statistic_id : Platform → Granularity → ℕ → Result StatisticError String
build_statistic_id platform (invalid s) start = err invalid_granularity
build_statistic_id platform hour start =
    if is_zero start then err invalid_period_start else ok ("HOUR:" +++ platform.format_hour start)
build_statistic_id platform day start =
    if is_zero start then err invalid_period_start else ok ("DAY:" +++ platform.format_day start)
build_statistic_id platform month start =
    if is_zero start
    then err invalid_period_start
    else ok ("MONTH:" +++ platform.format_month_compact start)
build_statistic_id platform year start =
    if is_zero start then err invalid_period_start else ok ("YEAR:" +++ platform.format_year start)

module _ {V : Type 0} ⦃f : Float64 V⦄ where
  unfoldable pub has_negative : StatisticFact V → Bool
  has_negative x =
      f.lt x.charge_kwh f.nil
      || (f.lt x.discharge_kwh f.nil || (f.lt x.earnings f.nil || f.lt x.carbon_reduction f.nil))

  abbrev pub no_fact : StatisticFact V
  no_fact = record {
    charge_kwh = f.nil;
    discharge_kwh = f.nil;
    earnings = f.nil;
    carbon_reduction = f.nil;
  }

  unfoldable pub new_statistic_aggregate :
      String → Granularity → ℕ → Result StatisticError (StatisticAggregate V)
  new_statistic_aggregate id granularity start =
      if id == ""
      then err empty_id
      else if is_valid granularity
      then (if is_zero start
          then err invalid_period_start
          else ok (record {
            id = id;
            granularity = granularity;
            period_start = start;
            fact = no_fact;
            completed = false;
            completed_at = 0;
          }))
      else err invalid_granularity

  unfoldable pub complete :
      StatisticFact V → ℕ → StatisticAggregate V → Result StatisticError (StatisticAggregate V)
  unfolding has_negative
  complete x at a =
      if a.completed
      then err already_completed
      else if is_zero at
      then err invalid_completed_at
      else if has_negative x
      then err negative_fact_value
      else ok (record a { fact = x; completed = true; completed_at = at })
