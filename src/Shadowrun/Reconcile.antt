-- ===== src/Shadowrun/Reconcile.antt =====
-- Loading what is compared: `reconcile` and the load functions of
-- backend/internal/shadowrun/application/reconcile.go. A query that fails while its rows are read
-- fails like one that fails at once.
use microgrid_cloud.Prelude.{
  ℕ, ◌*◌, String, List, [], ◌∷◌, Bool, ◌&&◌, Option, none, some, ◌==◌, if◌then◌else◌, eqb, leb, ltb,
  Float64, pos, negsuc, map, find_first, select, sort_by, hour_of,
}
use microgrid_cloud.Prelude.Sorting.{by_key}
use microgrid_cloud.Prelude.Exec.{
  Exec, Result, ok, err, pure, raise, caught, gets, attempt, ◌>>=◌, ◌>>◌,
}
use microgrid_cloud.Statements.Domain.{StatementAggregate}
use microgrid_cloud.Tariffs.Domain.{TariffPlan, TariffRule}
use microgrid_cloud.Tariffs.Provider.{plan_for, of_plan, covers}
use microgrid_cloud.Shadowrun.Domain.{
  StatisticRow, HourStat, DayStat, SettlementRow, ReconcileResult, ShadowDb, ShadowError, db_failed,
  plan_not_found,
}

abbrev pub Act : Type 0 → Type 0 → Type 0
Act V A = Exec (ShadowDb V) ShadowError A

-- A plan with its rules, in the order of their start.
abbrev pub Tariff : Type 0 → Type 0
Tariff V = TariffPlan × List (TariffRule V)

module _ {V : Type 0} where
  unfoldable pub rules_of : TariffPlan → List (TariffRule V) → List (TariffRule V)
  rules_of plan rules = sort_by (by_key (λ r. r.start_minute)) (select (of_plan plan.id) rules)

  unfoldable pub load_rules : Option TariffPlan → Act V (Tariff V)
  unfolding rules_of
  load_rules none = raise plan_not_found
  load_rules (some plan) = do
    attempt db_failed
    rules ← gets (λ d. rules_of plan d.tariffs.rules)
    pure (plan, rules)

  unfoldable pub load_tariff : String → String → ℕ → Act V (Tariff V)
  unfolding load_rules
  load_tariff tenant_id station_id month = do
    attempt db_failed
    plan ← gets (λ d. find_first (plan_for tenant_id station_id month) d.tariffs.plans)
    load_rules plan

  unfoldable pub match_rule : List (TariffRule V) → ℕ → Option (TariffRule V)
  match_rule rules minute = find_first (covers minute) rules

  abbrev pub statistic_in : String → String → ℕ → ℕ → StatisticRow V → Bool
  statistic_in station_id time_type from to r =
      r.subject_id == station_id
      && (r.time_type == time_type && (leb from r.period_start && ltb r.period_start to))

  unfoldable pub statistic_rows : String → String → ℕ → ℕ → ShadowDb V → List (StatisticRow V)
  statistic_rows station_id time_type from to d =
      sort_by (by_key (λ r. r.period_start))
        (select (statistic_in station_id time_type from to) d.statistics)

  unfoldable pub load_settlements : String → String → ℕ → ℕ → Act V (List (SettlementRow V))
  load_settlements tenant_id station_id from to = do
    attempt db_failed
    gets (λ d. sort_by (by_key (λ r. r.day_start)) (
        select
          (λ r.
            r.tenant_id == tenant_id
            && (r.station_id == station_id && (leb from r.day_start && ltb r.day_start to)))
          d.settlements))

  unfoldable pub load_statements : String → String → ℕ → Act V (List (StatementAggregate V))
  load_statements tenant_id station_id month = do
    attempt db_failed
    gets (λ d. sort_by (by_key (λ s. s.version)) (
        select
          (λ s.
            s.tenant_id == tenant_id && (s.station_id == station_id && eqb s.statement_month month))
          d.statements))

module _ {V : Type 0} ⦃f : Float64 V⦄ where
  unfoldable pub energy_of : StatisticRow V → V
  energy_of r = f.add r.charge_kwh r.discharge_kwh

  -- The part of the loop that prices an hour.
  unfoldable pub priced : TariffPlan → StatisticRow V → Option (TariffRule V) → HourStat V
  unfolding energy_of
  priced plan r none = record {
    row = r;
    energy_kwh = energy_of r;
    amount = f.nil;
    tariff_plan_id = plan.id;
    tariff_mode = plan.mode;
    tariff_rule_id = "";
    rule_start_minute = negsuc 0;
    rule_end_minute = negsuc 0;
    price_per_kwh = f.nil;
  }
  priced plan r (some rule) = record {
    row = r;
    energy_kwh = energy_of r;
    amount = f.mul (energy_of r) rule.price_per_kwh;
    tariff_plan_id = plan.id;
    tariff_mode = plan.mode;
    tariff_rule_id = rule.id;
    rule_start_minute = pos rule.start_minute;
    rule_end_minute = pos rule.end_minute;
    price_per_kwh = rule.price_per_kwh;
  }

  unfoldable pub hour_stat : Tariff V → StatisticRow V → HourStat V
  unfolding priced match_rule
  hour_stat (plan, rules) r = priced plan r (match_rule rules (hour_of r.period_start * 60))

  unfoldable pub load_hour_stats : String → ℕ → ℕ → Tariff V → Act V (List (HourStat V))
  unfolding hour_stat statistic_rows
  load_hour_stats station_id from to tariff = do
    attempt db_failed
    gets (λ d. map (hour_stat tariff) (statistic_rows station_id "HOUR" from to d))

  unfoldable pub load_day_stats : String → ℕ → ℕ → Act V (List (DayStat V))
  unfolding energy_of statistic_rows
  load_day_stats station_id from to = do
    attempt db_failed
    gets (λ d.
        map (λ r. record { row = r; energy_kwh = energy_of r })
          (statistic_rows station_id "DAY" from to d))

  -- A plan that cannot be loaded is replaced by the fixed price, if that is positive.
  unfoldable pub tariff_or : V → Result ShadowError (Tariff V) → Act V (Tariff V)
  tariff_or fallback_price (ok tariff) = pure tariff
  tariff_or fallback_price (err e) =
      if f.le fallback_price f.nil
      then raise e
      else pure (
        record {
          id = "fixed";
          tenant_id = "";
          station_id = "";
          effective_month = 0;
          currency = "CNY";
          mode = "fixed";
        },
        record {
          id = "fixed";
          plan_id = "";
          start_minute = 0;
          end_minute = 1440;
          price_per_kwh = fallback_price;
        }
            ∷ [],
      )

  unfoldable pub reconcile : String → String → ℕ → ℕ → V → Act V (ReconcileResult V)
  unfolding tariff_or
  reconcile tenant_id station_id month_start month_end fallback_price = do
    loaded ← caught (load_tariff tenant_id station_id month_start)
    tariff ← tariff_or fallback_price loaded
    hours ← load_hour_stats station_id month_start month_end tariff
    days ← load_day_stats station_id month_start month_end
    settlements ← load_settlements tenant_id station_id month_start month_end
    statements ← load_statements tenant_id station_id month_start
    pure (record { hours = hours; days = days; settlements = settlements; statements = statements })
