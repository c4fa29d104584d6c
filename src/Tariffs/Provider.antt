-- ===== src/Tariffs/Provider.antt =====
-- The price of energy: backend/internal/settlement/infrastructure/pricing, tariff_provider.go and
-- fixed_price.go. Where a query has no order, the table's order stands for the database's choice.
use microgrid_cloud.Prelude.{
  ℕ, ◌+◌, ◌*◌, String, Bool, not, ◌&&◌, ◌||◌, Option, none, some, ◌==◌, if◌then◌else◌, eqb, leb,
  ltb, is_zero, Float64, find_first, select, sort_by, hour_of, minute_of,
}
use microgrid_cloud.Prelude.Platform.{Platform}
use microgrid_cloud.Prelude.Sorting.{first, by_key}
use microgrid_cloud.Prelude.Exec.{
  Exec, Result, ok, err, pure, raise, gets, attempt, guard, ◌>>=◌, ◌>>◌,
}
use microgrid_cloud.Tariffs.Domain.{
  TariffPlan, TariffRule, TariffDb, TariffError, db_failed, empty_tenant_id, empty_station_id,
  invalid_timestamp, plan_not_found, rule_not_found, unknown_mode, negative_price,
}

abbrev pub Act : Type 0 → Type 0 → Type 0
Act V A = Exec (TariffDb V) TariffError A

abbrev pub plan_for : String → String → ℕ → TariffPlan → Bool
plan_for tenant_id station_id month p =
    p.tenant_id == tenant_id && (p.station_id == station_id && eqb p.effective_month month)

module _ {A : Type 0} where
  -- `sql.ErrNoRows` as an error of the provider.
  unfoldable pub row_or : {V : Type 0} → TariffError → Option A → Act V A
  row_or e none = raise e
  row_or e (some a) = pure a

abbrev pub known_mode : String → Bool
known_mode mode = mode == "fixed" || mode == "tou"

module _ {V : Type 0} where
  abbrev pub of_plan : String → TariffRule V → Bool
  of_plan id r = r.plan_id == id

  abbrev pub covers : ℕ → TariffRule V → Bool
  covers minute r = leb r.start_minute minute && ltb minute r.end_minute

  unfoldable pub load_plan : String → String → ℕ → Act V TariffPlan
  unfolding row_or
  load_plan tenant_id station_id month = do
    attempt db_failed
    plan ← gets (λ d. find_first (plan_for tenant_id station_id month) d.plans)
    row_or plan_not_found plan

  -- `WHERE plan_id = $1 AND start_minute <= $2 AND end_minute > $2 ORDER BY start_minute LIMIT 1`.
  unfoldable pub load_rule_price : String → ℕ → Act V V
  unfolding row_or
  load_rule_price plan_id minute = do
    attempt db_failed
    rule ← gets (λ d. first (
        sort_by (by_key (λ r. r.start_minute))
          (select (λ r. of_plan plan_id r && covers minute r) d.rules)))
    r ← row_or rule_not_found rule
    pure r.price_per_kwh

  -- `tenant_id` is the provider's.
  unfoldable pub price_at : Platform → String → String → ℕ → Act V V
  unfolding load_plan load_rule_price
  price_at platform tenant_id station_id at = do
    guard (not (tenant_id == "")) empty_tenant_id
    guard (not (station_id == "")) empty_station_id
    guard (not (is_zero at)) invalid_timestamp
    plan ← load_plan tenant_id station_id (platform.month_start at)
    price ← load_rule_price plan.id (hour_of at * 60 + minute_of at)
    guard (known_mode plan.mode) unknown_mode
    pure price

module _ {V : Type 0} ⦃f : Float64 V⦄ where
  unfoldable pub new_fixed_price_provider : V → Result TariffError V
  new_fixed_price_provider price = if f.lt price f.nil then err negative_price else ok price
