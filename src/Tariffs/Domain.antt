-- ===== src/Tariffs/Domain.antt =====
-- Tariff plans and their rules: the tables of backend/migrations/004_tariff.sql. The minutes of a rule
-- are minutes of the day.
use microgrid_cloud.Prelude.{ℕ, String, List}

pub record TariffPlan : Type 0 where
  pub id : String
  pub tenant_id : String
  pub station_id : String
  pub effective_month : ℕ
  pub currency : String
  pub mode : String

pub record TariffRule (V : Type 0) : Type 0 where
  pub id : String
  pub plan_id : String
  pub start_minute : ℕ
  pub end_minute : ℕ
  pub price_per_kwh : V

pub record TariffDb (V : Type 0) : Type 0 where
  pub plans : List TariffPlan
  pub rules : List (TariffRule V)

pub data TariffError : Type 0 where
  db_failed empty_tenant_id empty_station_id invalid_timestamp : TariffError
  plan_not_found rule_not_found unknown_mode negative_price : TariffError
