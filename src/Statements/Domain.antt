-- ===== src/Statements/Domain.antt =====
-- Statements and their items, backend/internal/settlement/domain/statement.go, and the tables of
-- backend/migrations/008_statements.sql that keep them.
use microgrid_cloud.Prelude.{ℕ, String, List, Bool, true, false}

pub data StatementStatus : Type 0 where
  draft frozen voided : StatementStatus

pub StatementStatus-discrete : Discrete StatementStatus
StatementStatus-discrete = hlevel

pub record StatementAggregate (V : Type 0) : Type 0 where
  pub id : String
  pub tenant_id : String
  pub station_id : String
  pub statement_month : ℕ
  pub category : String
  pub status : StatementStatus
  pub version : ℕ
  pub total_energy_kwh : V
  pub total_amount : V
  pub currency : String
  pub snapshot_hash : String
  pub void_reason : String
  pub created_at : ℕ
  pub updated_at : ℕ
  pub frozen_at : ℕ
  pub voided_at : ℕ

pub record StatementItem (V : Type 0) : Type 0 where
  pub statement_id : String
  pub day_start : ℕ
  pub energy_kwh : V
  pub amount : V
  pub currency : String
  pub created_at : ℕ

-- The columns of `settlements_day` that a statement reads.
pub record SettlementDay (V : Type 0) : Type 0 where
  pub tenant_id : String
  pub station_id : String
  pub day_start : ℕ
  pub energy_kwh : V
  pub amount : V
  pub currency : String

pub record StatementExport : Type 0 where
  pub id : String
  pub statement_id : String
  pub format : String
  pub status : String
  pub path_or_key : String

pub record StatementDb (V : Type 0) : Type 0 where
  pub statements : List (StatementAggregate V)
  pub items : List (StatementItem V)
  pub days : List (SettlementDay V)
  pub exports : List StatementExport

-- What the service and its repository answer instead of a result.
pub data StatementError : Type 0 where
  db_failed duplicate_statement duplicate_item missing_statement duplicate_export : StatementError
  station_id_required month_required month_malformed : StatementError
  not_found statement_is_voided tenant_mismatch snapshot_failed : StatementError

abbrev pub is_frozen : StatementStatus → Bool
is_frozen frozen = true
is_frozen _ = false

abbrev pub is_voided : StatementStatus → Bool
is_voided voided = true
is_voided _ = false

-- `status IN ('draft', 'frozen')`.
abbrev pub is_current : StatementStatus → Bool
is_current draft = true
is_current frozen = true
is_current voided = false
