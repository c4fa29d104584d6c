-- ===== src/Settlement/Domain.antt =====
-- Settlement aggregates: backend/internal/settlement/domain, and the interface of the repository
-- that the day settlement service takes.
use microgrid_cloud.Prelude.{
  ℕ, String, ◌+++◌, Bool, true, false, ◌||◌, ◌≡◌, Option, none, some, ◌==◌, if◌then◌else◌, is_zero,
  Float64,
}
use microgrid_cloud.Prelude.Platform.{Platform}
use microgrid_cloud.Prelude.Exec.{Result, ok, err}

pub data SettlementError : Type 0 where
  empty_subject_id invalid_day_start negative_value nil_aggregate db_failed : SettlementError
  energy_unavailable price_unavailable publish_failed : SettlementError

pub record SettlementAggregate (V : Type 0) : Type 0 where
  pub id : String
  pub subject_id : String
  pub day_start : ℕ
  pub time_key : String
  pub energy_kwh : V
  pub amount : V
  pub is_new : Bool

-- `NewDayTimeKey`.
unfoldable pub new_day_time_key : Platform → ℕ → Result SettlementError String
new_day_time_key platform day_start =
    if is_zero day_start then err invalid_day_start else ok (platform.format_day day_start)

-- `subjectID + "|" + key`.
abbrev pub settlement_key : Platform → String → ℕ → String
settlement_key platform subject_id day_start = subject_id +++ "|" +++ platform.format_day day_start

-- `BuildSettlementID`.
unfoldable pub build_settlement_id : Platform → String → ℕ → Result SettlementError String
build_settlement_id platform subject_id day_start =
    if subject_id == ""
    then err empty_subject_id
    else if is_zero day_start
    then err invalid_day_start
    else ok (settlement_key platform subject_id day_start)

module _ {V : Type 0} ⦃f : Float64 V⦄ where
  -- `NewDaySettlementAggregate`.
  unfoldable pub new_day_settlement_aggregate :
      Platform → String → ℕ → Result SettlementError (SettlementAggregate V)
  unfolding build_settlement_id new_day_time_key
  new_day_settlement_aggregate platform subject_id day_start =
      elim (build_settlement_id platform subject_id day_start) [
        | err e ↦ err e
        | ok id ↦ elim (new_day_time_key platform day_start) [
          | err e ↦ err e
          | ok key ↦ ok (record {
            id = id;
            subject_id = subject_id;
            day_start = day_start;
            time_key = key;
            energy_kwh = f.nil;
            amount = f.nil;
            is_new = true;
          })
        ]
      ]

  unfoldable pub recalculate :
      V → V → SettlementAggregate V → Result SettlementError (SettlementAggregate V)
  recalculate energy_kwh amount a =
      if f.lt energy_kwh f.nil || f.lt amount f.nil
      then err negative_value
      else ok (record a { energy_kwh = energy_kwh; amount = amount })

module _ {V : Type 0} where
  -- `Clone`, and the state that `MarkPersisted` leaves.
  unfoldable pub clone : SettlementAggregate V → SettlementAggregate V
  clone a = record a { is_new = false }

-- The repository as the service sees it: lookups and saves on a state of its own, and what holds of
-- them. `stored` tells which identities the state has.
pub record Repository (platform : Platform) (S V : Type 0) : Type 0 where
  pub find_by_subject_and_day :
      String → ℕ → S → Result SettlementError (Option (SettlementAggregate V))
  pub save : SettlementAggregate V → S → Result SettlementError S
  pub stored : String → S → Bool
  pub find_none :
      (subject_id : String) (day_start : ℕ) (s : S)
      → find_by_subject_and_day subject_id day_start s ≡ ok none
      → stored (settlement_key platform subject_id day_start) s ≡ false
  pub find_some :
      (subject_id : String) (day_start : ℕ) (s : S) (a : SettlementAggregate V)
      → find_by_subject_and_day subject_id day_start s ≡ ok (some a)
      → a.is_new ≡ false
  pub save-stored :
      (a : SettlementAggregate V) (s s' : S) (k : String)
      → save a s ≡ ok s'
      → stored k s' ≡ (a.id == k || stored k s)
