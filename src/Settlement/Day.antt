-- ===== src/Settlement/Day.antt =====
-- The day settlement service, backend/internal/settlement/application/day_settlement_app_service.go.
-- The reader of hourly energy and the tariffs are functions: they only read, and what they answer
-- during one call is given. The publisher may fail; what it took is the list `published`.
use microgrid_cloud.Prelude.{
  ℕ, String, List, [], ◌∷◌, ◌++◌, Bool, not, ◌||◌, Option, none, some, ◌==◌, if◌then◌else◌, is_zero,
  Float64,
}
use microgrid_cloud.Prelude.Platform.{Platform}
use microgrid_cloud.Prelude.Exec.{
  Result, ok, err, Exec, pure, raise, lift, with_db, modify, now, attempt, guard, ◌>>=◌, ◌>>◌,
}
use microgrid_cloud.Settlement.Domain.{
  SettlementAggregate, SettlementError, empty_subject_id, invalid_day_start, db_failed,
  publish_failed, new_day_settlement_aggregate, recalculate, Repository,
}

pub record DayEnergyCalculated : Type 0 where
  pub subject_id : String
  pub day_start : ℕ
  pub recalculated : Bool
  pub occurred_at : ℕ

pub record SettlementCalculated (V : Type 0) : Type 0 where
  pub subject_id : String
  pub day_start : ℕ
  pub amount : V
  pub occurred_at : ℕ

pub record HourEnergy (V : Type 0) : Type 0 where
  pub hour_start : ℕ
  pub energy_kwh : V

pub record DayDb (S V : Type 0) : Type 0 where
  pub store : S
  pub published : List (SettlementCalculated V)

-- The totals of a day.
pub record Totals (V : Type 0) : Type 0 where
  pub energy_kwh : V
  pub amount : V

module _ {S V : Type 0} ⦃f : Float64 V⦄ (platform : Platform) (repo : Repository platform S V)
    (energy : String → ℕ → Result SettlementError (List (HourEnergy V)))
    (price : String → ℕ → Result SettlementError V) (has_publisher : Bool) where
  -- The loop over the hours, which stops at the first price that is missing.
  unfoldable pub sum_hours :
      String → Totals V → List (HourEnergy V) → Result SettlementError (Totals V)
  sum_hours subject_id t [] = ok t
  sum_hours subject_id t (hour ∷ hours) = elim (price subject_id hour.hour_start) [
    | err e ↦ err e
    | ok p ↦
        sum_hours subject_id
          (record {
            energy_kwh = f.add t.energy_kwh hour.energy_kwh;
            amount = f.add t.amount (f.mul hour.energy_kwh p);
          })
          hours
  ]

  abbrev pub found_or_new :
      String → ℕ → Option (SettlementAggregate V) → Result SettlementError (SettlementAggregate V)
  found_or_new subject_id day_start (some a) = ok a
  found_or_new subject_id day_start none =
      new_day_settlement_aggregate platform subject_id day_start

  abbrev pub commit : Result SettlementError S → Exec (DayDb S V) SettlementError (Unit {0})
  commit (ok s) = modify (λ d. record d { store = s })
  commit (err e) = raise e

  -- `repo.Save`.
  unfoldable pub save_day : SettlementAggregate V → Exec (DayDb S V) SettlementError (Unit {0})
  save_day a = do attempt db_failed; with_db (λ d. commit (repo.save a d.store))

  unfoldable pub publish : DayEnergyCalculated → V → Exec (DayDb S V) SettlementError (Unit {0})
  publish event amount = do
    occurred_at ← (if is_zero event.occurred_at then now else pure event.occurred_at)
    attempt publish_failed
    modify (λ d. record d {
      published =
          d.published
          ++ record {
            subject_id = event.subject_id;
            day_start = event.day_start;
            amount = amount;
            occurred_at = occurred_at;
          }
            ∷ [];
    })

  unfoldable pub settle_day :
      DayEnergyCalculated
      → Totals V
      → Option (SettlementAggregate V)
      → Exec (DayDb S V) SettlementError (Unit {0})
  unfolding save_day publish
  settle_day event totals found = do
    a ← lift (found_or_new event.subject_id event.day_start found)
    b ← lift (recalculate totals.energy_kwh totals.amount a)
    save_day b
    if not a.is_new || not has_publisher then pure tt else publish event totals.amount

  unfoldable pub handle_day_energy_calculated :
      DayEnergyCalculated → Exec (DayDb S V) SettlementError (Unit {0})
  unfolding settle_day sum_hours
  handle_day_energy_calculated event = do
    guard (not (event.subject_id == "")) empty_subject_id
    guard (not (is_zero event.day_start)) invalid_day_start
    hourly ← lift (energy event.subject_id event.day_start)
    totals ←
        lift (sum_hours event.subject_id (record { energy_kwh = f.nil; amount = f.nil }) hourly)
    attempt db_failed
    found ←
        with_db (λ d. lift (repo.find_by_subject_and_day event.subject_id event.day_start d.store))
    settle_day event totals found
