-- ===== src/Statistics/Rollup.antt =====
-- The rollup of hours into a day: `RollupDay` of
-- backend/internal/analytics/domain/statistic/daily_rollup_service.go. The repository only reads
-- here: its two answers are arguments, and so is the reading of the clock.
use microgrid_cloud.Prelude.{
  ℕ, zero, suc, ◌+◌, ◌*◌, String, List, [], ◌∷◌, Bool, true, false, not, ◌&&◌, ◌||◌, Option, none,
  some, eqb, ltb, if◌then◌else◌, is_zero, length, Float64,
}
use microgrid_cloud.Prelude.Platform.{Platform}
use microgrid_cloud.Prelude.Exec.{Result, ok, err}
use microgrid_cloud.Statistics.Domain.{
  Granularity, hour, day, StatisticError, invalid_period_start, negative_fact_value,
  statistic_not_found, day_already_completed, hours_not_completed, incomplete_hours, StatisticFact,
  StatisticAggregate, build_statistic_id, has_negative, no_fact, new_statistic_aggregate, complete,
}

-- `time.Hour`.
abbrev pub one_hour : ℕ
one_hour = 3600000000000

abbrev pub is_hour : Granularity → Bool
is_hour hour = true
is_hour _ = false

abbrev pub is_not_found : StatisticError → Bool
is_not_found statistic_not_found = true
is_not_found _ = false

-- Go's map from the start of an hour to its fact. The starts are instants of one location; Go's map
-- tells times of two locations apart.
abbrev pub FactMap : Type 0 → Type 0
FactMap V = List (ℕ × StatisticFact V)

module _ {V : Type 0} where
  unfoldable pub fact_at : FactMap V → ℕ → Option (StatisticFact V)
  fact_at [] t = none
  fact_at ((u, x) ∷ m) t = if eqb u t then some x else fact_at m t

  unfoldable pub put : FactMap V → ℕ → StatisticFact V → FactMap V
  put [] t x = (t, x) ∷ []
  put ((u, y) ∷ m) t x = let rest = put m t x in if eqb u t then (t, x) ∷ m else (u, y) ∷ rest

module _ {V : Type 0} ⦃f : Float64 V⦄ where
  abbrev pub add_fact : StatisticFact V → StatisticFact V → StatisticFact V
  add_fact x y = record {
    charge_kwh = f.add x.charge_kwh y.charge_kwh;
    discharge_kwh = f.add x.discharge_kwh y.discharge_kwh;
    earnings = f.add x.earnings y.earnings;
    carbon_reduction = f.add x.carbon_reduction y.carbon_reduction;
  }

  -- The loop that fills `factByHour`.
  unfoldable pub collect_facts :
      ℕ → ℕ → FactMap V → List (StatisticAggregate V) → Result StatisticError (FactMap V)
  collect_facts start end m [] = ok m
  collect_facts start end m (a ∷ rest) =
      let skipped = collect_facts start end m rest in
      let taken = collect_facts start end (put m a.period_start a.fact) rest in
      if not (is_hour a.granularity) || (ltb a.period_start start || not (ltb a.period_start end))
      then skipped
      else if not a.completed
      then err hours_not_completed
      else if has_negative a.fact
      then err negative_fact_value
      else taken

  -- The loop over the `n` hours from `t` on.
  unfoldable pub sum_facts :
      FactMap V → StatisticFact V → ℕ → ℕ → Result StatisticError (StatisticFact V)
  sum_facts m sum t zero = ok sum
  sum_facts m sum t (suc n) = elim (fact_at m t) [
    | none ↦ err incomplete_hours
    | some x ↦ sum_facts m (add_fact sum x) (t + one_hour) n
  ]

  unfoldable pub close_day :
      String
      → ℕ
      → ℕ
      → Result StatisticError (StatisticFact V)
      → Result StatisticError (StatisticAggregate V)
  unfolding new_statistic_aggregate complete
  close_day id start now (err e) = err e
  close_day id start now (ok sum) = elim (new_statistic_aggregate id day start) [
    | err e ↦ err e
    | ok a ↦ complete sum now a
  ]

  module _ (platform : Platform) (expected_hours : ℕ) (now : ℕ) where
    unfoldable pub sum_day :
        String
        → ℕ
        → Result StatisticError (FactMap V)
        → Result StatisticError (StatisticAggregate V)
    unfolding sum_facts close_day
    sum_day id start (err e) = err e
    sum_day id start (ok m) =
        if ltb (length m) expected_hours
        then err incomplete_hours
        else close_day id start now (sum_facts m no_fact start expected_hours)

    unfoldable pub collect_day :
        String
        → ℕ
        → Result StatisticError (List (StatisticAggregate V))
        → Result StatisticError (StatisticAggregate V)
    unfolding collect_facts sum_day
    collect_day id start (err e) = err e
    collect_day id start (ok hours) =
        sum_day id start (collect_facts start (start + expected_hours * one_hour) [] hours)

    -- A day that is there and completed is rolled up again only by force.
    unfoldable pub rollup_current :
        Bool
        → String
        → ℕ
        → Result StatisticError (StatisticAggregate V)
        → Result StatisticError (List (StatisticAggregate V))
        → Result StatisticError (StatisticAggregate V)
    unfolding collect_day
    rollup_current force id start (err e) hours =
        if is_not_found e then collect_day id start hours else err e
    rollup_current force id start (ok a) hours =
        if a.completed && not force then err day_already_completed else collect_day id start hours

    -- `current` and `hours` are what the repository answers for the day's id and for its hours.
    unfoldable pub rollup_day :
        ℕ
        → Bool
        → Result StatisticError (StatisticAggregate V)
        → Result StatisticError (List (StatisticAggregate V))
        → Result StatisticError (StatisticAggregate V)
    unfolding rollup_current build_statistic_id
    rollup_day day_start force current hours =
        if is_zero day_start
        then err invalid_period_start
        else elim (build_statistic_id platform day (platform.truncate_to_day day_start)) [
          | err e ↦ err e
          | ok id ↦ rollup_current force id (platform.truncate_to_day day_start) current hours
        ]
