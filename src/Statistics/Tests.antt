-- ===== src/Statistics/Tests.antt =====
-- The theorems on statistics at days of one and two hours.
use microgrid_cloud.Prelude.{
  ℕ, suc, some, String, ◌+◌, ◌*◌, List, [], ◌∷◌, true, false, ◌≡◌, refl, arith, ℤ, pos, int_float,
  ◌+ℤ◌, any_where,
}
use microgrid_cloud.Prelude.TestPlatform.{test_platform}
use microgrid_cloud.Prelude.Exec.{Result, ok, err, World, calm}
use microgrid_cloud.Statistics.Domain.{
  hour, day, StatisticError, statistic_not_found, StatisticFact, StatisticAggregate, has_negative,
  build_statistic_id, new_statistic_aggregate, complete,
}
use microgrid_cloud.Statistics.Rollup.{
  fact_at, put, collect_facts, sum_facts, close_day, sum_day, collect_day, rollup_current,
  rollup_day, one_hour,
}
use microgrid_cloud.Statistics.Repository.{StatisticDb, save, find_by_station_hour}
use microgrid_cloud.Statistics.Roundtrip.{fresh, find_by_station_hour-save}
use microgrid_cloud.Statistics.Announced.{Announced}
use microgrid_cloud.Statistics.Calls.{Call, window, calculated, handle_each, handle_each-Announced}
use microgrid_cloud.Statistics.Completeness.{completed_hour, rollup_has_hours}

abbrev energy : ℤ → StatisticFact ℤ
energy charge = record {
  charge_kwh = charge;
  discharge_kwh = pos 1;
  earnings = pos 2;
  carbon_reduction = pos 0;
}

abbrev hour_at : ℕ → ℤ → StatisticAggregate ℤ
hour_at start charge = record {
  id = "HOUR:h";
  granularity = hour;
  period_start = start;
  fact = energy charge;
  completed = true;
  completed_at = 8;
}

abbrev hours : List (StatisticAggregate ℤ)
hours = hour_at 3600000000010 (pos 4) ∷ hour_at 10 (pos 3) ∷ []

abbrev rolled_day : StatisticAggregate ℤ
rolled_day = record {
  id = "DAY:iiiiiiiiii";
  granularity = day;
  period_start = 10;
  fact = record {
    charge_kwh = pos 7;
    discharge_kwh = pos 2;
    earnings = pos 4;
    carbon_reduction = pos 0;
  };
  completed = true;
  completed_at = 9;
}

rolling :
    rollup_day ⦃f = int_float⦄ test_platform 2 9 10 false (err statistic_not_found) (ok hours)
    ≡ ok rolled_day
unfolding rollup_day rollup_current collect_day sum_day close_day collect_facts sum_facts put
    fact_at has_negative build_statistic_id new_statistic_aggregate complete ◌+ℤ◌
rolling = refl

rollup_has_hours_example :
    (hs : List (StatisticAggregate ℤ)) × (◌≡◌
      {A = Result StatisticError (List (StatisticAggregate ℤ))}
      (ok hours)
      (ok hs))
    × (any_where (completed_hour (10 + 1 * one_hour)) hs ≡ true)
rollup_has_hours_example =
    rollup_has_hours ⦃f = int_float⦄ test_platform 2 9 10 false (err statistic_not_found) (ok hours)
      rolled_day 1 rolling (omega arith)

abbrev query : String → ℕ → ℕ → Result StatisticError (List ℤ)
query station start end = ok (pos 4 ∷ [])

abbrev calculate : String → ℕ → List ℤ → Result StatisticError (StatisticFact ℤ)
calculate station start points = ok (energy (pos 4))

abbrev calls : List Call
calls =
    window (record {
      station_id = "s1";
      window_start = 10;
      window_end = 3600000000010;
      occurred_at = 5;
      recalculate = false;
    })
    ∷ calculated (record {
      station_id = "s1";
      statistic_id = "HOUR:h";
      granularity = hour;
      period_start = 10;
      occurred_at = 5;
      recalculate = false;
    })
    ∷ []

-- The third call fails.
abbrev world : World (StatisticDb ℤ)
world = record {
  db = record { rows = []; published = [] };
  outcomes = false ∷ false ∷ true ∷ [];
  clock = λ n. n + 7;
  reads = 0;
}

handle_each-Announced_example :
    Announced test_platform "s1"
      (handle_each ⦃f = int_float⦄ test_platform "s1" true 1 query calculate calls world).db
handle_each-Announced_example =
    handle_each-Announced ⦃f = int_float⦄ test_platform "s1" true 1 query calculate calls world tt

find_by_station_hour-save_example :
    let hour_of_day = record (hour_at 10 (pos 3)) { completed_at = 28 } in
    (w : World (StatisticDb ℤ)) × (save ⦃f = int_float⦄ test_platform "s1" hour_of_day
        (calm world.db suc 0)
      ≡ (ok tt, w))
    × (find_by_station_hour ⦃f = int_float⦄ test_platform "s1" "s1" 10 w
        ≡ (ok (some (record hour_of_day { completed_at = 20 })), w))
unfolding new_statistic_aggregate complete has_negative
find_by_station_hour-save_example =
    find_by_station_hour-save ⦃f = int_float⦄ test_platform "s1" "HOUR:h" 10 28 (energy (pos 3))
      (fresh ⦃f = int_float⦄ "HOUR:h" 10) (record (hour_at 10 (pos 3)) { completed_at = 28 })
      world.db suc 0 refl refl refl refl refl
