-- ===== src/Settlement/Tests.antt =====
-- The theorem on settlements over the in-memory repository, with a failing publisher.
use microgrid_cloud.Prelude.{ℕ, suc, String, List, [], ◌∷◌, true, false, ℤ, pos, int_float}
use microgrid_cloud.Prelude.TestPlatform.{test_platform}
use microgrid_cloud.Prelude.Exec.{World, Result, ok}
use microgrid_cloud.Settlement.Domain.{SettlementError}
use microgrid_cloud.Settlement.Memory.{MemoryData, memory_repository}
use microgrid_cloud.Settlement.Day.{DayDb, DayEnergyCalculated, HourEnergy}
use microgrid_cloud.Settlement.Once.{Once}
use microgrid_cloud.Settlement.Announcements.{handle_all, handle_all-Once}

abbrev hours : String → ℕ → Result SettlementError (List (HourEnergy ℤ))
hours subject_id day_start = ok (
    record { hour_start = 1; energy_kwh = pos 3 }
    ∷ record { hour_start = 2; energy_kwh = pos 4 }
    ∷ [])

abbrev flat : String → ℕ → Result SettlementError ℤ
flat subject_id hour_start = ok (pos 2)

abbrev calculated : String → ℕ → DayEnergyCalculated
calculated subject_id day_start = record {
  subject_id = subject_id;
  day_start = day_start;
  recalculated = false;
  occurred_at = 7;
}

abbrev empty_world : World (DayDb (MemoryData ℤ) ℤ)
empty_world = record {
  db = record { store = []; published = [] };
  outcomes = false ∷ false ∷ true ∷ [];
  clock = suc;
  reads = 0;
}

-- The publisher fails on the first event; the day is handled again, and another day.
abbrev week : List DayEnergyCalculated
week = calculated "s1" 1 ∷ calculated "s1" 1 ∷ calculated "s1" 2 ∷ calculated "s1" 2 ∷ []

handle_all-Once_example :
    Once test_platform
      (memory_repository test_platform)
      (handle_all ⦃f = int_float⦄ test_platform
        (memory_repository test_platform)
        hours
        flat
        true
        week
        empty_world).db
handle_all-Once_example =
    handle_all-Once ⦃f = int_float⦄ test_platform (memory_repository test_platform) hours flat true
      week empty_world (record { apart = tt; kept = tt })
