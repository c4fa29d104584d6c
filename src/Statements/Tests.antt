-- ===== src/Statements/Tests.antt =====
-- The theorems on statements at a concrete month of two days.
use microgrid_cloud.Prelude.{
  ℕ, suc, String, List, [], ◌∷◌, true, false, ◌≡◌, refl, ℤ, pos, int_float, ◌+ℤ◌, Option, some, leb,
  any_where, select, find_first, latest, sort_by,
}
use microgrid_cloud.Prelude.TestPlatform.{test_platform}
use microgrid_cloud.Prelude.Exec.{calm, World, Result, ok, err, ◌>>=◌}
use microgrid_cloud.Statements.Domain.{
  draft, StatementAggregate, StatementItem, SettlementDay, StatementDb, StatementError,
  statement_is_voided,
}
use microgrid_cloud.Statements.Repository.{
  latest_active, in_slot, update_statement, sealed, revoked, next_version, version_after,
  build_items_from_settlements, days_of_month, add_rows, add_row, create_with_items, insert_items,
  commit, clash, same_version, same_item,
}
use microgrid_cloud.Statements.Service.{
  generate, generate_for, create_version, new_statement, build_statement_id, freeze, void,
  tenant_of, category_of, foreign, compute_snapshot_hash, parse_month,
}
use microgrid_cloud.Statements.Invariant.{Valid, Evolves}
use microgrid_cloud.Statements.Balance.{Ledger}
use microgrid_cloud.Statements.Calls.{
  Request, generates, freezes, voids, lists, exports, answer_all, answer_all-Valid,
  answer_all-Evolves,
}
use microgrid_cloud.Statements.Totals.{answer_all-Ledger}
use microgrid_cloud.Statements.Versions.{generate-newest, generate_again}
use microgrid_cloud.Statements.Regeneration.{regenerate-above}
use microgrid_cloud.Statements.Requests.{freeze_once, void_final}

abbrev day : ℕ → ℤ → SettlementDay ℤ
day day_start amount = record {
  tenant_id = "home";
  station_id = "s1";
  day_start = day_start;
  energy_kwh = pos 5;
  amount = amount;
  currency = "EUR";
}

abbrev tables : StatementDb ℤ
tables = record {
  statements = [];
  items = [];
  days = day 12 (pos 9) ∷ day 11 (pos 7) ∷ day 50 (pos 1) ∷ [];
  exports = [];
}

abbrev start : World (StatementDb ℤ)
start = record { db = tables; outcomes = []; clock = suc; reads = 0 }

-- The third call of the database fails.
abbrev rough : World (StatementDb ℤ)
rough = record start { outcomes = false ∷ false ∷ true ∷ [] }

abbrev hash : StatementAggregate ℤ → List (StatementItem ℤ) → Option String
hash s items = some "h"

abbrev month : List Request
month =
    generates "" "s1" "2026-01" "" false
    ∷ generates "" "s1" "2026-01" "" false
    ∷ generates "" "s1" "2026-01" "" true
    ∷ freezes "" "x"
    ∷ voids "" "x" "wrong"
    ∷ lists "" "s1" "2026-01" ""
    ∷ exports "x" "csv" "done" ""
    ∷ []

answer_all-Valid_example :
    Valid (answer_all ⦃f = int_float⦄ test_platform "home" hash month rough).db.statements
answer_all-Valid_example = answer_all-Valid ⦃f = int_float⦄ test_platform "home" hash month rough tt

abbrev paper : StatementAggregate ℤ
paper = record {
  id = "p1";
  tenant_id = "home";
  station_id = "s1";
  statement_month = 10;
  category = "owner";
  status = draft;
  version = 1;
  total_energy_kwh = pos 0;
  total_amount = pos 0;
  currency = "CNY";
  snapshot_hash = "";
  void_reason = "";
  created_at = 3;
  updated_at = 3;
  frozen_at = 0;
  voided_at = 0;
}

abbrev filed : StatementDb ℤ
filed = record tables { statements = paper ∷ [] }

abbrev rough_filed : World (StatementDb ℤ)
rough_filed = record rough { db = filed }

answer_all-Evolves_example :
    Evolves
      (paper ∷ [])
      (answer_all ⦃f = int_float⦄ test_platform "home" hash month rough_filed).db.statements
unfolding any_where
answer_all-Evolves_example =
    answer_all-Evolves ⦃f = int_float⦄ test_platform "home" hash month rough_filed (refl, tt)

answer_all-Ledger_example :
    Ledger ⦃f = int_float⦄ (answer_all ⦃f = int_float⦄ test_platform "home" hash month rough).db
answer_all-Ledger_example =
    answer_all-Ledger ⦃f = int_float⦄ test_platform "home" hash month rough
      (record { sums = tt; owned = tt })

freeze_once_example :
    let frozen_world = calm (update_statement "p1" (sealed "h" 7) filed) suc 7 in
    let answer : Result StatementError (StatementAggregate ℤ) × World (StatementDb ℤ) =
      (ok (sealed "h" 7 paper), frozen_world) in
    (freeze ⦃f = int_float⦄ test_platform "home" hash "" "p1" (calm filed suc 6) ≡ answer)
    × (freeze ⦃f = int_float⦄ test_platform "home" hash "" "p1" frozen_world ≡ answer)
unfolding find_first foreign tenant_of compute_snapshot_hash
freeze_once_example =
    freeze_once ⦃f = int_float⦄ test_platform "home" hash "" "p1" filed paper suc 6 "h" refl refl
      refl refl refl

void_final_example :
    let voided_world = calm (update_statement "p1" (revoked "wrong" 7) filed) suc 7 in
    let answer : Result StatementError (StatementAggregate ℤ) × World (StatementDb ℤ) =
      (ok (revoked "wrong" 7 paper), voided_world) in
    (void ⦃f = int_float⦄ test_platform "home" hash "" "p1" "wrong" (calm filed suc 6) ≡ answer)
    × (void ⦃f = int_float⦄ test_platform "home" hash "" "p1" "late" voided_world ≡ answer)
    × (freeze ⦃f = int_float⦄ test_platform "home" hash "" "p1" voided_world
        ≡ (err statement_is_voided, voided_world))
unfolding find_first foreign tenant_of
void_final_example =
    void_final ⦃f = int_float⦄ test_platform "home" hash "" "p1" filed paper suc 6 "wrong" "late"
      refl refl refl

-- The second version of the month.
abbrev second : StatementAggregate ℤ
second = record paper {
  id = "stmt-s1|2026-01|owner|ii";
  version = 2;
  total_energy_kwh = pos 10;
  total_amount = pos 16;
  currency = "EUR";
}

abbrev remade : World (StatementDb ℤ)
remade = record {
  db = record filed {
    statements = paper ∷ second ∷ [];
    items =
        record {
          statement_id = "stmt-s1|2026-01|owner|ii";
          day_start = 11;
          energy_kwh = pos 5;
          amount = pos 7;
          currency = "EUR";
          created_at = 1;
        }
        ∷ record {
          statement_id = "stmt-s1|2026-01|owner|ii";
          day_start = 12;
          energy_kwh = pos 5;
          amount = pos 9;
          currency = "EUR";
          created_at = 2;
        }
        ∷ [];
  };
  outcomes = [];
  clock = suc;
  reads = 3;
}

remaking :
    generate ⦃f = int_float⦄ test_platform "home" hash "" "s1" "2026-01" "" true
      (record start { db = filed })
    ≡ (ok second, remade)
unfolding generate generate_for create_version next_version version_after
    build_items_from_settlements days_of_month add_rows add_row new_statement build_statement_id
    create_with_items insert_items commit clash same_version in_slot same_item parse_month tenant_of
    category_of latest select sort_by any_where ◌+ℤ◌ ◌>>=◌
remaking = refl

generate-newest_example :
    latest_active (tenant_of "home" "") "s1" 10 (category_of "") remade.db ≡ some second
unfolding parse_month
generate-newest_example =
    generate-newest ⦃f = int_float⦄ test_platform "home" hash "" "s1" "2026-01" "" 10 refl true
      (record start { db = filed }) remade second remaking

generate_again_example :
    generate ⦃f = int_float⦄ test_platform "home" hash "" "s1" "2026-01" "" false remade
    ≡ (ok second, remade)
unfolding parse_month
generate_again_example =
    generate_again ⦃f = int_float⦄ test_platform "home" hash "" "s1" "2026-01" "" 10 refl true
      (record start { db = filed }) remade second refl remaking refl

regenerate-above_example :
    any_where
      (λ x. leb 2 x.version)
      (select (in_slot (tenant_of "home" "") "s1" 10 (category_of "")) (paper ∷ []))
    ≡ false
unfolding parse_month
regenerate-above_example =
    regenerate-above ⦃f = int_float⦄ test_platform "home" hash "" "s1" "2026-01" "" 10
      (record start { db = filed }) remade second refl remaking
