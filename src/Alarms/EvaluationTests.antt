-- ===== src/Alarms/EvaluationTests.antt =====
-- The theorems on the evaluation of a rule at concrete rules and samples.
use microgrid_cloud.Prelude.{
  [], ◌∷◌, ◌≡◌, refl, ◌+◌, ◌*◌, arith, pos, ◌-ℤ◌, int_float, ltb, if◌then◌else◌, find_first,
  any_where, select, latest, update_where, none, inl,
}
use microgrid_cloud.Prelude.TestPlatform.{test_platform}
use microgrid_cloud.Prelude.Exec.{calm, ok}
use microgrid_cloud.Alarms.Domain.{cleared, device, should_trigger, should_clear}
use microgrid_cloud.Alarms.Repository.{has_id, open_for, state_for, closed, upsert_rows}
use microgrid_cloud.Alarms.Service.{evaluate_rule}
use microgrid_cloud.Alarms.Slots.{open_row, settled}
use microgrid_cloud.Alarms.Evaluation.{raised, announced, evaluate_rule_matures}
use microgrid_cloud.Alarms.Invariant.{clash, same_key}
use microgrid_cloud.Alarms.Clearing.{evaluate_rule_clears_once}
use microgrid_cloud.Alarms.TestData.{
  service, heat, slow_heat, message, hot, old, waiting, tables, ticks,
}

evaluate_rule_clears_once_example :
    let d = tables (old ∷ hot ∷ []) (waiting ∷ []) in
    let (r, w) =
      evaluate_rule ⦃f = int_float⦄ test_platform service
        (message (pos 20) 9)
        heat
        device
        "d1"
        (pos 20)
        9
        (calm d ticks 6) in
    (r ≡ ok tt)
    × (w.db.alarms ≡ update_where (has_id "a1") (closed (pos 20) 9) d.alarms)
    × (w.db.notified
        ≡ record {
          event_type = cleared;
          alarm = record hot {
            status = cleared;
            cleared_at = 9;
            end_at = 9;
            last_value = pos 20;
            updated_at = 9;
          };
        }
          ∷ [])
    × (open_row (message (pos 20) 9) heat device "d1" w.db ≡ none)
    × (evaluate_rule ⦃f = int_float⦄ test_platform service
          (message (pos 20) 9)
          heat
          device
          "d1"
          (pos 20)
          11
          w
        ≡ (
          ok tt,
          record w {
            db = record w.db { states = settled (message (pos 20) 9) heat device "d1" d };
          },
        ))
unfolding should_clear latest select open_for ◌-ℤ◌ any_where clash same_key
evaluate_rule_clears_once_example =
    evaluate_rule_clears_once ⦃f = int_float⦄ test_platform service (message (pos 20) 9) heat device
      "d1" (pos 20) ticks 6 9 11 (tables (old ∷ hot ∷ []) (waiting ∷ [])) hot (refl, (refl, tt))
      (refl, refl) refl (inl refl) refl refl

evaluate_rule_matures_example :
    evaluate_rule ⦃f = int_float⦄ test_platform service
      (message (pos 40) 9)
      slow_heat
      device
      "d1"
      (pos 40)
      9
      (calm (tables [] (waiting ∷ [])) ticks 6)
    ≡ (if ltb 9 (3 + 60 * 1000000000)
        then (
          ok tt,
          calm
              (record (tables [] (waiting ∷ [])) {
                states =
                    upsert_rows
                      (record waiting { last_value = pos 40; updated_at = 7 })
                      (waiting ∷ []);
              })
              ticks
              7,
        )
        else (
          ok tt,
          calm
              (record (announced ⦃f = int_float⦄ test_platform service
                (message (pos 40) 9)
                slow_heat
                device
                "d1"
                (pos 40)
                9
                ticks
                6
                (tables [] (waiting ∷ []))
                (raised ⦃f = int_float⦄ test_platform service
                  (message (pos 40) 9)
                  slow_heat
                  device
                  "d1"
                  (pos 40)
                  9
                  ticks
                  6
                  3
                  7)) {
                    states =
                        settled
                          (message (pos 40) 9)
                          slow_heat
                          device
                          "d1"
                          (tables [] (waiting ∷ []));
                  })
              ticks
              8,
        ))
unfolding should_trigger latest select find_first state_for any_where
evaluate_rule_matures_example =
    evaluate_rule_matures ⦃f = int_float⦄ test_platform service (message (pos 40) 9) slow_heat
      device "d1" (pos 40) 9 ticks 6 (tables [] (waiting ∷ [])) waiting (refl, refl) refl refl refl
      refl refl refl refl (omega arith) refl refl
