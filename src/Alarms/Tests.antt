-- ===== src/Alarms/Tests.antt =====
-- The theorems on sequences of calls, on hysteresis and on requests at concrete alarms.
use microgrid_cloud.Prelude.{
  [], ◌∷◌, true, ◌≡◌, refl, some, inl, inr, pos, int_float, find_first, any_where,
}
use microgrid_cloud.Prelude.TestPlatform.{test_platform}
use microgrid_cloud.Prelude.Exec.{calm, ok, err}
use microgrid_cloud.Alarms.Domain.{should_trigger, should_clear}
use microgrid_cloud.Alarms.Repository.{tenant_mismatch, has_id, acked, closed}
use microgrid_cloud.Alarms.Invariant.{Valid, clash, same_key}
use microgrid_cloud.Alarms.Lifecycle.{Evolves}
use microgrid_cloud.Alarms.Service.{ack_alarm, clear_alarm}
use microgrid_cloud.Alarms.Calls.{serve_all, serve_all-Valid, serve_all-Evolves}
use microgrid_cloud.Alarms.Hysteresis.{weak_rule_flaps}
use microgrid_cloud.Alarms.Requests.{ack_alarm_persists, clear_alarm_final}
use microgrid_cloud.Alarms.TestData.{service, flat_heat, hot, old, tables, ticks, rough, day}

serve_all-Valid_example :
    Valid (serve_all ⦃f = int_float⦄ test_platform service day rough).db.alarms
unfolding any_where clash same_key
serve_all-Valid_example =
    serve_all-Valid ⦃f = int_float⦄ test_platform service day rough (refl, (refl, tt))

serve_all-Evolves_example :
    Evolves rough.db.alarms (serve_all ⦃f = int_float⦄ test_platform service day rough).db.alarms
unfolding any_where clash same_key
serve_all-Evolves_example =
    serve_all-Evolves ⦃f = int_float⦄ test_platform service day rough (refl, (refl, tt))

weak_rule_flaps_example :
    (should_trigger ⦃f = int_float⦄ flat_heat (pos 30) ≡ true)
    × (should_clear ⦃f = int_float⦄ flat_heat (pos 30) ≡ true)
weak_rule_flaps_example = weak_rule_flaps ⦃f = int_float⦄ flat_heat (inl refl) (inr refl) refl

ack_alarm_persists_example :
    let (r, w) =
      ack_alarm ⦃f = int_float⦄ test_platform service "home" "a1"
        (calm (tables (old ∷ hot ∷ []) []) ticks 6) in
    (r ≡ ok (acked 7 hot)) × (find_first (has_id "a1") w.db.alarms ≡ some (acked 7 hot))
unfolding find_first
ack_alarm_persists_example =
    ack_alarm_persists ⦃f = int_float⦄ test_platform service "home" "a1"
      (tables (old ∷ hot ∷ []) []) hot ticks 6 refl refl refl refl

clear_alarm_final_example :
    let row = closed (pos 35) 7 hot in
    let (r, w) =
      clear_alarm ⦃f = int_float⦄ test_platform service "home" "a1"
        (calm (tables (old ∷ hot ∷ []) []) ticks 6) in
    (r ≡ ok row)
    × (find_first (has_id "a1") w.db.alarms ≡ some row)
    × (clear_alarm ⦃f = int_float⦄ test_platform service "home" "a1" w ≡ (ok row, w))
    × (ack_alarm ⦃f = int_float⦄ test_platform service "home" "a1" w ≡ (ok row, w))
    × (clear_alarm ⦃f = int_float⦄ test_platform service "away" "a1" w ≡ (err tenant_mismatch, w))
    × (ack_alarm ⦃f = int_float⦄ test_platform service "away" "a1" w ≡ (err tenant_mismatch, w))
unfolding find_first
clear_alarm_final_example =
    clear_alarm_final ⦃f = int_float⦄ test_platform service "home" "away" "a1"
      (tables (old ∷ hot ∷ []) []) hot ticks 6 refl refl refl refl refl
