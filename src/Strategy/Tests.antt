-- ===== src/Strategy/Tests.antt =====
-- The theorems on strategies at a station that exports more than its threshold.
use microgrid_cloud.Prelude.{
  ℕ, ◌+◌, String, [], ◌∷◌, true, false, ◌≡◌, refl, arith, some, ◌==◌, if◌then◌else◌, ℤ, pos,
  int_float, leb_ℤ, ◌+ℤ◌, ◌*ℤ◌, select, latest, sort_by, find_first, any_where, update_where,
}
use microgrid_cloud.Prelude.Platform.{Platform}
use microgrid_cloud.Prelude.TestPlatform.{test_platform, strokes}
use microgrid_cloud.Prelude.Exec.{calm, ok, ◌>>=◌}
use microgrid_cloud.Alarms.Domain.{PointMapping}
use microgrid_cloud.Commands.Domain.{Json}
use microgrid_cloud.Strategy.Domain.{
  Strategy, Template, Calendar, StrategyDb, AntiBackflowParams, LatestValue, Numbers, Point,
}
use microgrid_cloud.Commands.Repository.{latest_keyed, stored_payload}
use microgrid_cloud.Commands.Service.{validate_issue, wrong_tenant, issuer, key_of}
use microgrid_cloud.Strategy.Latest.{
  mapping_rows, mapping_of, latest_point, of_point, numeric, add_point,
}
use microgrid_cloud.Strategy.Repository.{
  upsert, put_template, put_strategy, replace_strategy, upsert_template, upsert_strategy,
  get_strategy,
}
use microgrid_cloud.Strategy.Service.{set_mode, ensure_template, strategy_for}
use microgrid_cloud.Strategy.Sharing.{set_mode_disarms}
use microgrid_cloud.Strategy.Bounds.{IsOrdered}
use microgrid_cloud.Strategy.Engine.{
  clamp, tick, window_start, window_end, params_of, act_on, request_for, build_idem_key,
}
use microgrid_cloud.Strategy.Repeats.{after_run, after_issue, act_again}
use microgrid_cloud.Strategy.Due.{Untouched, due, opens, acts, grid_export, sum_points}
use microgrid_cloud.Strategy.Safety.{tick_idle}

abbrev params : String → ℤ → ℤ → ℤ → String → AntiBackflowParams ℤ
params device threshold min max type = record {
  threshold_kw = threshold;
  min_kw = min;
  max_kw = max;
  device_id = device;
  command_type = type;
}

abbrev test_numbers : Numbers ℤ
test_numbers = record {
  is_nil = λ v. leb_ℤ v (pos 0);
  one = pos 1;
  default_max = pos 10000;
  round_milli = λ v. v;
  format_milli = λ v. "kw";
  power_payload = λ v. "p";
  decode = λ s.
      if s == "limits"
      then params "pcs" (pos 5) (pos 1) (pos 50) "setPower"
      else params "" (pos 0) (pos 0) (pos 0) "";
}

abbrev test_json : Json
test_json = record { is_valid = λ s. true; normalized = λ s. s }

abbrev backflow : Template
backflow = record {
  id = "tmpl-anti_backflow";
  type = "anti_backflow";
  params = "limits";
  created_at = 1;
  updated_at = 1;
}

abbrev automatic : Strategy
automatic = record {
  station_id = "s";
  mode = "auto";
  enabled = true;
  template_id = "tmpl-anti_backflow";
  version = 1;
  created_at = 1;
  updated_at = 1;
}

-- From 00:01 to 00:02 of the first day.
abbrev window : Calendar
window = record {
  strategy_id = "s";
  date = 0;
  enabled = true;
  start_time = 60000000000;
  end_time = 120000000000;
  created_at = 1;
  updated_at = 1;
}

abbrev grid : PointMapping ℤ
grid = record {
  id = "m";
  station_id = "s";
  device_id = "";
  point_key = "grid";
  semantic = "grid_export_kw";
  unit = "kW";
  factor = pos 0;
  created_at = 1;
  updated_at = 1;
}

abbrev reading : Point ℤ
reading = record {
  tenant_id = "t";
  station_id = "s";
  device_id = "d";
  point_key = "grid";
  ts = 50;
  value_numeric = some (pos 70);
}

abbrev tables : StrategyDb ℤ
tables = record {
  strategies = automatic ∷ [];
  templates = backflow ∷ [];
  calendars = window ∷ [];
  runs = [];
  mappings = grid ∷ [];
  points = reading ∷ [];
  commands = record { commands = []; published = [] };
}

abbrev ticks : ℕ → ℕ
ticks n = 90000000000 + n

int-IsOrdered : IsOrdered ℤ ⦃f = int_float⦄ ⦃n = test_numbers⦄
int-IsOrdered = record {
  le_of_lt = λ a b h. ground arith;
  le_of_not_lt = λ a b p q h. ground arith;
  le_refl = λ a b h. (ground arith, ground arith);
  round_mono = λ a b h. h;
}

-- At 00:00:30 the window is not open.
tick_idle_example :
    Untouched tables
      (tick ⦃f = int_float⦄ ⦃n = test_numbers⦄ test_platform test_json strokes "t" "" "t"
        30000000000
        (calm tables ticks 0)).1.db
unfolding due opens any_where window_start
tick_idle_example =
    tick_idle ⦃f = int_float⦄ ⦃n = test_numbers⦄ "t" tables test_platform test_json strokes "t" ""
      30000000000 (calm tables ticks 0) refl refl refl

-- At 00:01:30 it is, and the strategy is due.
due_inside : due ⦃f = int_float⦄ ⦃n = test_numbers⦄ "t" tables 90000000000 automatic ≡ true
unfolding due acts grid_export sum_points opens any_where window_start window_end params_of
    mapping_rows latest_point of_point numeric add_point mapping_of select latest sort_by ◌+ℤ◌ ◌*ℤ◌
due_inside = refl

set_mode_disarms_example :
    due ⦃f = int_float⦄ ⦃n = test_numbers⦄ "t"
      (set_mode "other" "manual" (calm tables ticks 0)).1.db
      90000000000
      automatic
    ≡ false
unfolding set_mode ensure_template upsert_template put_template upsert_strategy put_strategy
    get_strategy upsert find_first any_where update_where replace_strategy strategy_for ◌>>=◌
set_mode_disarms_example =
    set_mode_disarms ⦃f = int_float⦄ ⦃n = test_numbers⦄ "t" "other" "manual" (calm tables ticks 0)
      (some (record {
        station_id = "other";
        mode = "manual";
        enabled = false;
        template_id = "tmpl-anti_backflow";
        version = 1;
        created_at = 90000000001;
        updated_at = 90000000001;
      }))
      automatic 90000000000 refl refl refl

-- Texts of any time are short, so that they stay readable.
abbrev short_platform : Platform
short_platform = record test_platform { format_nano = λ t. "nano"; format_minute = λ t. "minute" }

abbrev no_events : ℕ → String
no_events n = "event"

abbrev latest_export : LatestValue ℤ
latest_export = record { value = pos 70; timestamp = 50; points = "grid" ∷ [] }

abbrev limits : AntiBackflowParams ℤ
limits = params "pcs" (pos 5) (pos 1) (pos 50) "setPower"

abbrev first_tables : StrategyDb ℤ
first_tables =
    after_issue ⦃f = int_float⦄ ⦃n = test_numbers⦄ short_platform test_json no_events "t" "" "t"
      automatic backflow limits latest_export 90000000000 tables ticks 0

-- Two evaluations at 00:01:30.
act_again_example :
    (act_on ⦃f = int_float⦄ ⦃n = test_numbers⦄ short_platform test_json no_events "t" "" "t"
        automatic backflow limits 90000000000 latest_export
        (calm tables ticks 0)
      ≡ (ok tt, calm first_tables ticks 2))
    × (act_on ⦃f = int_float⦄ ⦃n = test_numbers⦄ short_platform test_json no_events "t" "" "t"
          automatic backflow limits 90000000000 latest_export
          (calm first_tables ticks 2)
        ≡ (
          ok tt,
          calm
              (after_run ⦃f = int_float⦄ ⦃n = test_numbers⦄ short_platform test_json no_events "t"
                "" "t" automatic backflow limits latest_export 90000000000 tables ticks 0
                90000000000
                (ticks 3)
                first_tables)
              ticks
              4,
        ))
unfolding validate_issue wrong_tenant issuer key_of request_for build_idem_key clamp any_where
    latest_keyed select latest stored_payload
act_again_example =
    act_again ⦃f = int_float⦄ ⦃n = test_numbers⦄ short_platform test_json no_events "t" "" "t"
      automatic backflow limits latest_export 90000000000 tables ticks 0 90000000000 refl refl refl
      refl refl refl refl refl refl (omega arith) refl
