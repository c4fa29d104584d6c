-- ===== src/Strategy/Service.antt =====
-- The configuration of strategies: backend/internal/strategy/application/service.go. `params` is the
-- text of the request's parameters, or `none` where it has none.
use microgrid_cloud.Prelude.{
  ℕ, String, ◌+++◌, List, Bool, false, not, ◌||◌, Option, none, some, ◌==◌, if◌then◌else◌,
}
use microgrid_cloud.Prelude.Exec.{guard, ◌>>=◌, ◌>>◌}
use microgrid_cloud.Strategy.Domain.{
  Strategy, Run, station_id_required, invalid_mode, mode_auto, mode_manual,
}
use microgrid_cloud.Strategy.Repository.{
  Act, get_strategy, upsert_strategy, upsert_template, upsert_calendar, list_runs,
}

abbrev pub default_template_type : String
default_template_type = "anti_backflow"

abbrev pub template_id_for_type : String → String
template_id_for_type type = "tmpl-" +++ type

unfoldable pub template_payload : Option String → String
template_payload none = "{}"
template_payload (some params) = params

-- The mode of the strategy that is there, else manual.
unfoldable pub kept_mode : Option Strategy → String
kept_mode none = mode_manual
kept_mode (some s) = if s.mode == "" then mode_manual else s.mode

abbrev pub type_or_default : String → String
type_or_default type = if type == "" then default_template_type else type

unfoldable pub strategy_for : String → String → Bool → String → Strategy
strategy_for station_id mode enabled template_id = record {
  station_id = station_id;
  mode = mode;
  enabled = enabled;
  template_id = template_id;
  version = 0;
  created_at = 0;
  updated_at = 0;
}

module _ {V : Type 0} where
  unfoldable pub ensure_template : String → String → Option String → Act V (Unit {0})
  unfolding template_payload
  ensure_template id type params = upsert_template (record {
    id = id;
    type = type;
    params = template_payload params;
    created_at = 0;
    updated_at = 0;
  })

  unfoldable pub set_mode : String → String → Act V (Option Strategy)
  unfolding ensure_template strategy_for
  set_mode station_id mode = do
    guard (not (station_id == "")) station_id_required
    guard (mode == mode_auto || mode == mode_manual) invalid_mode
    ensure_template (template_id_for_type default_template_type) default_template_type none
    upsert_strategy
        (strategy_for station_id mode false (template_id_for_type default_template_type))
    get_strategy station_id

  unfoldable pub set_enabled : String → Bool → String → Option String → Act V (Option Strategy)
  unfolding ensure_template strategy_for kept_mode
  set_enabled station_id enabled type params = do
    guard (not (station_id == "")) station_id_required
    ensure_template (template_id_for_type (type_or_default type)) (type_or_default type) params
    existing ← get_strategy station_id
    upsert_strategy (
        strategy_for station_id (kept_mode existing) enabled
          (template_id_for_type (type_or_default type)))
    get_strategy station_id

  unfoldable pub set_calendar : String → ℕ → Bool → ℕ → ℕ → Act V (Unit {0})
  set_calendar station_id date enabled start end = do
    guard (not (station_id == "")) station_id_required
    upsert_calendar (record {
      strategy_id = station_id;
      date = date;
      enabled = enabled;
      start_time = start;
      end_time = end;
      created_at = 0;
      updated_at = 0;
    })

  unfoldable pub list_station_runs : String → ℕ → ℕ → Act V (List (Run V))
  list_station_runs station_id from to = do
    guard (not (station_id == "")) station_id_required
    list_runs station_id from to
