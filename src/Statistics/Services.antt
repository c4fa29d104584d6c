-- ===== src/Statistics/Services.antt =====
-- The services of analytics: backend/internal/analytics/application/hour_statistic_service.go and
-- statistic/daily_rollup_app_service.go, with the calls that RollupDay makes of its repository. The
-- query of telemetry and the calculator are parameters, as in the source.
use microgrid_cloud.Prelude.{
  ℕ, ◌+◌, ◌*◌, String, List, [], ◌∷◌, ◌++◌, Bool, true, false, not, ◌&&◌, ◌||◌, Option, none, some,
  ◌==◌, if◌then◌else◌, is_zero, Float64,
}
use microgrid_cloud.Prelude.Platform.{Platform}
use microgrid_cloud.Prelude.Exec.{
  Result, ok, err, pure, raise, lift, modify, now, caught, attempt, guard, ◌>>=◌, ◌>>◌,
}
use microgrid_cloud.Statistics.Domain.{
  hour, day, StatisticError, invalid_period_start, repository_failed, invalid_window,
  duplicate_statistic, day_already_completed, hours_not_completed, incomplete_hours, StatisticFact,
  StatisticAggregate, build_statistic_id, new_statistic_aggregate, complete,
}
use microgrid_cloud.Statistics.Rollup.{is_hour, is_not_found, one_hour, rollup_day}
use microgrid_cloud.Statistics.Repository.{
  StatisticCalculated, Act, find_by_station_hour, get, list_by_granularity_and_period, save,
}

pub record TelemetryWindowClosed : Type 0 where
  pub station_id : String
  pub window_start : ℕ
  pub window_end : ℕ
  pub occurred_at : ℕ
  pub recalculate : Bool

abbrev pub is_there : {A : Type 0} → Option A → Bool
is_there none = false
is_there (some a) = true

abbrev pub is_duplicate : StatisticError → Bool
is_duplicate duplicate_statistic = true
is_duplicate _ = false

-- The errors of a rollup that only say that the day is not to be rolled up now.
abbrev pub is_premature : StatisticError → Bool
is_premature day_already_completed = true
is_premature incomplete_hours = true
is_premature hours_not_completed = true
is_premature _ = false

-- Whether RollupDay goes on to list the hours.
unfoldable pub reads_hours :
    {V : Type 0} → Bool → Result StatisticError (StatisticAggregate V) → Bool
reads_hours force (err e) = is_not_found e
reads_hours force (ok a) = not (a.completed && not force)

module _ {V : Type 0} where
  abbrev pub hour_event : TelemetryWindowClosed → StatisticAggregate V → StatisticCalculated
  hour_event evt a = record {
    station_id = evt.station_id;
    statistic_id = a.id;
    granularity = hour;
    period_start = evt.window_start;
    occurred_at = a.completed_at;
    recalculate = evt.recalculate;
  }

  abbrev pub day_event : StatisticCalculated → StatisticAggregate V → ℕ → StatisticCalculated
  day_event event a at = record {
    station_id = event.station_id;
    statistic_id = a.id;
    granularity = day;
    period_start = a.period_start;
    occurred_at = at;
    recalculate = event.recalculate;
  }

module _ {V P : Type 0} ⦃f : Float64 V⦄ (platform : Platform) (own : String) (has_bus : Bool)
    (expected_hours : ℕ) (query : String → ℕ → ℕ → Result StatisticError (List P))
    (calculate : String → ℕ → List P → Result StatisticError (StatisticFact V)) where
  -- `bus.Publish`, if there is a bus.
  unfoldable pub publish : StatisticCalculated → Act V (Unit {0})
  publish event = if not has_bus then pure tt else (do
    attempt repository_failed
    modify (λ d. record d { published = d.published ++ event ∷ [] }))

  unfoldable pub announce_hour :
      TelemetryWindowClosed
      → StatisticAggregate V
      → Result StatisticError (Unit {0})
      → Act V (Unit {0})
  unfolding publish
  announce_hour evt a (err e) = if is_duplicate e then pure tt else raise e
  announce_hour evt a (ok x) = publish (hour_event evt a)

  unfoldable pub calculate_hour : TelemetryWindowClosed → Act V (Unit {0})
  unfolding announce_hour
  calculate_hour evt = do
    points ← lift (query evt.station_id evt.window_start evt.window_end)
    x ← lift (calculate evt.station_id evt.window_start points)
    id ← lift (build_statistic_id platform hour evt.window_start)
    a ← lift (new_statistic_aggregate id hour evt.window_start)
    t ← now
    b ← lift (complete x t a)
    saved ← caught (save platform own b)
    announce_hour evt b saved

  unfoldable pub handle_telemetry_window_closed : TelemetryWindowClosed → Act V (Unit {0})
  unfolding calculate_hour
  handle_telemetry_window_closed evt = do
    guard (not (evt.station_id == "" || (is_zero evt.window_start || is_zero evt.window_end)))
        invalid_window
    existing ← find_by_station_hour platform own evt.station_id evt.window_start
    if is_there existing && not evt.recalculate then pure tt else calculate_hour evt

  -- RollupDay with the calls that it makes; the clock is read whether it is needed or not.
  unfoldable pub roll_up : ℕ → Bool → Act V (StatisticAggregate V)
  unfolding reads_hours
  roll_up day_start force = if is_zero day_start then raise invalid_period_start else (do
    let start = platform.truncate_to_day day_start
    id ← lift (build_statistic_id platform day start)
    current ← caught (get platform own id)
    hours ←
        (if reads_hours force current
          then caught (
              list_by_granularity_and_period platform own hour start
                (start + expected_hours * one_hour))
          else pure (ok []))
    t ← now
    lift (rollup_day platform expected_hours t day_start force current hours))

  unfoldable pub announce_day :
      StatisticCalculated → Result StatisticError (StatisticAggregate V) → Act V (Unit {0})
  unfolding publish
  announce_day event (err e) = if is_premature e then pure tt else raise e
  announce_day event (ok a) = do
    save platform own a
    at ←
        (if not (is_zero event.occurred_at)
          then pure event.occurred_at
          else if a.completed
          then pure a.completed_at
          else now)
    publish (day_event event a at)

  unfoldable pub handle_statistic_calculated : StatisticCalculated → Act V (Unit {0})
  unfolding roll_up announce_day
  handle_statistic_calculated event = if not (is_hour event.granularity) then pure tt else (do
    guard (not (is_zero event.period_start)) invalid_period_start
    r ← caught (roll_up (platform.truncate_to_day event.period_start) event.recalculate)
    announce_day event r)
