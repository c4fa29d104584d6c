-- ===== src/Statistics/Calls.antt =====
-- Sequences of closed windows and calculated statistics, and what they keep.
use microgrid_cloud.Prelude.{
  ℕ, ◌+◌, ◌*◌, String, List, [], ◌∷◌, Bool, true, not, ◌&&◌, ◌≡◌, refl, sym, is_zero, Float64,
}
use microgrid_cloud.Prelude.Platform.{Platform}
use microgrid_cloud.Prelude.Exec.{Result, ok, err, World, Keeps, Triple, caught}
use microgrid_cloud.Prelude.Exec.Rules.{
  Triple-after, Triple-bind, Triple-lift, Triple-given, Triple-modify, Triple-pure, Triple-if,
  Triple-raise, triple-Keeps, Keeps-triple, Keeps-lift, Keeps-now, Keeps-attempt, Keeps-guard,
  Keeps-pure, Keeps-bind, Keeps-if, Keeps-caught,
}
use microgrid_cloud.Prelude.Exec.Reads.{Triple-caught}
use microgrid_cloud.Statistics.Domain.{hour, day, StatisticError, StatisticFact, StatisticAggregate}
use microgrid_cloud.Statistics.Rollup.{one_hour, is_hour}
use microgrid_cloud.Statistics.Repository.{StatisticCalculated, StatisticDb, save}
use microgrid_cloud.Statistics.Stored.{completed-hour, Ready, save-Ready, published-more}
use microgrid_cloud.Statistics.Reads.{get-Keeps, list-Keeps, find-Keeps}
use microgrid_cloud.Statistics.Services.{
  TelemetryWindowClosed, hour_event, day_event, is_duplicate, is_premature, is_there, reads_hours,
  publish, announce_hour, calculate_hour, handle_telemetry_window_closed, roll_up, announce_day,
  handle_statistic_calculated,
}
use microgrid_cloud.Statistics.Announced.{rolled-day, Announced}

pub data Call : Type 0 where
  window : TelemetryWindowClosed → Call
  calculated : StatisticCalculated → Call

module _ {V P : Type 0} ⦃f : Float64 V⦄ (platform : Platform) (own : String) (has_bus : Bool)
    (expected_hours : ℕ) (query : String → ℕ → ℕ → Result StatisticError (List P))
    (calculate : String → ℕ → List P → Result StatisticError (StatisticFact V)) where
  publish-Announced :
      (e : StatisticCalculated)
      → Triple
          (Ready platform own e)
          (publish platform own has_bus expected_hours query calculate e)
          (λ _. Announced platform own)
          (Announced platform own)
  unfolding publish
  publish-Announced e =
      Triple-if (not has_bus) _ _ (λ off. Triple-pure tt (λ d h. h.0))
        λ on.
          Triple-bind _ _ (triple-Keeps _ (Keeps-attempt _) (λ d h. h.0))
            λ _. Triple-modify _ (λ d h. published-more platform own e d.rows d.published h.0 h.1)

  -- After an attempt to save the statistic of an event.
  abbrev After : StatisticCalculated → Result StatisticError (Unit {0}) → StatisticDb V → Type 0
  After e (ok x) d = Ready platform own e d
  After e (err x) d = Announced platform own d

  announce_hour-Announced :
      (evt : TelemetryWindowClosed) (a : StatisticAggregate V)
      (r : Result StatisticError (Unit {0}))
      → Triple
          (After (hour_event evt a) r)
          (announce_hour platform own has_bus expected_hours query calculate evt a r)
          (λ _. Announced platform own)
          (Announced platform own)
  unfolding announce_hour
  announce_hour-Announced evt a (ok x) = publish-Announced (hour_event evt a)
  announce_hour-Announced evt a (err e) =
      Triple-if (is_duplicate e) _ _ (λ x. Triple-pure tt (λ d h. h))
        (λ x. Triple-raise e (λ d h. h))

  saved_hour :
      (evt : TelemetryWindowClosed) (a : StatisticAggregate V)
      → a.completed ≡ true
      → a.granularity ≡ hour
      → a.period_start ≡ evt.window_start
      → Triple
          (Announced platform own)
          (caught (save platform own a))
          (After (hour_event evt a))
          (Announced platform own)
  saved_hour evt a done type start =
      Triple-caught {R = Announced platform own} _
        (save-Ready platform own a (hour_event evt a) done (sym type) (sym start)) (λ x d h. h)
        (λ e d h. h)

  -- An hour that is saved is announced, and one that is not saved is not.
  calculate_hour-Announced :
      (evt : TelemetryWindowClosed)
      → Keeps
          (Announced platform own)
          (calculate_hour platform own has_bus expected_hours query calculate evt)
  unfolding calculate_hour
  calculate_hour-Announced evt = Keeps-triple _ (
      Triple-bind _ _ (triple-Keeps _ (Keeps-lift _) (λ d h. h)) λ points.
        Triple-bind _ _ (triple-Keeps _ (Keeps-lift _) (λ d h. h)) λ x.
          Triple-bind _ _ (triple-Keeps _ (Keeps-lift _) (λ d h. h)) λ id.
            Triple-bind _ _ (Triple-lift _ (λ d h. h)) λ a. Triple-given _ λ made.
              Triple-bind _ _ (triple-Keeps _ Keeps-now (λ d h. h)) λ t.
                Triple-bind _ _ (Triple-lift _ (λ d h. h)) λ b. Triple-given _ λ done.
                  let (full, type, begins) = completed-hour id evt.window_start t x a b made done in
                  Triple-bind _ _ (saved_hour evt b full type begins)
                    λ r. announce_hour-Announced evt b r)

  window-Announced :
      (evt : TelemetryWindowClosed)
      → Keeps
          (Announced platform own)
          (handle_telemetry_window_closed platform own has_bus expected_hours query calculate evt)
  unfolding handle_telemetry_window_closed
  window-Announced evt = Keeps-bind _ _ (Keeps-guard _ _) λ _.
      Keeps-bind _ _ (find-Keeps platform own evt.station_id evt.window_start) λ existing.
        Keeps-if (is_there existing && not evt.recalculate) _ _ (Keeps-pure tt)
          (calculate_hour-Announced evt)

  -- A rollup that succeeds gives a completed day.
  abbrev IsDay : StatisticAggregate V → Type 0
  IsDay a = (a.completed ≡ true) × (a.granularity ≡ day)

  abbrev Rolled : Result StatisticError (StatisticAggregate V) → StatisticDb V → Type 0
  Rolled (ok a) d = Announced platform own d × IsDay a
  Rolled (err e) d = Announced platform own d

  roll_up-IsDay :
      (day_start : ℕ) (force : Bool)
      → Triple
          (Announced platform own)
          (roll_up platform own has_bus expected_hours query calculate day_start force)
          (λ a d. Announced platform own d × IsDay a)
          (Announced platform own)
  unfolding roll_up
  roll_up-IsDay day_start force =
      let start = platform.truncate_to_day day_start in
      Triple-if (is_zero day_start) _ _ (λ x. Triple-raise _ (λ d h. h))
        λ x. Triple-bind _ _ (triple-Keeps _ (Keeps-lift _) (λ d h. h)) λ id.
          Triple-bind _ _ (triple-Keeps _ (Keeps-caught _ (get-Keeps platform own id)) (λ d h. h))
            λ current.
              Triple-bind _ _
                (triple-Keeps _
                  (Keeps-if (reads_hours force current) _ _
                    (Keeps-caught _
                      (list-Keeps platform own hour start (start + expected_hours * one_hour)))
                    (Keeps-pure (ok [])))
                  (λ d h. h))
                λ hours. Triple-bind _ _ (triple-Keeps _ Keeps-now (λ d h. h)) λ t.
                  Triple-after _ (Triple-lift _ (λ d h. h)) λ a d h.
                    (h.0, rolled-day platform expected_hours t day_start force current hours a h.1)

  announce_day-Announced :
      (event : StatisticCalculated) (r : Result StatisticError (StatisticAggregate V))
      → Triple
          (Rolled r)
          (announce_day platform own has_bus expected_hours query calculate event r)
          (λ _. Announced platform own)
          (Announced platform own)
  unfolding announce_day
  announce_day-Announced event (err e) =
      Triple-if (is_premature e) _ _ (λ x. Triple-pure tt (λ d h. h))
        (λ x. Triple-raise e (λ d h. h))
  announce_day-Announced event (ok a) = Triple-given _ λ (full, type).
      Triple-bind _ _ (save-Ready platform own a (day_event event a 0) full (sym type) refl) λ _.
        Triple-bind _ _
          (triple-Keeps _
            (Keeps-if (not (is_zero event.occurred_at)) _ _ (Keeps-pure _)
              (Keeps-if a.completed _ _ (Keeps-pure _) Keeps-now))
            (λ d h. h.0))
          λ at. publish-Announced (day_event event a at)

  calculated-Announced :
      (event : StatisticCalculated)
      → Keeps
          (Announced platform own)
          (handle_statistic_calculated platform own has_bus expected_hours query calculate event)
  unfolding handle_statistic_calculated
  calculated-Announced event = Keeps-if (not (is_hour event.granularity)) _ _ (Keeps-pure tt) (
      Keeps-bind _ _ (Keeps-guard _ _) λ _. Keeps-triple _ (
        Triple-bind _ _
          (Triple-caught {R = Announced platform own} _ (roll_up-IsDay _ event.recalculate)
            (λ a d h. h) (λ e d h. h))
          λ r. announce_day-Announced event r))

  unfoldable pub handle : Call → World (StatisticDb V) → World (StatisticDb V)
  handle (window evt) w =
      (handle_telemetry_window_closed platform own has_bus expected_hours query calculate evt w).1
  handle (calculated event) w =
      (handle_statistic_calculated platform own has_bus expected_hours query calculate event w).1

  unfoldable pub handle_each : List Call → World (StatisticDb V) → World (StatisticDb V)
  unfolding handle
  handle_each [] w = w
  handle_each (c ∷ rest) w = handle_each rest (handle c w)

  handle-Announced :
      (c : Call) (w : World (StatisticDb V))
      → Announced platform own w.db
      → Announced platform own (handle c w).db
  unfolding handle
  handle-Announced (window evt) w h = (window-Announced evt).at w h
  handle-Announced (calculated event) w h = (calculated-Announced event).at w h

  -- From tables in which the statistic of every published event is stored and completed, any sequence
  -- of closed windows and calculated statistics, whichever calls fail and whatever the telemetry and
  -- the calculator answer, leads to such tables: a statistic is announced only once it is stored.
  pub handle_each-Announced :
      (calls : List Call) (w : World (StatisticDb V))
      → Announced platform own w.db
      → Announced platform own (handle_each calls w).db
  unfolding handle_each
  handle_each-Announced [] w h = h
  handle_each-Announced (c ∷ rest) w h =
      handle_each-Announced rest (handle c w) (handle-Announced c w h)
