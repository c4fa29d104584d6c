-- ===== src/Alarms/Calls.antt =====
-- Sequences of calls of the alarm service: the invariant of the table and the life of its rows.
use microgrid_cloud.Prelude.{ℕ, String, List, [], ◌∷◌, Option, Float64}
use microgrid_cloud.Prelude.Platform.{Platform}
use microgrid_cloud.Prelude.Exec.{World}
use microgrid_cloud.Prelude.Tables.{Grows-refl}
use microgrid_cloud.Alarms.Domain.{Status, Alarm, TelemetryReceived}
use microgrid_cloud.Alarms.Repository.{AlarmDb}
use microgrid_cloud.Alarms.Invariant.{Valid}
use microgrid_cloud.Alarms.Lifecycle.{Evolves, Moves, Moves-refl}
use microgrid_cloud.Alarms.Samples.{Sample}
use microgrid_cloud.Alarms.Safety.{Tracks}
use microgrid_cloud.Alarms.Service.{
  Service, handle_telemetry_received, ack_alarm, clear_alarm, list_alarms,
}
use microgrid_cloud.Alarms.Operations.{
  handle-Keeps, ack_alarm-Keeps, clear_alarm-Keeps, list_alarms_all-Keeps,
}

-- The calls that reach the service: messages from the event bus, and requests from the HTTP handler.
pub data Call (V : Type 0) : Type 0 where
  telemetry : (List (String × Sample V) → List (String × Sample V)) → TelemetryReceived V → Call V
  acks clears : String → String → Call V
  lists : String → String → Option Status → ℕ → ℕ → Call V

module _ {V : Type 0} ⦃f : Float64 V⦄ (platform : Platform) (service : Service) where
  -- A call leaves the state that its method left, also where the method failed.
  unfoldable pub serve : Call V → World (AlarmDb V) → World (AlarmDb V)
  serve (telemetry order evt) w = (handle_telemetry_received platform service order evt w).1
  serve (acks tenant id) w = (ack_alarm platform service tenant id w).1
  serve (clears tenant id) w = (clear_alarm platform service tenant id w).1
  serve (lists tenant id status from to) w =
      (list_alarms platform service tenant id status from to w).1

  unfoldable pub serve_all : List (Call V) → World (AlarmDb V) → World (AlarmDb V)
  unfolding serve
  serve_all [] w = w
  serve_all (c ∷ cs) w = serve_all cs (serve c w)

  serve-Keeps :
      (earlier : List (Alarm V)) (c : Call V) (w : World (AlarmDb V))
      → Tracks earlier w.db
      → Tracks earlier (serve c w).db
  unfolding serve
  serve-Keeps earlier (telemetry order evt) w h =
      (handle-Keeps platform service earlier order evt).at w h
  serve-Keeps earlier (acks tenant id) w h =
      (ack_alarm-Keeps platform service earlier tenant id).at w h
  serve-Keeps earlier (clears tenant id) w h =
      (clear_alarm-Keeps platform service earlier tenant id).at w h
  serve-Keeps earlier (lists tenant id status from to) w h =
      (list_alarms_all-Keeps platform service earlier tenant id status from to).at w h

  serve_all-Keeps :
      (earlier : List (Alarm V)) (cs : List (Call V)) (w : World (AlarmDb V))
      → Tracks earlier w.db
      → Tracks earlier (serve_all cs w).db
  unfolding serve_all
  serve_all-Keeps earlier [] w h = h
  serve_all-Keeps earlier (c ∷ cs) w h =
      serve_all-Keeps earlier cs (serve c w) (serve-Keeps earlier c w h)

module _ {V : Type 0} ⦃f : Float64 V⦄ (platform : Platform) (service : Service) where
  -- From a table in which no two rows have one id or are open alarms of one tenant, rule and
  -- originator, any sequence of telemetry, acknowledgements, clearings and listings, whichever of
  -- their database calls fail, leads to such a table again.
  pub serve_all-Valid :
      (cs : List (Call V)) (w : World (AlarmDb V))
      → Valid w.db.alarms
      → Valid (serve_all platform service cs w).db.alarms
  serve_all-Valid cs w v =
      (serve_all-Keeps platform service w.db.alarms cs w
        (v, Grows-refl Moves Moves-refl w.db.alarms)).0

  -- Over any sequence of calls, from a valid table, no alarm is lost or changes its identity, and
  -- no status goes back from acknowledged to active or from cleared to either.
  pub serve_all-Evolves :
      (cs : List (Call V)) (w : World (AlarmDb V))
      → Valid w.db.alarms
      → Evolves w.db.alarms (serve_all platform service cs w).db.alarms
  serve_all-Evolves cs w v =
      (serve_all-Keeps platform service w.db.alarms cs w
        (v, Grows-refl Moves Moves-refl w.db.alarms)).1
