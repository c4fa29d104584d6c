-- ===== src/Shadowrun/Calls.antt =====
-- Sequences of runs, asked for by hand or by the scheduler, and what they keep.
use microgrid_cloud.Prelude.{ℕ, String, List, [], ◌∷◌, Bool, Option, Float64}
use microgrid_cloud.Prelude.Platform.{Platform}
use microgrid_cloud.Prelude.Exec.{World}
use microgrid_cloud.Shadowrun.Domain.{Thresholds, ShadowDb, Numerals}
use microgrid_cloud.Shadowrun.Config.{Config}
use microgrid_cloud.Shadowrun.Runner.{run, run_once}
use microgrid_cloud.Shadowrun.Backed.{Backed}
use microgrid_cloud.Shadowrun.Jobs.{run-Backed, run_once-Backed}

pub data Call (V : Type 0) : Type 0 where
  manual : String → String → ℕ → ℕ → Option (Thresholds V) → Call V
  scheduled : String → List String → ℕ → Call V

module _ {V : Type 0} ⦃f : Float64 V⦄ ⦃n : Numerals V⦄ (platform : Platform) (config : Config V)
    (has_notifier : Bool) where
  unfoldable pub perform : Call V → World (ShadowDb V) → World (ShadowDb V)
  perform (manual tenant_id station_id month date override) w =
      (run platform config has_notifier tenant_id station_id month date override w).1
  perform (scheduled tenant_id stations tick) w =
      (run_once platform config has_notifier tenant_id stations tick w).1

  unfoldable pub perform_all : List (Call V) → World (ShadowDb V) → World (ShadowDb V)
  unfolding perform
  perform_all [] w = w
  perform_all (c ∷ rest) w = perform_all rest (perform c w)

  perform-Backed : (c : Call V) (w : World (ShadowDb V)) → Backed w.db → Backed (perform c w).db
  unfolding perform
  perform-Backed (manual tenant_id station_id month date override) w h =
      (run-Backed platform config has_notifier tenant_id station_id month date override).at w h
  perform-Backed (scheduled tenant_id stations tick) w h =
      (run_once-Backed platform config has_notifier tenant_id stations tick).at w h

  -- From tables in which every succeeded job has its report, any sequence of runs, by hand or by the
  -- scheduler, whichever calls of the database, the file system and the notifier fail, leads to such
  -- tables.
  pub perform_all-Backed :
      (calls : List (Call V)) (w : World (ShadowDb V))
      → Backed w.db
      → Backed (perform_all calls w).db
  unfolding perform_all
  perform_all-Backed [] w h = h
  perform_all-Backed (c ∷ rest) w h = perform_all-Backed rest (perform c w) (perform-Backed c w h)
