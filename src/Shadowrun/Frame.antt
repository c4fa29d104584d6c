-- ===== src/Shadowrun/Frame.antt =====
-- What is about the jobs and reports alone is kept by the queries, the files and the alerts of a run.
use microgrid_cloud.Prelude.{ℕ, String, List, Bool, Option, none, some, Float64}
use microgrid_cloud.Prelude.Platform.{Platform}
use microgrid_cloud.Prelude.Exec.{Result, ok, err, Keeps}
use microgrid_cloud.Prelude.Exec.Rules.{
  keeps_rules, Keeps-bind, Keeps-attempt, Keeps-guard, Keeps-modify, Keeps-now, Keeps-with_db,
  Keeps-pure, Keeps-caught,
}
use microgrid_cloud.Shadowrun.Domain.{
  ReconcileResult, Thresholds, DiffSummary, Report, ShadowrunAlert, AlertMessage, ReportFile,
  ShadowDb, ShadowError, Content, Numerals,
}
use microgrid_cloud.Shadowrun.Config.{Config}
use microgrid_cloud.Shadowrun.Reconcile.{
  Tariff, load_tariff, load_rules, tariff_or, load_hour_stats, load_day_stats, load_settlements,
  load_statements, reconcile,
}
use microgrid_cloud.Shadowrun.Reports.{write_file, write_reports, write_archive}
use microgrid_cloud.Shadowrun.Repository.{create_system_alert}
use microgrid_cloud.Shadowrun.Steps.{create_alert, send_alert}
use microgrid_cloud.Shadowrun.Runner.{alert_if_exceeded}

-- What is about the jobs and reports alone is kept by all that writes neither.
module _ {V : Type 0} ⦃f : Float64 V⦄ ⦃n : Numerals V⦄ (platform : Platform) (config : Config V)
    (has_notifier : Bool) (P : ShadowDb V → Type 0)
    (files : (d : ShadowDb V) → P d → (x : List (ReportFile V)) → P (record d { files = x }))
    (alerts : (d : ShadowDb V) → P d → (x : List (ShadowrunAlert V)) → P (record d { alerts = x }))
    (sent : (d : ShadowDb V) → P d → (x : List (AlertMessage V)) → P (record d { sent = x })) where
  pub write_file-Keeps : (dir name : String) (c : Content V) → Keeps P (write_file dir name c)
  unfolding write_file
  write_file-Keeps dir name c =
      Keeps-bind _ _ (Keeps-attempt _) λ _. Keeps-modify _ λ d h. files d h _

  pub write_reports-Keeps :
      (dir : String) (r : ReconcileResult V) → Keeps P (write_reports platform dir r)
  unfolding write_reports
  write_reports-Keeps dir r = search (keeps_rules, write_file-Keeps)

  pub write_archive-Keeps : (dir : String) → Keeps P (write_archive dir)
  unfolding write_archive
  write_archive-Keeps dir = search (keeps_rules, write_file-Keeps)

  load_rules-Keeps : (plan : Option _) → Keeps P (load_rules plan)
  unfolding load_rules
  load_rules-Keeps none = search keeps_rules
  load_rules-Keeps (some plan) = search keeps_rules

  tariff_or-Keeps : (price : V) (r : Result ShadowError (Tariff V)) → Keeps P (tariff_or price r)
  unfolding tariff_or
  tariff_or-Keeps price (ok t) = Keeps-pure _
  tariff_or-Keeps price (err e) = search keeps_rules

  load_tariff-Keeps : (t s : String) (m : ℕ) → Keeps P (load_tariff t s m)
  unfolding load_tariff
  load_tariff-Keeps t s m = search (keeps_rules, load_rules-Keeps)

  load_hour_stats-Keeps :
      (s : String) (from to : ℕ) (t : Tariff V) → Keeps P (load_hour_stats s from to t)
  unfolding load_hour_stats
  load_hour_stats-Keeps s from to t = search keeps_rules

  load_day_stats-Keeps : (s : String) (from to : ℕ) → Keeps P (load_day_stats s from to)
  unfolding load_day_stats
  load_day_stats-Keeps s from to = search keeps_rules

  load_settlements-Keeps : (t s : String) (from to : ℕ) → Keeps P (load_settlements t s from to)
  unfolding load_settlements
  load_settlements-Keeps t s from to = search keeps_rules

  load_statements-Keeps : (t s : String) (m : ℕ) → Keeps P (load_statements t s m)
  unfolding load_statements
  load_statements-Keeps t s m = search keeps_rules

  pub reconcile-Keeps :
      (tenant_id station_id : String) (start end : ℕ) (price : V)
      → Keeps P (reconcile tenant_id station_id start end price)
  unfolding reconcile
  reconcile-Keeps tenant_id station_id start end price =
      Keeps-bind _ _ (Keeps-caught _ (load_tariff-Keeps tenant_id station_id start)) λ loaded.
        Keeps-bind _ _ (tariff_or-Keeps price loaded) λ t.
          Keeps-bind _ _ (load_hour_stats-Keeps station_id start end t) λ _.
            Keeps-bind _ _ (load_day_stats-Keeps station_id start end) λ _.
              Keeps-bind _ _ (load_settlements-Keeps tenant_id station_id start end) λ _.
                Keeps-bind _ _ (load_statements-Keeps tenant_id station_id start) λ _. Keeps-pure _

  send_alert-Keeps : (m : AlertMessage V) → Keeps P (send_alert m)
  unfolding send_alert
  send_alert-Keeps m = Keeps-bind _ _ (Keeps-attempt _) λ _. Keeps-modify _ λ d h. sent d h _

  create_system_alert-Keeps : (a : ShadowrunAlert V) → Keeps P (create_system_alert a)
  unfolding create_system_alert
  create_system_alert-Keeps a = Keeps-bind _ _ Keeps-now λ _. Keeps-bind _ _ (Keeps-attempt _) λ _.
      Keeps-bind _ _ (Keeps-with_db _ λ _. Keeps-guard _ _) λ _. Keeps-modify _ λ d h. alerts d h _

  create_alert-Keeps :
      (r : Report V) (s : DiffSummary V) (recommended : String)
      → Keeps P (create_alert config has_notifier r s recommended)
  unfolding create_alert
  create_alert-Keeps r s recommended =
      search (keeps_rules, create_system_alert-Keeps, send_alert-Keeps)

  pub alert_if_exceeded-Keeps :
      (r : Report V) (s : DiffSummary V) (t : Thresholds V) (recommended : String)
      → Keeps P (alert_if_exceeded platform config has_notifier r s t recommended)
  unfolding alert_if_exceeded
  alert_if_exceeded-Keeps r s t recommended = search (keeps_rules, create_alert-Keeps)
