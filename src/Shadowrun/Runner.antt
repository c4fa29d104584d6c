-- ===== src/Shadowrun/Runner.antt =====
-- A shadow run: backend/internal/shadowrun/application/runner.go and the loop of scheduler.go. The
-- metrics and the log are left out.
use microgrid_cloud.Prelude.{
  ℕ, String, ◌+++◌, List, [], ◌∷◌, Bool, true, false, not, ◌||◌, Option, none, some, ◌==◌,
  if◌then◌else◌, Float64, day_start,
}
use microgrid_cloud.Prelude.Platform.{Platform}
use microgrid_cloud.Prelude.Exec.{
  Result, ok, err, pure, raise, lift, now, caught, ignore, guard, ◌>>=◌, ◌>>◌,
}
use microgrid_cloud.Shadowrun.Domain.{
  Thresholds, DiffSummary, Job, JobStatus, created, running, succeeded, failed, Report,
  ids_required, already_running, ShadowError, nil_job, panics, Numerals,
}
use microgrid_cloud.Shadowrun.Config.{Config, thresholds_for_station, merged}
use microgrid_cloud.Shadowrun.Reconcile.{Act, reconcile}
use microgrid_cloud.Shadowrun.Diff.{build_diff_summary, is_threshold_exceeded, recommended_action}
use microgrid_cloud.Shadowrun.Reports.{write_reports, encoded, write_summary_json, write_archive}
use microgrid_cloud.Shadowrun.Repository.{create_job, update_job_status, get_report, create_report}
use microgrid_cloud.Shadowrun.Steps.{validate_month, new_job, found_or_none, create_alert, or_fail}

module _ {V : Type 0} ⦃f : Float64 V⦄ ⦃n : Numerals V⦄ (platform : Platform) (config : Config V)
    (has_notifier : Bool) where
  -- As `filepath.Join` joins names without dots or slashes.
  unfoldable pub report_dir : String → String → ℕ → String → String
  report_dir tenant_id station_id month_start job_id =
      config.storage_root
      +++ "/"
      +++ tenant_id
      +++ "/"
      +++ station_id
      +++ "/"
      +++ platform.format_month month_start
      +++ "/"
      +++ job_id

  unfoldable pub report_of :
      String → String → Job → ℕ → ℕ → String → DiffSummary V → String → ℕ → Report V
  report_of tenant_id station_id job month_start job_date location s recommended t = record {
    id = "report-" +++ job.id;
    job_id = job.id;
    tenant_id = tenant_id;
    station_id = station_id;
    month = month_start;
    report_date = job_date;
    status = "generated";
    location = location;
    diff_summary = encoded s;
    diff_energy_kwh_max = s.diff_energy_max;
    diff_amount_max = s.diff_amount_max;
    missing_hours = s.missing_hours_total;
    recommended_action = recommended;
    created_at = t;
  }

  -- The alert of a report, whose failure is only logged.
  unfoldable pub alert_if_exceeded :
      Report V → DiffSummary V → Thresholds V → String → Act V (Unit {0})
  unfolding create_alert
  alert_if_exceeded r s thresholds recommended =
      if is_threshold_exceeded s thresholds
      then ignore (create_alert config has_notifier r s recommended)
      else pure tt

  -- From the marking of the job as running on.
  unfoldable pub execute :
      String → String → ℕ → ℕ → ℕ → Option (Thresholds V) → Job → Act V (Report V)
  unfolding or_fail report_dir report_of alert_if_exceeded
  execute tenant_id station_id month_start month_end job_date override job = do
    started ← now
    ignore (update_job_status job.id running none started 0 true)
    let thresholds = merged (thresholds_for_station config station_id) override
    compared ← caught (reconcile tenant_id station_id month_start month_end config.fallback_price)
    result ← or_fail job.id started compared
    let dir = report_dir tenant_id station_id month_start job.id
    written ← caught (write_reports platform dir result)
    or_fail job.id started written
    t ← now
    let s = build_diff_summary platform result month_start month_end job_date thresholds t
    ignore (write_summary_json dir s)
    archived ← caught (write_archive dir)
    location ← or_fail job.id started archived
    let recommended = recommended_action s thresholds
    at ← now
    let r = report_of tenant_id station_id job month_start job_date location s recommended at
    stored ← caught (create_report r)
    or_fail job.id started stored
    alert_if_exceeded r s thresholds recommended
    ended ← now
    ignore (update_job_status job.id succeeded none started ended false)
    pure r

  -- What a run does with a job that is in a status: one that has succeeded is answered with its
  -- report, which is asked for by the id of the job, an error of that query being dropped; a running
  -- one is refused.
  unfoldable pub resume_at :
      String
      → String
      → ℕ
      → ℕ
      → ℕ
      → Option (Thresholds V)
      → Job
      → JobStatus
      → Act V (Option (Report V))
  unfolding execute found_or_none
  resume_at tenant_id station_id month_start month_end job_date override job succeeded = do
    found ← caught (get_report job.id)
    pure (found_or_none found)
  resume_at tenant_id station_id month_start month_end job_date override job running =
      raise already_running
  resume_at tenant_id station_id month_start month_end job_date override job created = do
    r ← execute tenant_id station_id month_start month_end job_date override job
    pure (some r)
  resume_at tenant_id station_id month_start month_end job_date override job failed = do
    r ← execute tenant_id station_id month_start month_end job_date override job
    pure (some r)

  unfoldable pub resume :
      String → String → ℕ → ℕ → ℕ → Option (Thresholds V) → Option Job → Act V (Option (Report V))
  unfolding resume_at
  resume tenant_id station_id month_start month_end job_date override none = raise nil_job
  resume tenant_id station_id month_start month_end job_date override (some job) =
      resume_at tenant_id station_id month_start month_end job_date override job job.status

  unfoldable pub run : String → String → ℕ → ℕ → Option (Thresholds V) → Act V (Option (Report V))
  unfolding resume validate_month new_job
  run tenant_id station_id month date override = do
    guard (not (tenant_id == "" || station_id == "")) ids_required
    let job_date = day_start date
    let month_start = platform.month_start month
    let month_end = platform.next_month month_start
    lift (validate_month month_start month_end)
    job ← create_job (new_job platform tenant_id station_id month_start job_date)
    resume tenant_id station_id month_start month_end job_date override job

  -- An error is logged. A job that is nil panics, and nothing recovers: the round stops there.
  unfoldable pub logged : Result ShadowError (Option (Report V)) → Act V (Unit {0})
  logged (ok r) = pure tt
  logged (err e) = if panics e then raise e else pure tt

  -- One round of the scheduler; after the error of a station the others go on.
  unfoldable pub run_once : String → List String → ℕ → Act V (Unit {0})
  unfolding run logged
  run_once tenant_id [] tick = pure tt
  run_once tenant_id (station_id ∷ rest) tick = do
    r ← caught (
        if station_id == ""
        then pure none
        else run tenant_id station_id (platform.month_start tick) (day_start tick) none)
    logged r
    run_once tenant_id rest tick
