-- ===== src/Shadowrun/Steps.antt =====
-- The parts of a shadow run: its month, its job, its alert, and how it fails, of
-- backend/internal/shadowrun/application/runner.go.
use microgrid_cloud.Prelude.{
  ℕ, String, ◌+++◌, [], ◌∷◌, ◌++◌, Bool, false, ◌||◌, Option, none, some, if◌then◌else◌, is_zero,
  ltb,
}
use microgrid_cloud.Prelude.Platform.{Platform}
use microgrid_cloud.Prelude.Exec.{
  Result, ok, err, pure, raise, modify, now, ignore, attempt, ◌>>=◌, ◌>>◌,
}
use microgrid_cloud.Shadowrun.Domain.{
  DiffSummary, Job, created, failed, Report, AlertPayload, ShadowrunAlert, AlertMessage,
  ShadowError, invalid_month_range, notify_failed,
}
use microgrid_cloud.Shadowrun.Config.{Config}
use microgrid_cloud.Shadowrun.Reconcile.{Act}
use microgrid_cloud.Shadowrun.Repository.{update_job_status, create_system_alert}

unfoldable pub validate_month : ℕ → ℕ → Result ShadowError (Unit {0})
validate_month month_start month_end =
    if is_zero month_start || is_zero month_end
    then err invalid_month_range
    else if ltb month_start month_end
    then ok tt
    else err invalid_month_range

module _ (platform : Platform) where
  -- The id of a job has no tenant.
  unfoldable pub job_id_for : String → ℕ → ℕ → String
  job_id_for station_id month_start job_date =
      "sr-"
      +++ station_id
      +++ "-"
      +++ platform.format_month_compact month_start
      +++ "-"
      +++ platform.format_day job_date

  unfoldable pub new_job : String → String → ℕ → ℕ → Job
  unfolding job_id_for
  new_job tenant_id station_id month_start job_date = record {
    id = job_id_for station_id month_start job_date;
    tenant_id = tenant_id;
    station_id = station_id;
    month = month_start;
    job_date = job_date;
    job_type = "shadowrun";
    status = created;
    attempts = 0;
    error = none;
    created_at = 0;
    updated_at = 0;
    started_at = 0;
    ended_at = 0;
  }

module _ {V : Type 0} where
  unfoldable pub payload_of : DiffSummary V → String → AlertPayload V
  payload_of s recommended = record {
    diff_energy_max = s.diff_energy_max;
    diff_amount_max = s.diff_amount_max;
    missing_hours = s.missing_hours_total;
    late_data_count = s.late_data_count;
    recommended_action = recommended;
  }

  unfoldable pub alert_of : Report V → DiffSummary V → String → ℕ → ShadowrunAlert V
  unfolding payload_of
  alert_of r s recommended t = record {
    id = "alert-" +++ r.id;
    tenant_id = r.tenant_id;
    station_id = r.station_id;
    category = "shadowrun";
    severity = "high";
    title = "Shadowrun diff alert: " +++ r.station_id;
    message = "Diff exceeds threshold for " +++ r.station_id +++ " " +++ s.month;
    payload = payload_of s recommended;
    report_id = r.id;
    status = "open";
    created_at = t;
  }

  unfoldable pub message_of : String → Report V → DiffSummary V → String → AlertMessage V
  unfolding payload_of
  message_of public_base_url r s recommended = record {
    tenant_id = r.tenant_id;
    station_id = r.station_id;
    month = s.month;
    report_id = r.id;
    report_url = public_base_url +++ "/api/v1/shadowrun/reports/" +++ r.id +++ "/download";
    diff_summary = payload_of s recommended;
    recommended_action = recommended;
    job_id = r.job_id;
  }

  -- `report, _ := r.repo.GetReport(...)`.
  unfoldable pub found_or_none : Result ShadowError (Option (Report V)) → Option (Report V)
  found_or_none (ok r) = r
  found_or_none (err e) = none

  -- `notifier.Notify`, which may fail.
  unfoldable pub send_alert : AlertMessage V → Act V (Unit {0})
  send_alert m = do attempt notify_failed; modify (λ d. record d { sent = d.sent ++ m ∷ [] })

  unfoldable pub create_alert :
      Config V → Bool → Report V → DiffSummary V → String → Act V (Unit {0})
  unfolding alert_of message_of send_alert
  create_alert config has_notifier r s recommended = do
    t ← now
    create_system_alert (alert_of r s recommended t)
    if has_notifier then send_alert (message_of config.public_base_url r s recommended) else pure tt

  -- The job is marked as failed, if that succeeds, and the run ends with the error.
  unfoldable pub fail_job : {A : Type 0} → String → ℕ → ShadowError → Act V A
  fail_job id started e = do
    ended ← now
    ignore (update_job_status id failed (some e) started ended false)
    raise e

  -- A step of the run that fails its job.
  unfoldable pub or_fail : {A : Type 0} → String → ℕ → Result ShadowError A → Act V A
  unfolding fail_job
  or_fail id started (ok a) = pure a
  or_fail id started (err e) = fail_job id started e
