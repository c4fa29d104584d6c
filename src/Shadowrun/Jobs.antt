-- ===== src/Shadowrun/Jobs.antt =====
-- Jobs that succeed and their reports, over a whole run.
use microgrid_cloud.Prelude.{
  ℕ, String, ◌+++◌, List, [], ◌∷◌, Bool, true, false, Option, none, some, ◌≡◌, refl, Float64,
}
use microgrid_cloud.Prelude.Platform.{Platform}
use microgrid_cloud.Prelude.Exec.{
  Result, ok, err, Keeps, Triple, caught, now, ignore, pure, ◌>>=◌, ◌>>◌,
}
use microgrid_cloud.Prelude.Exec.Rules.{
  keeps_rules, Keeps-bind, Keeps-guard, Keeps-now, Keeps-ignore, Keeps-if, Keeps-pure, Keeps-raise,
  Keeps-caught, Keeps-triple, triple-Keeps, Triple-bind, Triple-pure, Triple-raise, Keeps-lift,
}
use microgrid_cloud.Prelude.Exec.Reads.{Triple-caught}
use microgrid_cloud.Shadowrun.Domain.{
  Thresholds, DiffSummary, Job, JobStatus, created, running, succeeded, failed, Report, ShadowDb,
  ShadowError, Numerals,
}
use microgrid_cloud.Shadowrun.Config.{Config}
use microgrid_cloud.Shadowrun.Reports.{write_summary_json}
use microgrid_cloud.Shadowrun.Frame.{
  write_reports-Keeps, write_file-Keeps, write_archive-Keeps, reconcile-Keeps,
  alert_if_exceeded-Keeps,
}
use microgrid_cloud.Shadowrun.Repository.{update_job_status, create_report, get_report}
use microgrid_cloud.Shadowrun.Steps.{fail_job, or_fail, new_job}
use microgrid_cloud.Shadowrun.Runner.{
  alert_if_exceeded, execute, resume_at, resume, run, logged, run_once, report_of,
}
use microgrid_cloud.Shadowrun.Backed.{
  Backed, BackedWith, update_job_status-Keeps, update_backed-Keeps, or_fail-Keeps, create_job-Keeps,
  create_report-stores,
}

module _ {V : Type 0} ⦃f : Float64 V⦄ ⦃n : Numerals V⦄ (platform : Platform) (config : Config V)
    (has_notifier : Bool) where
  -- The result of storing the report, as the run looks at it.
  Stored : String → Result ShadowError (Unit {0}) → ShadowDb V → Type 0
  Stored id (ok x) d = BackedWith id d
  Stored id (err e) d = Backed d

  report_settled :
      (id : String) (started : ℕ) (r : Result ShadowError (Unit {0}))
      → Triple (Stored id r) (or_fail id started r) (λ _. BackedWith id) Backed
  unfolding Stored or_fail fail_job
  report_settled id started (ok x) = Triple-pure _ λ s h. h
  report_settled id started (err e) = Triple-bind _ _ (triple-Keeps _ Keeps-now λ s h. h) λ ended.
      Triple-bind _ _
        (triple-Keeps _
          (Keeps-ignore _ (update_job_status-Keeps id failed (some e) started ended false refl))
          λ s h. h)
        λ _. Triple-raise _ λ s h. h

  finish :
      (id : String) (r : Report V) (s : DiffSummary V) (t : Thresholds V) (recommended : String)
      → Keeps (BackedWith id) (alert_if_exceeded platform config has_notifier r s t recommended)
  finish id r s t recommended =
      alert_if_exceeded-Keeps platform config has_notifier (BackedWith id) (λ d h x. h) (λ d h x. h)
        (λ d h x. h) r s t recommended

  -- The last part of a run: its report is stored, and the job may succeed.
  conclude :
      (id : String) (r : Report V) (s : DiffSummary V) (t : Thresholds V) (recommended : String)
      (started : ℕ)
      → r.id ≡ "report-" +++ id
      → Triple Backed
          (do
            stored ← caught (create_report r)
            or_fail id started stored
            alert_if_exceeded platform config has_notifier r s t recommended
            ended ← now
            ignore (update_job_status id succeeded none started ended false)
            pure r)
          (λ _. Backed)
          Backed
  unfolding Stored
  conclude id r s t recommended started named =
      Triple-bind {Q = Stored id} _ _
        (Triple-caught _ (create_report-stores r id named) (λ x s h. h) (λ e s h. h))
        λ stored. Triple-bind _ _ (report_settled id started stored) λ _.
          Triple-bind _ _ (triple-Keeps _ (finish id r s t recommended) λ s h. h.0) λ _.
            Triple-bind _ _ (triple-Keeps _ Keeps-now λ s h. h.0) λ ended.
              Triple-bind _ _
                (triple-Keeps _ (Keeps-ignore _ (update_backed-Keeps id none started ended false))
                  λ s h. h.0)
                λ _. Triple-pure _ λ s h. h.0

  execute-Backed :
      (tenant_id station_id : String) (start end date : ℕ) (override : Option (Thresholds V))
      (job : Job)
      → Keeps Backed
          (execute platform config has_notifier tenant_id station_id start end date override job)
  unfolding execute report_of write_summary_json
  execute-Backed tenant_id station_id start end date override job =
      Keeps-bind _ _ Keeps-now λ started.
        Keeps-bind _ _
          (Keeps-ignore _ (update_job_status-Keeps job.id running none started 0 true refl))
          λ _.
            Keeps-bind _ _
              (Keeps-caught _ (
                reconcile-Keeps platform config has_notifier Backed (λ d h x. h) (λ d h x. h)
                  (λ d h x. h) tenant_id station_id start end config.fallback_price))
              λ compared. Keeps-bind _ _ (or_fail-Keeps job.id started compared) λ result.
                Keeps-bind _ _
                  (Keeps-caught _ (
                    write_reports-Keeps platform config has_notifier Backed (λ d h x. h)
                      (λ d h x. h) (λ d h x. h) _ result))
                  λ written. Keeps-bind _ _ (or_fail-Keeps job.id started written) λ _.
                    Keeps-bind _ _ Keeps-now λ t.
                      Keeps-bind _ _
                        (Keeps-ignore _ (
                          Keeps-bind _ _
                            (write_file-Keeps platform config has_notifier Backed (λ d h x. h)
                              (λ d h x. h) (λ d h x. h) _ _ _)
                            λ _. Keeps-if _ _ _ (Keeps-pure _) (Keeps-raise _)))
                        λ _.
                          Keeps-bind _ _
                            (Keeps-caught _ (
                              write_archive-Keeps platform config has_notifier Backed (λ d h x. h)
                                (λ d h x. h) (λ d h x. h) _))
                            λ archived.
                              Keeps-bind _ _ (or_fail-Keeps job.id started archived) λ location.
                                Keeps-bind _ _ Keeps-now
                                  λ at. Keeps-triple _ (conclude job.id _ _ _ _ started refl)

  resume_at-Backed :
      (tenant_id station_id : String) (start end date : ℕ) (override : Option (Thresholds V))
      (job : Job) (status : JobStatus)
      → Keeps Backed (
          resume_at platform config has_notifier tenant_id station_id start end date override job
            status)
  unfolding resume_at get_report
  resume_at-Backed tenant_id station_id start end date override job succeeded = search keeps_rules
  resume_at-Backed tenant_id station_id start end date override job running = Keeps-raise _
  resume_at-Backed tenant_id station_id start end date override job created =
      Keeps-bind _ _ (execute-Backed tenant_id station_id start end date override job)
        λ r. Keeps-pure _
  resume_at-Backed tenant_id station_id start end date override job failed =
      Keeps-bind _ _ (execute-Backed tenant_id station_id start end date override job)
        λ r. Keeps-pure _

  resume-Backed :
      (tenant_id station_id : String) (start end date : ℕ) (override : Option (Thresholds V))
      (job : Option Job)
      → Keeps Backed
          (resume platform config has_notifier tenant_id station_id start end date override job)
  unfolding resume
  resume-Backed tenant_id station_id start end date override none = Keeps-raise _
  resume-Backed tenant_id station_id start end date override (some job) =
      resume_at-Backed tenant_id station_id start end date override job job.status

  pub run-Backed :
      (tenant_id station_id : String) (month date : ℕ) (override : Option (Thresholds V))
      → Keeps Backed (run platform config has_notifier tenant_id station_id month date override)
  unfolding run new_job
  run-Backed tenant_id station_id month date override = Keeps-bind _ _ (Keeps-guard _ _) λ _.
      Keeps-bind _ _ (Keeps-lift _) λ _.
        Keeps-bind _ _ (create_job-Keeps _ refl)
          λ job. resume-Backed tenant_id station_id _ _ _ override job

  logged-Backed :
      (r : Result ShadowError (Option (Report V)))
      → Keeps Backed (logged platform config has_notifier r)
  unfolding logged
  logged-Backed (ok r) = Keeps-pure _
  logged-Backed (err e) = Keeps-if _ _ _ (Keeps-raise _) (Keeps-pure _)

  pub run_once-Backed :
      (tenant_id : String) (stations : List String) (tick : ℕ)
      → Keeps Backed (run_once platform config has_notifier tenant_id stations tick)
  unfolding run_once
  run_once-Backed tenant_id [] tick = Keeps-pure _
  run_once-Backed tenant_id (station_id ∷ rest) tick =
      Keeps-bind _ _
        (Keeps-caught _ (Keeps-if _ _ _ (Keeps-pure _) (run-Backed tenant_id station_id _ _ none)))
        λ r. Keeps-bind _ _ (logged-Backed r) λ _. run_once-Backed tenant_id rest tick
