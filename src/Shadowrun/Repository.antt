-- ===== src/Shadowrun/Repository.antt =====
-- The SQL of backend/internal/shadowrun/infrastructure/postgres/repository.go on the tables of
-- backend/migrations/011_shadowrun.sql and 014_shadowrun_alerts.sql, with their keys.
use Prim.Native.Nat.{suc}
use microgrid_cloud.Prelude.{
  ℕ, String, List, [], ◌∷◌, ◌++◌, Bool, not, ◌&&◌, Option, ◌==◌, if◌then◌else◌, eqb, leb, ltb,
  find_first, select, update_where, any_where, sort_by,
}
use microgrid_cloud.Prelude.Exec.{
  gets, with_db, modify, now, attempt, guard, ignore, pure, ◌>>=◌, ◌>>◌,
}
use microgrid_cloud.Shadowrun.Domain.{
  Job, JobStatus, Report, ShadowrunAlert, ShadowDb, ShadowError, db_failed, report_exists,
  alert_exists,
}
use microgrid_cloud.Shadowrun.Reconcile.{Act}

abbrev pub has_job_id : String → Job → Bool
has_job_id id j = j.id == id

-- UNIQUE (tenant_id, station_id, month, job_date, job_type)
unfoldable pub same_key : Job → Job → Bool
same_key a b =
    b.tenant_id == a.tenant_id
    && (b.station_id == a.station_id
        && (eqb b.month a.month && (eqb b.job_date a.job_date && b.job_type == a.job_type)))

-- The `SET` clause; `bump` counts an attempt.
unfoldable pub with_status : JobStatus → Option ShadowError → ℕ → ℕ → Bool → ℕ → Job → Job
with_status status error started ended bump t j = record j {
  status = status;
  error = error;
  started_at = started;
  ended_at = ended;
  attempts = if bump then suc j.attempts else j.attempts;
  updated_at = t;
}

module _ {V : Type 0} where
  abbrev pub has_report_id : String → Report V → Bool
  has_report_id id r = r.id == id

  abbrev pub has_alert_id : String → ShadowrunAlert V → Bool
  has_alert_id id a = a.id == id

  -- `INSERT ... ON CONFLICT (key) DO NOTHING`: a row of the same key leaves the table as it is; a row
  -- of another key with the same id is a conflict that is not covered, and an error.
  unfoldable pub insert_job : Job → ℕ → Act V (Unit {0})
  unfolding same_key
  insert_job j t = do
    attempt db_failed
    with_db (λ d. if any_where (same_key j) d.jobs then pure tt else (do
      guard (not (any_where (has_job_id j.id) d.jobs)) db_failed
      modify (λ d. record d {
        jobs = d.jobs ++ record j { attempts = 0; created_at = t; updated_at = t } ∷ [];
      })))

  unfoldable pub get_job_by_key : Job → Act V (Option Job)
  unfolding same_key
  get_job_by_key j = do attempt db_failed; gets (λ d. find_first (same_key j) d.jobs)

  -- The error of the insert is dropped.
  unfoldable pub create_job : Job → Act V (Option Job)
  unfolding insert_job get_job_by_key
  create_job j = do t ← now; ignore (insert_job j t); get_job_by_key j

  unfoldable pub put_status :
      String → JobStatus → Option ShadowError → ℕ → ℕ → Bool → ℕ → ShadowDb V → ShadowDb V
  unfolding with_status
  put_status id status error started ended bump t d = record d {
    jobs = update_where (has_job_id id) (with_status status error started ended bump t) d.jobs;
  }

  unfoldable pub update_job_status :
      String → JobStatus → Option ShadowError → ℕ → ℕ → Bool → Act V (Unit {0})
  unfolding put_status
  update_job_status id status error started ended bump = do
    t ← now
    attempt db_failed
    modify (put_status id status error started ended bump t)

  unfoldable pub create_report : Report V → Act V (Unit {0})
  create_report r = do
    t ← now
    attempt db_failed
    with_db (λ d. guard (not (any_where (has_report_id r.id) d.reports)) report_exists)
    modify (λ d. record d { reports = d.reports ++ record r { created_at = t } ∷ [] })

  unfoldable pub list_reports : String → ℕ → ℕ → Act V (List (Report V))
  list_reports station_id from to = do
    attempt db_failed
    gets (λ d.
        sort_by (λ r s. leb s.report_date r.report_date)
          (select
            (λ r. r.station_id == station_id && (leb from r.report_date && ltb r.report_date to))
            d.reports))

  unfoldable pub get_report : String → Act V (Option (Report V))
  get_report id = do attempt db_failed; gets (λ d. find_first (has_report_id id) d.reports)

  unfoldable pub create_system_alert : ShadowrunAlert V → Act V (Unit {0})
  create_system_alert a = do
    t ← now
    attempt db_failed
    with_db (λ d. guard (not (any_where (has_alert_id a.id) d.alerts)) alert_exists)
    modify (λ d. record d { alerts = d.alerts ++ record a { created_at = t } ∷ [] })
