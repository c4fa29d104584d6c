-- ===== src/Shadowrun/Answers.antt =====
-- What a run answers when its job is there already.
use Prim.Native.Nat.{suc}
use microgrid_cloud.Prelude.{
  ℕ, String, List, [], ◌∷◌, arith, Bool, true, false, ◌||◌, Option, none, some, ◌≡◌, refl, ◌==◌,
  Float64, any_where, find_first, day_start, Bool-cases, inl, inr,
}
use microgrid_cloud.Prelude.Platform.{Platform}
use microgrid_cloud.Prelude.Exec.{calm, ok, err, ◌>>=◌}
use microgrid_cloud.Shadowrun.Domain.{Thresholds, Job, succeeded, ShadowDb, nil_job, Numerals}
use microgrid_cloud.Shadowrun.Config.{Config}
use microgrid_cloud.Shadowrun.Repository.{
  has_job_id, has_report_id, same_key, insert_job, get_job_by_key, create_job, get_report,
}
use microgrid_cloud.Shadowrun.Steps.{validate_month, job_id_for, new_job, found_or_none}
use microgrid_cloud.Shadowrun.Runner.{resume_at, resume, run}

find_first-any :
    {A : Type 0} (p : A → Bool) (xs : List A) (x : A)
    → find_first p xs ≡ some x
    → any_where p xs ≡ true
unfolding find_first any_where
find_first-any p [] x h = cc
find_first-any p (y ∷ ys) x h = elim (Bool-cases (p y)) [
  | inl hit ↦ rw hit refl
  | inr miss ↦ rw miss (find_first-any p ys x (rw miss at h))
]

find_first-none :
    {A : Type 0} (p : A → Bool) (xs : List A) → any_where p xs ≡ false → find_first p xs ≡ none
unfolding find_first any_where
find_first-none p [] h = refl
find_first-none p (y ∷ ys) h = elim (Bool-cases (p y)) [
  | inl hit ↦ ground (arith, h)
  | inr miss ↦ rw miss (find_first-none p ys (rw miss at h))
]

module _ {V : Type 0} ⦃f : Float64 V⦄ ⦃n : Numerals V⦄ (platform : Platform) (config : Config V)
    (has_notifier : Bool) (tenant_id station_id : String) (month date : ℕ)
    (override : Option (Thresholds V)) (d : ShadowDb V) (clock : ℕ → ℕ) (reads : ℕ) where
  abbrev pub wanted : Job
  wanted = new_job platform tenant_id station_id (platform.month_start month) (day_start date)

  -- A run whose job has succeeded, where no call of the database fails, changes nothing and is
  -- answered without a report and without an error, unless some report has the job's own id: the
  -- reports that runs store have another, "report-" and the id of the job.
  pub succeeded_unanswered :
      (job : Job)
      → (tenant_id == "" || station_id == "") ≡ false
      → validate_month
          (platform.month_start month)
          (platform.next_month (platform.month_start month))
        ≡ ok tt
      → find_first (same_key wanted) d.jobs ≡ some job
      → job.status ≡ succeeded
      → any_where (has_report_id job.id) d.reports ≡ false
      → run platform config has_notifier tenant_id station_id month date override
          (calm d clock reads)
        ≡ (ok none, calm d clock (suc reads))
  unfolding run create_job insert_job get_job_by_key resume resume_at get_report found_or_none ◌>>=◌
  succeeded_unanswered job named valid found done free =
      let there = find_first-any (same_key wanted) d.jobs job found in
      let no_report = find_first-none (has_report_id job.id) d.reports free in
      rw (named, valid, there, found, done, no_report) refl

  -- A run with no job of its own, whose id is taken by another job, such as that of another tenant
  -- for a station with the same id, the same month and day, panics where no call of the database
  -- fails: the insert fails, its error is dropped, and no job is found. Nothing is changed.
  pub taken_id_panics :
      (tenant_id == "" || station_id == "") ≡ false
      → validate_month
          (platform.month_start month)
          (platform.next_month (platform.month_start month))
        ≡ ok tt
      → any_where (same_key wanted) d.jobs ≡ false
      → any_where
          (has_job_id
            (job_id_for platform station_id (platform.month_start month) (day_start date)))
          d.jobs
        ≡ true
      → run platform config has_notifier tenant_id station_id month date override
          (calm d clock reads)
        ≡ (err nil_job, calm d clock (suc reads))
  unfolding run create_job insert_job get_job_by_key resume new_job ◌>>=◌
  taken_id_panics named valid own taken =
      rw (named, valid, own, taken, find_first-none (same_key wanted) d.jobs own) refl
