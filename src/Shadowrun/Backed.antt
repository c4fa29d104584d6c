-- ===== src/Shadowrun/Backed.antt =====
-- Jobs that have succeeded and their reports, by the operations on the tables.
use microgrid_cloud.Prelude.{
  ℕ, String, ◌+++◌, List, [], ◌∷◌, ◌++◌, Bool, true, false, not, ◌&&◌, Option, some, ◌≡◌, refl,
  arith, any_where, any_where-append, any_where-weaken, any_where-update, any_where_never, eq_iff,
  eq_refl,
}
use microgrid_cloud.Prelude.Exec.{Result, ok, err, Keeps, Triple}
use microgrid_cloud.Prelude.Exec.Rules.{
  keeps_rules, Keeps-bind, Keeps-attempt, Keeps-guard, Keeps-modify, Keeps-now, Keeps-with_db,
  Keeps-ignore, Keeps-if, Keeps-pure, Keeps-raise, triple-Keeps, Triple-bind, Triple-modify,
}
use microgrid_cloud.Shadowrun.Domain.{
  Job, JobStatus, succeeded, failed, Report, ShadowDb, ShadowError,
}
use microgrid_cloud.Shadowrun.Repository.{
  has_job_id, has_report_id, insert_job, get_job_by_key, create_job, with_status, put_status,
  update_job_status, create_report,
}
use microgrid_cloud.Shadowrun.Steps.{fail_job, or_fail}

abbrev pub is_succeeded : JobStatus → Bool
is_succeeded succeeded = true
is_succeeded _ = false

module _ {V : Type 0} where
  -- The report of a job is there.
  unfoldable pub reported : List (Report V) → String → Bool
  reported reports id = any_where (has_report_id ("report-" +++ id)) reports

  -- A job that has succeeded without its report.
  unfoldable pub unreported : List (Report V) → Job → Bool
  unreported reports j = is_succeeded j.status && not (reported reports j.id)

  abbrev pub Backed : ShadowDb V → Type 0
  Backed d = any_where (unreported d.reports) d.jobs ≡ false

  -- The invariant, and that the report of a job is there.
  abbrev pub BackedWith : String → ShadowDb V → Type 0
  BackedWith id d = Backed d × (reported d.reports id ≡ true)

  reported-append :
      (reports : List (Report V)) (r : Report V) (id : String)
      → reported reports id ≡ true
      → reported (reports ++ r ∷ []) id ≡ true
  unfolding reported
  reported-append reports r id h =
      rw (any_where-append (has_report_id ("report-" +++ id)) reports r, h) refl

  append-Backed :
      (d : ShadowDb V) (r : Report V)
      → Backed d
      → Backed (record d { reports = d.reports ++ r ∷ [] })
  unfolding unreported
  append-Backed d r h =
      any_where-weaken (unreported d.reports) (unreported (d.reports ++ r ∷ [])) d.jobs
        (λ j k. ground (arith, reported-append d.reports r j.id)) h

  stored-reported :
      (reports : List (Report V)) (r : Report V) (id : String)
      → r.id ≡ "report-" +++ id
      → reported (reports ++ r ∷ []) id ≡ true
  unfolding reported
  stored-reported reports r id named =
      let hit : has_report_id ("report-" +++ id) r ≡ true = rw named (eq_refl ("report-" +++ id)) in
      rw (any_where-append (has_report_id ("report-" +++ id)) reports r, hit) (ground arith)

  insert-Backed :
      (j : Job) (t : ℕ)
      → is_succeeded j.status ≡ false
      → (d : ShadowDb V) → Backed d
      → Backed (record d {
        jobs = d.jobs ++ record j { attempts = 0; created_at = t; updated_at = t } ∷ [];
      })
  unfolding unreported
  insert-Backed j t other d h = ground (
    arith,
    any_where-append (unreported d.reports) d.jobs
        (record j { attempts = 0; created_at = t; updated_at = t }),
  )

  -- A job that is not set to succeeded, or whose report is there.
  status-Backed :
      (id : String) (s : JobStatus) (e : Option ShadowError) (started ended : ℕ) (bump : Bool)
      (t : ℕ) (d : ShadowDb V)
      → (is_succeeded s && not (reported d.reports id)) ≡ false
      → Backed d
      → Backed (put_status id s e started ended bump t d)
  unfolding put_status unreported with_status
  status-Backed id s e started ended bump t d allowed h =
      any_where-update (unreported d.reports) (has_job_id id) (λ _. false) _ d.jobs
        (λ j hit b k. let same : j.id ≡ id = (eq_iff j.id id).0 hit in rw same allowed)
        (any_where_never d.jobs) h

module _ {V : Type 0} where
  pub update_job_status-Keeps :
      (id : String) (s : JobStatus) (e : Option ShadowError) (started ended : ℕ) (bump : Bool)
      → is_succeeded s ≡ false
      → Keeps (Backed {V = V}) (update_job_status id s e started ended bump)
  unfolding update_job_status
  update_job_status-Keeps id s e started ended bump other = Keeps-bind _ _ Keeps-now λ t.
      Keeps-bind _ _ (Keeps-attempt _) λ _.
        Keeps-modify _ λ d h. status-Backed id s e started ended bump t d (ground (arith, other)) h

  -- A job may succeed if its report is there.
  pub update_backed-Keeps :
      (id : String) (e : Option ShadowError) (started ended : ℕ) (bump : Bool)
      → Keeps (BackedWith {V = V} id) (update_job_status id succeeded e started ended bump)
  unfolding update_job_status
  update_backed-Keeps id e started ended bump = Keeps-bind _ _ Keeps-now λ t.
      Keeps-bind _ _ (Keeps-attempt _) λ _.
        Keeps-modify _ λ d h.
          (status-Backed id succeeded e started ended bump t d (ground (arith, h.1)) h.0, h.1)

  fail_job-Keeps :
      {A : Type 0} (id : String) (started : ℕ) (e : ShadowError)
      → Keeps (Backed {V = V}) (fail_job {A = A} id started e)
  unfolding fail_job
  fail_job-Keeps id started e = Keeps-bind _ _ Keeps-now λ ended.
      Keeps-bind _ _
        (Keeps-ignore _ (update_job_status-Keeps id failed (some e) started ended false refl))
        λ _. Keeps-raise _

  pub or_fail-Keeps :
      {A : Type 0} (id : String) (started : ℕ) (r : Result ShadowError A)
      → Keeps (Backed {V = V}) (or_fail id started r)
  unfolding or_fail
  or_fail-Keeps id started (ok a) = Keeps-pure _
  or_fail-Keeps id started (err e) = fail_job-Keeps id started e

  insert_job-Keeps :
      (j : Job) (t : ℕ) → is_succeeded j.status ≡ false → Keeps (Backed {V = V}) (insert_job j t)
  unfolding insert_job
  insert_job-Keeps j t other = Keeps-bind _ _ (Keeps-attempt _) λ _. Keeps-with_db _ λ s.
      Keeps-if _ _ _ (Keeps-pure _)
        (Keeps-bind _ _ (Keeps-guard _ _) λ _. Keeps-modify _ λ d h. insert-Backed j t other d h)

  pub create_job-Keeps :
      (j : Job) → is_succeeded j.status ≡ false → Keeps (Backed {V = V}) (create_job j)
  unfolding create_job get_job_by_key
  create_job-Keeps j other =
      Keeps-bind _ _ Keeps-now
        λ t. Keeps-bind _ _ (Keeps-ignore _ (insert_job-Keeps j t other)) λ _. search keeps_rules

  -- A report that is stored is there.
  pub create_report-stores :
      (r : Report V) (id : String)
      → r.id ≡ "report-" +++ id
      → Triple Backed (create_report r) (λ _. BackedWith id) Backed
  unfolding create_report
  create_report-stores r id named = Triple-bind _ _ (triple-Keeps _ Keeps-now λ s h. h) λ t.
      Triple-bind _ _ (triple-Keeps _ (Keeps-attempt _) λ s h. h) λ _.
        Triple-bind _ _ (triple-Keeps _ (Keeps-with_db _ λ _. Keeps-guard _ _) λ s h. h) λ _.
          Triple-modify _ λ d h.
            (append-Backed d _ h, stored-reported d.reports (record r { created_at = t }) id named)
