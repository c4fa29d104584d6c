-- ===== src/Shadowrun/Days.antt =====
-- Which days a summary compares, and what each of them holds.
use Prim.Native.Nat.{zero, suc}
use microgrid_cloud.Prelude.{
  ◌&&◌, ℕ, ◌+◌, ◌*◌, ◌≤◌, List, [], ◌∷◌, ◌++◌, Bool, true, false, Option, none, some, ◌≡◌, refl,
  sym, ap, ◌∙◌, arith, if◌then◌else◌, eqb, leb, ltb, Float64, Bool-cases, Option-cases, inl, inr,
  select, sort_by, All, get_elem?, one_day, day_start,
}
use mathlib.Core.List.{append-nil, append_assoc}
use microgrid_cloud.Prelude.Platform.{Platform}
use microgrid_cloud.Prelude.Sorting.{by_key, Ascending, sort_by_of_Ascending}
use microgrid_cloud.Shadowrun.Domain.{HourStat, SettlementRow, ReconcileResult, DiffDay, Thresholds}
use microgrid_cloud.Shadowrun.Diff.{
  group_hours, index_settlements, end_date, days_loop, rounds_for, days_from, diff_day, Progress,
  add_day, compare_days, compare_month, build_diff_summary,
}

-- The last row that passes a test.
unfoldable pub find_last : {A : Type 0} → (A → Bool) → List A → Option A
find_last p [] = none
find_last p (x ∷ xs) = elim (find_last p xs) [
  | some y ↦ some y
  | none ↦ if p x then some x else none
]

module _ {V : Type 0} where
  abbrev pub hour_on : ℕ → HourStat V → Bool
  hour_on day h = eqb (day_start h.row.period_start) day

  abbrev pub settled_on : ℕ → SettlementRow V → Bool
  settled_on day s = eqb (day_start s.day_start) day

  grouped :
      (m : ℕ → List (HourStat V)) (hours : List (HourStat V)) (day : ℕ)
      → group_hours m hours day ≡ m day ++ select (hour_on day) hours
  unfolding group_hours select
  grouped m [] day = sym (append-nil (m day))
  grouped m (h ∷ rest) day =
      grouped (λ d. if hour_on d h then m d ++ h ∷ [] else m d) rest day
      ∙ elim (Bool-cases (hour_on day h)) [
        | inl here ↦ rw here (append_assoc (m day) (h ∷ []) (select (hour_on day) rest))
        | inr there ↦ rw there refl
      ]

  indexed :
      (m : ℕ → Option (SettlementRow V)) (rows : List (SettlementRow V)) (day : ℕ)
      → index_settlements m rows day
        ≡ elim (find_last (settled_on day) rows) [ some s ↦ some s | none ↦ m day ]
  unfolding index_settlements find_last
  indexed m [] day = refl
  indexed m (s ∷ rest) day =
      indexed (λ d. if settled_on d s then some s else m d) rest day
      ∙ elim (Option-cases (find_last (settled_on day) rest)) [
        | inl none_later ↦ elim (Bool-cases (settled_on day s)) [
          | inl here ↦ rw (none_later, here) refl
          | inr there ↦ rw (none_later, there) refl
        ]
        | inr (x, later) ↦ rw later refl
      ]

  indexed_fresh :
      (rows : List (SettlementRow V)) (day : ℕ)
      → index_settlements (λ day. none) rows day ≡ find_last (settled_on day) rows
  indexed_fresh rows day =
      indexed (λ day. none) rows day ∙ elim (Option-cases (find_last (settled_on day) rows)) [
        | inl none_there ↦ rw none_there refl
        | inr (x, there) ↦ rw there refl
      ]

-- The loop gives the days from its start on, and stops before its end, if the rounds suffice.
days_at :
    (rounds day to i : ℕ)
    → to ≤ day + rounds * one_day
    → get_elem? (days_loop rounds day to) i
      ≡ (if ltb (day + i * one_day) to then some (day + i * one_day) else none)
unfolding days_loop
days_at zero day to i h = ground arith
days_at (suc rounds) day to zero h = elim (Bool-cases (ltb day to)) [
  | inl more ↦ let e : day + 0 * one_day ≡ day = omega arith in rw (e, more) refl
  | inr done ↦ let e : day + 0 * one_day ≡ day = omega arith in rw (e, done) refl
]
days_at (suc rounds) day to (suc i) h =
    let e : day + suc i * one_day ≡ day + one_day + i * one_day = omega arith in
    elim (Bool-cases (ltb day to)) [
      | inl more ↦ rw (e, more) (days_at rounds (day + one_day) to i (omega arith))
      | inr done ↦
          let past : ltb (day + one_day + i * one_day) to ≡ false = ground arith in
          rw (e, done, past) refl
    ]

enough : (from to : ℕ) → to ≤ from + rounds_for from to * one_day
enough from to = omega arith

later_days :
    (rounds day to bound : ℕ)
    → bound ≤ day
    → All (λ d. leb bound d ≡ true) (days_loop rounds day to)
unfolding days_loop
later_days zero day to bound h = tt
later_days (suc rounds) day to bound h = elim (Bool-cases (ltb day to)) [
  | inl more ↦ rw more (ground arith, later_days rounds (day + one_day) to bound (omega arith))
  | inr done ↦ rw done tt
]

module _ {V : Type 0} ⦃f : Float64 V⦄ where
  -- The comparisons of a list of days, one after the other.
  unfoldable pub compared :
      (ℕ → List (HourStat V)) → (ℕ → Option (SettlementRow V)) → List ℕ → List (DiffDay V)
  compared hours settled [] = []
  compared hours settled (day ∷ rest) =
      diff_day day (hours day) (settled day) ∷ compared hours settled rest

  diffs-eq-compared :
      (hours : ℕ → List (HourStat V)) (settled : ℕ → Option (SettlementRow V)) (days : List ℕ)
      (p : Progress V)
      → (compare_days hours settled days p).diffs ≡ p.diffs ++ compared hours settled days
  unfolding compare_days compared add_day
  diffs-eq-compared hours settled [] p = sym (append-nil p.diffs)
  diffs-eq-compared hours settled (day ∷ rest) p =
      diffs-eq-compared hours settled rest (add_day (diff_day day (hours day) (settled day)) p)
      ∙ append_assoc p.diffs (diff_day day (hours day) (settled day) ∷ [])
          (compared hours settled rest)

  get_elem?-compared :
      (hours : ℕ → List (HourStat V)) (settled : ℕ → Option (SettlementRow V)) (days : List ℕ)
      (i : ℕ)
      → get_elem? (compared hours settled days) i ≡ elim (get_elem? days i) [
        | none ↦ none
        | some day ↦ some (diff_day day (hours day) (settled day))
      ]
  unfolding compared
  get_elem?-compared hours settled [] i = refl
  get_elem?-compared hours settled (day ∷ rest) zero = refl
  get_elem?-compared hours settled (day ∷ rest) (suc i) = get_elem?-compared hours settled rest i

  All-compared :
      (hours : ℕ → List (HourStat V)) (settled : ℕ → Option (SettlementRow V)) (bound : ℕ)
      (days : List ℕ)
      → All (λ d. leb bound d ≡ true) days
      → All (λ x. leb bound x.day_start ≡ true) (compared hours settled days)
  unfolding compared diff_day
  All-compared hours settled bound [] h = tt
  All-compared hours settled bound (day ∷ rest) h = (h.0, All-compared hours settled bound rest h.1)

  compared-Ascending :
      (hours : ℕ → List (HourStat V)) (settled : ℕ → Option (SettlementRow V)) (rounds day to : ℕ)
      → Ascending (λ x. x.day_start) (compared hours settled (days_loop rounds day to))
  unfolding compared days_loop diff_day
  compared-Ascending hours settled zero day to = tt
  compared-Ascending hours settled (suc rounds) day to = elim (Bool-cases (ltb day to)) [
    | inl more ↦ rw more (
      All-compared hours settled day (days_loop rounds (day + one_day) to)
          (later_days rounds (day + one_day) to day (omega arith)),
      compared-Ascending hours settled rounds (day + one_day) to,
    )
    | inr done ↦ rw done tt
  ]

  -- The days of a summary, before it is sorted, are in order already.
  pub day_diffs-eq-compared :
      (platform : Platform) (r : ReconcileResult V) (month_start month_end job_date : ℕ)
      (thresholds : Thresholds V) (now : ℕ)
      → (build_diff_summary platform r month_start month_end job_date thresholds now).day_diffs
        ≡ compared
            (group_hours (λ day. []) r.hours)
            (index_settlements (λ day. none) r.settlements)
            (days_from month_start (end_date month_start month_end job_date))
  unfolding build_diff_summary compare_month days_from
  day_diffs-eq-compared platform r month_start month_end job_date thresholds now =
      let hours = group_hours (λ day. []) r.hours in
      let settled = index_settlements (λ day. none) r.settlements in
      let to = end_date month_start month_end job_date in
      ap (sort_by (by_key (λ x. x.day_start)))
        (diffs-eq-compared hours settled (days_loop (rounds_for month_start to) month_start to) _)
      ∙ sort_by_of_Ascending (λ x. x.day_start) _
          (compared-Ascending hours settled (rounds_for month_start to) month_start to)

  -- The i-th day of a summary is the i-th day from the start of the month, as long as that lies
  -- before the end of the month, or before the day of a job inside the month; it compares the hours
  -- of exactly that day with the last settlement row of that day, or with nothing.
  pub day_diffs_exact :
      (platform : Platform) (r : ReconcileResult V) (month_start month_end job_date : ℕ)
      (thresholds : Thresholds V) (now i : ℕ)
      → let day = month_start + i * one_day in
        let to =
          if ltb job_date month_end && ltb month_start job_date
          then day_start job_date
          else month_end in
        get_elem?
          (build_diff_summary platform r month_start month_end job_date thresholds now).day_diffs
          i
        ≡ (if ltb day to
            then some (
                diff_day day
                  (select (hour_on day) r.hours)
                  (find_last (settled_on day) r.settlements))
            else none)
  unfolding days_from end_date
  day_diffs_exact platform r month_start month_end job_date thresholds now i =
      let hours = group_hours (λ day. []) r.hours in
      let settled = index_settlements (λ day. none) r.settlements in
      let to = end_date month_start month_end job_date in
      let day = month_start + i * one_day in
      ap (λ l. get_elem? l i)
        (day_diffs-eq-compared platform r month_start month_end job_date thresholds now)
      ∙ get_elem?-compared hours settled (days_from month_start to) i
      ∙ rw (days_at (rounds_for month_start to) month_start to i (enough month_start to))
          (elim (Bool-cases (ltb day to)) [
            | inl before ↦
                rw (before, grouped (λ day. []) r.hours day, indexed_fresh r.settlements day) refl
            | inr past ↦ rw past refl
          ])
