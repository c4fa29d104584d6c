-- ===== src/Statistics/Completeness.antt =====
-- A day that is rolled up has all its hours.
use microgrid_cloud.Prelude.{
  ℕ, zero, suc, ◌+◌, ◌*◌, ◌<◌, String, List, [], ◌∷◌, Bool, true, false, not, ◌≡◌, refl, ◌∙◌, subst,
  arith, ◌&&◌, ◌||◌, none, some, eqb, Float64, Bool-cases, Option-cases, inl, inr, is_zero, ltb,
  length, any_where,
}
use microgrid_cloud.Prelude.Platform.{Platform}
use microgrid_cloud.Prelude.Exec.{Result, ok, err}
use microgrid_cloud.Statistics.Domain.{
  StatisticError, negative_fact_value, hours_not_completed, incomplete_hours, day_already_completed,
  invalid_period_start, StatisticFact, StatisticAggregate, has_negative, no_fact,
  build_statistic_id,
}
use microgrid_cloud.Statistics.Rollup.{
  FactMap, is_hour, is_not_found, fact_at, put, add_fact, collect_facts, sum_facts, one_hour,
  close_day, sum_day, collect_day, rollup_current, rollup_day,
}

module _ {V : Type 0} where
  fact_at-put :
      (m : FactMap V) (t u : ℕ) (x : StatisticFact V)
      → eqb u t ≡ false
      → fact_at (put m u x) t ≡ fact_at m t
  unfolding fact_at put
  fact_at-put [] t u x h = rw h refl
  fact_at-put ((v, y) ∷ m) t u x h = elim (Bool-cases (eqb v u)) [
    | inl hit ↦ let other : eqb v t ≡ false = ground arith in rw (hit, h, other) refl
    | inr miss ↦ elim (Bool-cases (eqb v t)) [
      | inl here ↦ rw (miss, here) refl
      | inr there ↦ rw (miss, there) (fact_at-put m t u x h)
    ]
  ]

  -- A completed hour statistic that starts at a time.
  unfoldable pub completed_hour : ℕ → StatisticAggregate V → Bool
  completed_hour t a = is_hour a.granularity && (a.completed && eqb a.period_start t)

pub err_ok :
    {A : Type 0} (e : StatisticError) (a : A) → ◌≡◌ {A = Result StatisticError A} (err e) (ok a) → ⊥
err_ok e a h = cc

pub ok_same : {A : Type 0} (a b : A) → ◌≡◌ {A = Result StatisticError A} (ok a) (ok b) → a ≡ b
ok_same a b h = cc

module _ {V : Type 0} ⦃f : Float64 V⦄ where
  lost :
      (m m' : FactMap V) (t : ℕ) (x : StatisticFact V)
      → m ≡ m'
      → fact_at m t ≡ none
      → fact_at m' t ≡ some x
      → ⊥
  lost m m' t x h e k = cc

  -- A fact that the loop has found comes from a completed hour.
  collected :
      (start end t : ℕ) (x : StatisticFact V) (m' : FactMap V) (hours : List (StatisticAggregate V))
      (m : FactMap V)
      → collect_facts start end m hours ≡ ok m'
      → fact_at m t ≡ none
      → fact_at m' t ≡ some x
      → any_where (completed_hour t) hours ≡ true
  unfolding collect_facts any_where completed_hour
  collected start end t x m' [] m h e k = absurd (lost m m' t x (ok_same m m' h) e k)
  collected start end t x m' (a ∷ rest) m h e k =
      elim (Bool-cases (
        not (is_hour a.granularity)
        || (ltb a.period_start start || not (ltb a.period_start end)))) [
          | inl skip ↦ ground (arith, collected start end t x m' rest m (rw skip at h) e k)
          | inr keep ↦ elim (Bool-cases a.completed) [
            | inl done ↦ elim (Bool-cases (has_negative a.fact)) [
              | inl bad ↦ absurd (err_ok negative_fact_value m' (rw (keep, done, bad) at h))
              | inr good ↦ elim (Bool-cases (eqb a.period_start t)) [
                | inl here ↦ ground (arith, keep, done, here)
                | inr there ↦
                    let others =
                      collected start end t x m' rest (put m a.period_start a.fact)
                        (rw (keep, done, good) at h)
                        (fact_at-put m t a.period_start a.fact there ∙ e) k in
                    ground (arith, others)
              ]
            ]
            | inr pending ↦ absurd (err_ok hours_not_completed m' (rw (keep, pending) at h))
          ]
        ]

  -- A sum over hours that succeeds has found each of them.
  summed :
      (m : FactMap V) (n : ℕ) (i : ℕ) (t : ℕ) (sum s : StatisticFact V)
      → sum_facts m sum t n ≡ ok s
      → i < n
      → (x : StatisticFact V) × (fact_at m (t + i * one_hour) ≡ some x)
  unfolding sum_facts
  summed m zero i t sum s h k = absurd (omega (arith, k))
  summed m (suc n) i t sum s h k = elim (Option-cases (fact_at m t)) [
    | inl e ↦ absurd (err_ok incomplete_hours s (rw (e, sum_facts) at h))
    | inr (x, e) ↦
        found i k (x, e)
          (λ j l. summed m n j (t + one_hour) (add_fact sum x) s (rw (e, sum_facts) at h) l)
  ]
    where
      found :
          (i : ℕ)
          → i < suc n
          → (x : StatisticFact V) × (fact_at m t ≡ some x)
          → ((j : ℕ)
              → j < n
              → (x : StatisticFact V) × (fact_at m (t + one_hour + j * one_hour) ≡ some x))
          → (x : StatisticFact V) × (fact_at m (t + i * one_hour) ≡ some x)
      found zero k first later =
          subst (λ u. (x : StatisticFact V) × (fact_at m u ≡ some x)) (omega arith) first
      found (suc j) k first later =
          subst (λ u. (x : StatisticFact V) × (fact_at m u ≡ some x)) (omega arith)
            (later j (omega (arith, k)))

  module _ (platform : Platform) (expected_hours now : ℕ) where
    closed_sum :
        (id : String) (start : ℕ) (r : Result StatisticError (StatisticFact V))
        (a : StatisticAggregate V)
        → close_day id start now r ≡ ok a
        → (s : StatisticFact V) × (r ≡ ok s)
    unfolding close_day
    closed_sum id start (err e) a h = absurd (err_ok e a h)
    closed_sum id start (ok s) a h = (s, refl)

    hours_in_map :
        (id : String) (start : ℕ) (m : FactMap V) (a : StatisticAggregate V) (i : ℕ)
        → sum_day platform expected_hours now id start (ok m) ≡ ok a
        → i < expected_hours
        → (x : StatisticFact V) × (fact_at m (start + i * one_hour) ≡ some x)
    unfolding sum_day
    hours_in_map id start m a i h k = elim (Bool-cases (ltb (length m) expected_hours)) [
      | inl short ↦ absurd (err_ok incomplete_hours a (rw short at h))
      | inr full ↦
          let (s, e) =
            closed_sum id start (sum_facts m no_fact start expected_hours) a (rw full at h) in
          summed m expected_hours i start no_fact s e k
    ]

    mapped :
        (id : String) (start : ℕ) (hours : List (StatisticAggregate V)) (a : StatisticAggregate V)
        (i : ℕ) (r : Result StatisticError (FactMap V))
        → collect_facts start (start + expected_hours * one_hour) [] hours ≡ r
        → sum_day platform expected_hours now id start r ≡ ok a
        → i < expected_hours
        → any_where (completed_hour (start + i * one_hour)) hours ≡ true
    unfolding sum_day fact_at
    mapped id start hours a i (err e) c h k = absurd (err_ok e a h)
    mapped id start hours a i (ok m) c h k =
        let (x, found) = hours_in_map id start m a i h k in
        collected start (start + expected_hours * one_hour) (start + i * one_hour) x m hours [] c
          refl found

    gathered :
        (id : String) (start : ℕ) (hours : Result StatisticError (List (StatisticAggregate V)))
        (a : StatisticAggregate V) (i : ℕ)
        → collect_day platform expected_hours now id start hours ≡ ok a
        → i < expected_hours
        → (hs : List (StatisticAggregate V)) × (hours ≡ ok hs)
          × (any_where (completed_hour (start + i * one_hour)) hs ≡ true)
    unfolding collect_day
    gathered id start (err e) a i h k = absurd (err_ok e a h)
    gathered id start (ok hs) a i h k = (hs, refl, mapped id start hs a i _ refl h k)

    pub rolled :
        (force : Bool) (id : String) (start : ℕ)
        (current : Result StatisticError (StatisticAggregate V))
        (hours : Result StatisticError (List (StatisticAggregate V))) (a : StatisticAggregate V)
        → rollup_current platform expected_hours now force id start current hours ≡ ok a
        → collect_day platform expected_hours now id start hours ≡ ok a
    unfolding rollup_current
    rolled force id start (err e) hours a h = elim (Bool-cases (is_not_found e)) [
      | inl missing ↦ rw missing at h
      | inr broken ↦ absurd (err_ok e a (rw broken at h))
    ]
    rolled force id start (ok b) hours a h = elim (Bool-cases (b.completed && not force)) [
      | inl done ↦ absurd (err_ok day_already_completed a (rw done at h))
      | inr fresh ↦ rw fresh at h
    ]

    -- If a day is rolled up, each of its expected hours stands, as a completed hour statistic, in what
    -- the repository answered.
    pub rollup_has_hours :
        (day_start : ℕ) (force : Bool) (current : Result StatisticError (StatisticAggregate V))
        (hours : Result StatisticError (List (StatisticAggregate V))) (a : StatisticAggregate V)
        (i : ℕ)
        → rollup_day platform expected_hours now day_start force current hours ≡ ok a
        → i < expected_hours
        → (hs : List (StatisticAggregate V)) × (hours ≡ ok hs)
          × (any_where (completed_hour (platform.truncate_to_day day_start + i * one_hour)) hs
              ≡ true)
    unfolding rollup_day build_statistic_id
    rollup_has_hours day_start force current hours a i h k = elim (Bool-cases (is_zero day_start)) [
      | inl absent ↦ absurd (err_ok invalid_period_start a (rw absent at h))
      | inr named ↦ elim (Bool-cases (is_zero (platform.truncate_to_day day_start))) [
        | inl zero_day ↦ absurd (err_ok invalid_period_start a (rw (named, zero_day) at h))
        | inr some_day ↦
            gathered _ (platform.truncate_to_day day_start) hours a i
              (rolled force _ (platform.truncate_to_day day_start) current hours a
                (rw (named, some_day) at h))
              k
      ]
    ]
