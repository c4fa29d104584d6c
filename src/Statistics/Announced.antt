-- ===== src/Statistics/Announced.antt =====
-- The statistics that are announced, and the table that is to hold them.
use microgrid_cloud.Prelude.{
  ℕ, String, List, [], ◌∷◌, Bool, true, ◌&&◌, ◌≡◌, refl, ◌∙◌, arith, is_zero, ltb, Float64, All,
  any_where, update_where, any_where-append, Bool-cases, inl, inr, eq_iff, length,
}
use microgrid_cloud.Prelude.Platform.{Platform}
use microgrid_cloud.Prelude.Exec.{Result, ok, err}
use microgrid_cloud.Statistics.Domain.{
  day, StatisticError, invalid_period_start, incomplete_hours, StatisticFact, StatisticAggregate,
  new_statistic_aggregate, complete, build_statistic_id,
}
use microgrid_cloud.Statistics.Rollup.{FactMap, close_day, sum_day, collect_day, rollup_day}
use microgrid_cloud.Statistics.Completeness.{err_ok, rolled}
use microgrid_cloud.Statistics.Repository.{
  Row, StatisticCalculated, StatisticDb, granularity_text, time_key_text, has_key, upsert_row,
}

module _ {V : Type 0} ⦃f : Float64 V⦄ where
  -- A rollup that succeeds gives a completed day.
  closed-day :
      (id : String) (start now : ℕ) (sum : Result StatisticError (StatisticFact V))
      (a : StatisticAggregate V)
      → close_day id start now sum ≡ ok a
      → (a.completed ≡ true) × (a.granularity ≡ day)
  unfolding close_day new_statistic_aggregate complete
  closed-day id start now (err e) a h = absurd (err_ok e a h)
  closed-day id start now (ok sum) a h = (ground (arith, h), ground (arith, h))

  summed-day :
      (platform : Platform) (expected_hours now : ℕ) (id : String) (start : ℕ)
      (m : Result StatisticError (FactMap V)) (a : StatisticAggregate V)
      → sum_day platform expected_hours now id start m ≡ ok a
      → (a.completed ≡ true) × (a.granularity ≡ day)
  unfolding sum_day
  summed-day platform expected_hours now id start (err e) a h = absurd (err_ok e a h)
  summed-day platform expected_hours now id start (ok m) a h =
      elim (Bool-cases (ltb (length m) expected_hours)) [
        | inl few ↦ absurd (err_ok incomplete_hours a (rw few at h))
        | inr all ↦ closed-day id start now _ a (rw all at h)
      ]

  collected-day :
      (platform : Platform) (expected_hours now : ℕ) (id : String) (start : ℕ)
      (hours : Result StatisticError (List (StatisticAggregate V))) (a : StatisticAggregate V)
      → collect_day platform expected_hours now id start hours ≡ ok a
      → (a.completed ≡ true) × (a.granularity ≡ day)
  unfolding collect_day
  collected-day platform expected_hours now id start (err e) a h = absurd (err_ok e a h)
  collected-day platform expected_hours now id start (ok hours) a h =
      summed-day platform expected_hours now id start _ a h

  pub rolled-day :
      (platform : Platform) (expected_hours now day_start : ℕ) (force : Bool)
      (current : Result StatisticError (StatisticAggregate V))
      (hours : Result StatisticError (List (StatisticAggregate V))) (a : StatisticAggregate V)
      → rollup_day platform expected_hours now day_start force current hours ≡ ok a
      → (a.completed ≡ true) × (a.granularity ≡ day)
  unfolding rollup_day build_statistic_id
  rolled-day platform expected_hours now day_start force current hours a h =
      elim (Bool-cases (is_zero day_start)) [
        | inl absent ↦ absurd (err_ok invalid_period_start a (rw absent at h))
        | inr named ↦ elim (Bool-cases (is_zero (platform.truncate_to_day day_start))) [
          | inl zero_day ↦ absurd (err_ok invalid_period_start a (rw (named, zero_day) at h))
          | inr some_day ↦ collected-day platform expected_hours now _ _ hours a (
              rolled platform expected_hours now force _ _ current hours a
                (rw (named, some_day) at h))
        ]
      ]

module _ {V : Type 0} (platform : Platform) (own : String) where
  -- The row of a statistic that an event announces: it has the event's key, and is completed.
  abbrev pub stands : StatisticCalculated → Row V → Bool
  stands e r =
      has_key own e.granularity (time_key_text platform e.granularity e.period_start) r
      && r.is_completed

  -- The statistic of every event that was published is stored, completed.
  abbrev pub Announced : StatisticDb V → Type 0
  Announced d = All (λ e. any_where (stands e) d.rows ≡ true) d.published

  -- A completed row takes the place of another one under its key.
  same_key-stands :
      (e : StatisticCalculated) (r x : Row V)
      → r.is_completed ≡ true
      → has_key r.subject_id r.time_type r.time_key x ≡ true
      → stands e x ≡ true
      → stands e r ≡ true
  same_key-stands e r x done same h = ground (
    arith,
    done,
    same,
    h,
    eq_iff x.subject_id r.subject_id,
    eq_iff (granularity_text x.time_type) (granularity_text r.time_type),
    eq_iff x.time_key r.time_key,
  )

  replaced-stands :
      (e : StatisticCalculated) (r : Row V) (rows : List (Row V))
      → r.is_completed ≡ true
      → any_where (stands e) rows ≡ true
      → any_where
          (stands e)
          (update_where (has_key r.subject_id r.time_type r.time_key) (λ _. r) rows)
        ≡ true
  unfolding any_where update_where
  replaced-stands e r [] done h = h
  replaced-stands e r (x ∷ rest) done h =
      elim (Bool-cases (has_key r.subject_id r.time_type r.time_key x)) [
        | inl same ↦ elim (Bool-cases (stands e x)) [
          | inl old ↦ rw (same, same_key-stands e r x done same old) refl
          | inr other ↦ rw same (ground (arith, replaced-stands e r rest done (rw other at h)))
        ]
        | inr apart ↦ rw apart (ground (arith, h, replaced-stands e r rest done))
      ]

  replaced_self :
      (e : StatisticCalculated) (r : Row V) (rows : List (Row V))
      → stands e r ≡ true
      → any_where (has_key r.subject_id r.time_type r.time_key) rows ≡ true
      → any_where
          (stands e)
          (update_where (has_key r.subject_id r.time_type r.time_key) (λ _. r) rows)
        ≡ true
  unfolding any_where update_where
  replaced_self e r [] s h = ground (arith, h)
  replaced_self e r (x ∷ rest) s h =
      elim (Bool-cases (has_key r.subject_id r.time_type r.time_key x)) [
        | inl same ↦ rw (same, s) refl
        | inr apart ↦ rw apart (ground (arith, replaced_self e r rest s (rw apart at h)))
      ]

  upsert-stands :
      (e : StatisticCalculated) (r : Row V) (rows : List (Row V))
      → r.is_completed ≡ true
      → any_where (stands e) rows ≡ true
      → any_where (stands e) (upsert_row r rows) ≡ true
  unfolding upsert_row
  upsert-stands e r rows done h =
      elim (Bool-cases (any_where (has_key r.subject_id r.time_type r.time_key) rows)) [
        | inl there ↦ rw there (replaced-stands e r rows done h)
        | inr fresh ↦ rw fresh (any_where-append (stands e) rows r ∙ rw h refl)
      ]

  pub upsert_self :
      (e : StatisticCalculated) (r : Row V) (rows : List (Row V))
      → stands e r ≡ true
      → any_where (stands e) (upsert_row r rows) ≡ true
  unfolding upsert_row
  upsert_self e r rows s =
      elim (Bool-cases (any_where (has_key r.subject_id r.time_type r.time_key) rows)) [
        | inl there ↦ rw there (replaced_self e r rows s there)
        | inr fresh ↦ rw fresh (any_where-append (stands e) rows r ∙ ground (arith, s))
      ]

  pub upsert-Announced :
      (r : Row V) (rows : List (Row V)) (events : List StatisticCalculated)
      → r.is_completed ≡ true
      → All (λ e. any_where (stands e) rows ≡ true) events
      → All (λ e. any_where (stands e) (upsert_row r rows) ≡ true) events
  upsert-Announced r rows [] done h = tt
  upsert-Announced r rows (e ∷ rest) done h =
      (upsert-stands e r rows done h.0, upsert-Announced r rows rest done h.1)
