-- ===== src/Statistics/Roundtrip.antt =====
-- Saving a statistic and finding it again.
use microgrid_cloud.Prelude.{
  ℕ, String, List, [], ◌∷◌, ◌++◌, Bool, true, false, some, ◌≡◌, refl, sym, ◌==◌, arith, is_zero,
  Float64, any_where, update_where, find_first, Bool-cases, inl, inr, eq_refl, subst,
}
use microgrid_cloud.Prelude.Platform.{Platform}
use microgrid_cloud.Prelude.Exec.{ok, calm, World, ◌>>=◌}
use microgrid_cloud.Statistics.Domain.{
  hour, empty_id, invalid_period_start, invalid_completed_at, negative_fact_value, StatisticFact,
  StatisticAggregate, has_negative, new_statistic_aggregate, complete, no_fact,
}
use microgrid_cloud.Statistics.Completeness.{err_ok, ok_same}
use microgrid_cloud.Statistics.Repository.{
  Row, StatisticDb, has_key, row_of, upsert_row, resolve_subject_id, new_time_key, scan_aggregate,
  complete_scanned, scan_found, find_by_station_hour, save,
}

find_first-update_all :
    {A : Type 0} (p : A → Bool) (r : A) (rows : List A)
    → p r ≡ true
    → any_where p rows ≡ true
    → find_first p (update_where p (λ _. r) rows) ≡ some r
unfolding find_first update_where any_where
find_first-update_all p r [] h k = absurd (ground arith)
find_first-update_all p r (x ∷ rest) h k = elim (Bool-cases (p x)) [
  | inl hit ↦ rw (hit, h) refl
  | inr miss ↦ rw (miss, miss) (find_first-update_all p r rest h (rw miss at k))
]

find_first-append :
    {A : Type 0} (p : A → Bool) (r : A) (rows : List A)
    → p r ≡ true
    → any_where p rows ≡ false
    → find_first p (rows ++ r ∷ []) ≡ some r
unfolding find_first any_where
find_first-append p r [] h k = rw h refl
find_first-append p r (x ∷ rest) h k = elim (Bool-cases (p x)) [
  | inl hit ↦ absurd (ground (arith, hit, k))
  | inr miss ↦ rw miss (find_first-append p r rest h (rw miss at k))
]

module _ {V : Type 0} where
  -- The row under a key after an upsert is the one that was given.
  find_first-upsert :
      (r : Row V) (rows : List (Row V))
      → has_key r.subject_id r.time_type r.time_key r ≡ true
      → find_first (has_key r.subject_id r.time_type r.time_key) (upsert_row r rows) ≡ some r
  unfolding upsert_row
  find_first-upsert r rows h =
      elim (Bool-cases (any_where (has_key r.subject_id r.time_type r.time_key) rows)) [
        | inl there ↦ rw there (find_first-update_all _ r rows h there)
        | inr fresh ↦ rw fresh (find_first-append _ r rows h fresh)
      ]

module _ {V : Type 0} ⦃f : Float64 V⦄ where
  abbrev built : String → ℕ → StatisticFact V → ℕ → StatisticAggregate V
  built id start x t = record {
    id = id;
    granularity = hour;
    period_start = start;
    fact = x;
    completed = true;
    completed_at = t;
  }

  -- What completing an hour has checked and made.
  record Completed (id : String) (start : ℕ) (x : StatisticFact V) (t : ℕ)
      (a : StatisticAggregate V) : Type 0 where
    named : id == "" ≡ false
    begun : is_zero start ≡ false
    timed : is_zero t ≡ false
    valid : has_negative x ≡ false
    same : a ≡ built id start x t

  abbrev pub fresh : String → ℕ → StatisticAggregate V
  fresh id start = record (built id start no_fact 0) { completed = false }

  finished :
      (id : String) (start t : ℕ) (x : StatisticFact V) (b : StatisticAggregate V)
      → id == "" ≡ false
      → is_zero start ≡ false
      → complete x t (fresh id start) ≡ ok b
      → Completed id start x t b
  unfolding complete
  finished id start t x b named begun k = elim (Bool-cases (is_zero t)) [
    | inl never ↦ absurd (err_ok invalid_completed_at b (rw never at k))
    | inr timed ↦ elim (Bool-cases (has_negative x)) [
      | inl bad ↦ absurd (err_ok negative_fact_value b (rw (timed, bad) at k))
      | inr valid ↦ record {
        named = named;
        begun = begun;
        timed = timed;
        valid = valid;
        same = sym (ok_same (built id start x t) b (rw (timed, valid) at k));
      }
    ]
  ]

  completed :
      (id : String) (start t : ℕ) (x : StatisticFact V) (a b : StatisticAggregate V)
      → new_statistic_aggregate id hour start ≡ ok a
      → complete x t a ≡ ok b
      → Completed id start x t b
  unfolding new_statistic_aggregate
  completed id start t x a b h k = elim (Bool-cases (id == "")) [
    | inl bare ↦ absurd (err_ok empty_id a (rw bare at h))
    | inr named ↦ elim (Bool-cases (is_zero start)) [
      | inl absent ↦ absurd (err_ok invalid_period_start a (rw (named, absent) at h))
      | inr begun ↦
          let made : fresh id start ≡ a = ok_same (fresh id start) a (rw (named, begun) at h) in
          finished id start t x b named begun (subst (λ a. complete x t a ≡ ok b) (sym made) k)
    ]
  ]

  module _ (platform : Platform) (own : String) where
    -- A statistic with its times as the columns keep them.
    abbrev pub kept : StatisticAggregate V → StatisticAggregate V
    kept a = record a {
      period_start = platform.timestamptz a.period_start;
      completed_at = platform.timestamptz a.completed_at;
    }

    scanned :
        (key id : String) (start t : ℕ) (x : StatisticFact V)
        → id == "" ≡ false
        → is_zero (platform.timestamptz start) ≡ false
        → is_zero (platform.timestamptz t) ≡ false
        → has_negative x ≡ false
        → scan_aggregate (row_of platform own key (built id start x t))
          ≡ ok (kept (built id start x t))
    unfolding scan_aggregate row_of new_statistic_aggregate complete_scanned complete
    scanned key id start t x named begun timed valid = rw (named, begun, timed, valid) refl

    saved_found :
        (id : String) (start t : ℕ) (x : StatisticFact V) (d : StatisticDb V) (clock : ℕ → ℕ)
        (reads : ℕ)
        → own == "" ≡ false
        → is_zero (platform.timestamptz start) ≡ false
        → is_zero (platform.timestamptz t) ≡ false
        → Completed id start x t (built id start x t)
        → (w : World (StatisticDb V)) × (save platform own (built id start x t) (calm d clock reads)
            ≡ (ok tt, w))
          × (find_by_station_hour platform own own start w
              ≡ (ok (some (kept (built id start x t))), w))
    unfolding save find_by_station_hour resolve_subject_id new_time_key scan_found row_of ◌>>=◌
    saved_found id start t x d clock reads owned begins ends c =
        let key = platform.format_hour start in
        let r = row_of platform own key (built id start x t) in
        let itself = eq_refl own in
        let keyed : has_key own hour key r ≡ true = (ground (arith, eq_refl own, eq_refl key)) in
        let there : find_first (has_key own hour key) (upsert_row r d.rows) ≡ some r =
          find_first-upsert r d.rows keyed in
        let read = scanned key id start t x c.named begins ends c.valid in
        (
          calm (record d { rows = upsert_row r d.rows }) clock reads,
          rw (owned, c.begun) refl,
          rw (owned, itself, c.begun, there) (rw read refl),
        )

    -- An hour statistic that the domain makes and completes is found by its station and hour once it
    -- is saved, with its two times at the precision of their columns and else as it is, where no call
    -- of the database fails, the station is the repository's, and neither time is the zero time at
    -- that precision.
    pub find_by_station_hour-save :
        (id : String) (start t : ℕ) (x : StatisticFact V) (a b : StatisticAggregate V)
        (d : StatisticDb V) (clock : ℕ → ℕ) (reads : ℕ)
        → own == "" ≡ false
        → is_zero (platform.timestamptz start) ≡ false
        → is_zero (platform.timestamptz t) ≡ false
        → new_statistic_aggregate id hour start ≡ ok a
        → complete x t a ≡ ok b
        → (w : World (StatisticDb V)) × (save platform own b (calm d clock reads) ≡ (ok tt, w))
          × (find_by_station_hour platform own own start w ≡ (ok (some (kept b)), w))
    find_by_station_hour-save id start t x a b d clock reads owned begins ends made done =
        let c = completed id start t x a b made done in
        rw c.same (
          saved_found id start t x d clock reads owned begins ends
            (subst (Completed id start x t) c.same c))
