-- ===== src/Statistics/Repository.antt =====
-- The statistics table and the SQL on it:
-- backend/internal/analytics/infrastructure/postgres/statistic_repository.go, with the key of
-- backend/migrations/001_init.sql, and NewTimeKey of domain/statistic/time.go.
use microgrid_cloud.Prelude.{
  ℕ, String, List, [], ◌∷◌, ◌++◌, Bool, not, ◌&&◌, Option, none, some, ◌==◌, if◌then◌else◌, is_zero,
  leb, ltb, Float64, find_first, select, sort_by, any_where, update_where,
}
use microgrid_cloud.Prelude.Platform.{Platform}
use microgrid_cloud.Prelude.Sorting.{by_key}
use microgrid_cloud.Prelude.Exec.{
  Exec, Result, ok, err, pure, raise, lift, gets, modify, attempt, guard, ◌>>=◌, ◌>>◌,
}
use microgrid_cloud.Statistics.Domain.{
  Granularity, hour, day, month, year, invalid, StatisticError, empty_id, invalid_granularity,
  invalid_period_start, invalid_completed_at, statistic_not_found, repository_failed,
  subject_mismatch, empty_subject_id, is_valid, StatisticFact, StatisticAggregate,
  new_statistic_aggregate, complete,
}

-- A row of analytics_statistics, keyed by subject, type and time key.
pub record Row (V : Type 0) : Type 0 where
  pub subject_id : String
  pub time_type : Granularity
  pub time_key : String
  pub period_start : ℕ
  pub statistic_id : String
  pub is_completed : Bool
  pub completed_at : Option ℕ
  pub fact : StatisticFact V

pub record StatisticCalculated : Type 0 where
  pub station_id : String
  pub statistic_id : String
  pub granularity : Granularity
  pub period_start : ℕ
  pub occurred_at : ℕ
  pub recalculate : Bool

-- The table, and the events that the bus took, oldest first.
pub record StatisticDb (V : Type 0) : Type 0 where
  pub rows : List (Row V)
  pub published : List StatisticCalculated

abbrev pub Act : Type 0 → Type 0 → Type 0
Act V A = Exec (StatisticDb V) StatisticError A

abbrev pub granularity_text : Granularity → String
granularity_text hour = "HOUR"
granularity_text day = "DAY"
granularity_text month = "MONTH"
granularity_text year = "YEAR"
granularity_text (invalid s) = s

abbrev pub granularity_eq : Granularity → Granularity → Bool
granularity_eq a b = granularity_text a == granularity_text b

-- The text of a period start by the layout of its type.
abbrev pub time_key_text : Platform → Granularity → ℕ → String
time_key_text platform hour start = platform.format_hour start
time_key_text platform day start = platform.format_day start
time_key_text platform month start = platform.format_month_compact start
time_key_text platform year start = platform.format_year start
time_key_text platform (invalid s) start = ""

unfoldable pub new_time_key : Platform → Granularity → ℕ → Result StatisticError String
new_time_key platform type start =
    if not (is_valid type)
    then err invalid_granularity
    else if is_zero start
    then err invalid_period_start
    else ok (time_key_text platform type start)

-- `own` is the subject of the repository.
unfoldable pub resolve_subject_id : String → String → Result StatisticError String
resolve_subject_id own given =
    if given == ""
    then (if own == "" then err empty_subject_id else ok own)
    else if not (own == "") && not (own == given)
    then err subject_mismatch
    else ok given

module _ {V : Type 0} where
  abbrev pub has_key : String → Granularity → String → Row V → Bool
  has_key subject_id type key r =
      r.subject_id == subject_id && (granularity_eq r.time_type type && r.time_key == key)

  abbrev pub has_statistic_id : String → String → Row V → Bool
  has_statistic_id subject_id id r = r.subject_id == subject_id && r.statistic_id == id

  abbrev pub in_period : String → Granularity → ℕ → ℕ → Row V → Bool
  in_period subject_id type start end r =
      r.subject_id == subject_id
      && (granularity_eq r.time_type type && (leb start r.period_start && ltb r.period_start end))

  abbrev pub completion_of : Platform → StatisticAggregate V → Option ℕ
  completion_of platform a =
      if a.completed then some (platform.timestamptz a.completed_at) else none

  -- The row that is written; its two times are kept as their columns keep them.
  unfoldable pub row_of : Platform → String → String → StatisticAggregate V → Row V
  row_of platform subject_id key a = record {
    subject_id = subject_id;
    time_type = a.granularity;
    time_key = key;
    period_start = platform.timestamptz a.period_start;
    statistic_id = a.id;
    is_completed = a.completed;
    completed_at = completion_of platform a;
    fact = a.fact;
  }

  -- `INSERT ... ON CONFLICT (subject_id, time_type, time_key) DO UPDATE`.
  unfoldable pub upsert_row : Row V → List (Row V) → List (Row V)
  upsert_row r rows =
      let same = has_key r.subject_id r.time_type r.time_key in
      if any_where same rows then update_where same (λ _. r) rows else rows ++ r ∷ []

module _ {V : Type 0} ⦃f : Float64 V⦄ where
  unfoldable pub complete_scanned :
      StatisticFact V
      → Option ℕ
      → StatisticAggregate V
      → Result StatisticError (StatisticAggregate V)
  unfolding complete
  complete_scanned x none a = err invalid_completed_at
  complete_scanned x (some t) a = complete x t a

  -- What a row stands for; a row that the domain refuses is an error.
  unfoldable pub scan_aggregate : Row V → Result StatisticError (StatisticAggregate V)
  unfolding complete_scanned new_statistic_aggregate
  scan_aggregate r =
      if not (is_valid r.time_type)
      then err invalid_granularity
      else elim (new_statistic_aggregate r.statistic_id r.time_type r.period_start) [
        | err e ↦ err e
        | ok a ↦ if r.is_completed then complete_scanned r.fact r.completed_at a else ok a
      ]

  unfoldable pub scan_found : Option (Row V) → Act V (Option (StatisticAggregate V))
  unfolding scan_aggregate
  scan_found none = pure none
  scan_found (some r) = do a ← lift (scan_aggregate r); pure (some a)

  unfoldable pub scan_or_missing : Option (Row V) → Act V (StatisticAggregate V)
  unfolding scan_aggregate
  scan_or_missing none = raise statistic_not_found
  scan_or_missing (some r) = lift (scan_aggregate r)

  unfoldable pub scan_all : List (Row V) → Act V (List (StatisticAggregate V))
  unfolding scan_aggregate
  scan_all [] = pure []
  scan_all (r ∷ rest) = do a ← lift (scan_aggregate r); others ← scan_all rest; pure (a ∷ others)

  module _ (platform : Platform) (own : String) where
    unfoldable pub find_by_station_hour : String → ℕ → Act V (Option (StatisticAggregate V))
    unfolding scan_found resolve_subject_id new_time_key
    find_by_station_hour station_id hour_start = do
      subject_id ← lift (resolve_subject_id own station_id)
      guard (not (is_zero hour_start)) invalid_period_start
      key ← lift (new_time_key platform hour hour_start)
      attempt repository_failed
      row ← gets (λ d. find_first (has_key subject_id hour key) d.rows)
      scan_found row

    unfoldable pub get : String → Act V (StatisticAggregate V)
    unfolding scan_or_missing resolve_subject_id
    get id = do
      subject_id ← lift (resolve_subject_id own "")
      guard (not (id == "")) empty_id
      attempt repository_failed
      row ← gets (λ d. find_first (has_statistic_id subject_id id) d.rows)
      scan_or_missing row

    unfoldable pub list_by_granularity_and_period :
        Granularity → ℕ → ℕ → Act V (List (StatisticAggregate V))
    unfolding scan_all resolve_subject_id
    list_by_granularity_and_period type start end = do
      subject_id ← lift (resolve_subject_id own "")
      guard (is_valid type) invalid_granularity
      attempt repository_failed
      rows ← gets (λ d. sort_by (by_key (λ r. r.period_start)) (
          select (in_period subject_id type (platform.timestamptz start) (platform.timestamptz end))
            d.rows))
      scan_all rows

    unfoldable pub save : StatisticAggregate V → Act V (Unit {0})
    unfolding resolve_subject_id new_time_key row_of upsert_row
    save a = do
      subject_id ← lift (resolve_subject_id own "")
      guard (is_valid a.granularity) invalid_granularity
      key ← lift (new_time_key platform a.granularity a.period_start)
      attempt repository_failed
      modify (λ d. record d { rows = upsert_row (row_of platform subject_id key a) d.rows })
