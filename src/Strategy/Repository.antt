-- ===== src/Strategy/Repository.antt =====
-- The SQL of backend/internal/strategy/infrastructure/postgres/repository.go on the tables of
-- backend/migrations/013_strategy.sql, with their keys and references.
use Prim.Native.Nat.{suc}
use Prim.Native.String.{compare as compare_text}
use text.Mathlib.Text.{is_le}
use microgrid_cloud.Prelude.{
  ℕ, String, List, [], ◌∷◌, ◌++◌, Bool, ◌&&◌, Option, ◌==◌, if◌then◌else◌, eqb, leb, ltb,
  find_first, select, update_where, any_where, sort_by,
}
use microgrid_cloud.Prelude.Exec.{Exec, gets, with_db, modify, now, attempt, guard, ◌>>=◌, ◌>>◌}
use microgrid_cloud.Strategy.Domain.{
  Strategy, Template, Calendar, Run, StrategyDb, StrategyError, db_failed, unknown_strategy,
  unknown_template, mode_auto,
}

abbrev pub Act : Type 0 → Type 0 → Type 0
Act V A = Exec (StrategyDb V) StrategyError A

module _ {A : Type 0} where
  -- `INSERT ... ON CONFLICT DO UPDATE`: the row of the key is changed, or a new one is added.
  unfoldable pub upsert : (A → Bool) → (A → A) → A → List A → List A
  upsert p f new rows = if any_where p rows then update_where p f rows else rows ++ new ∷ []

abbrev pub of_station : String → Strategy → Bool
of_station id s = s.station_id == id

abbrev pub has_template_id : String → Template → Bool
has_template_id id t = t.id == id

abbrev pub on_date : String → ℕ → Calendar → Bool
on_date id date c = c.strategy_id == id && eqb c.date date

abbrev pub auto_enabled : Strategy → Bool
auto_enabled s = s.enabled && s.mode == mode_auto

unfoldable pub replace_strategy : Strategy → ℕ → Strategy → Strategy
replace_strategy s t old = record old {
  mode = s.mode;
  enabled = s.enabled;
  template_id = s.template_id;
  version = suc old.version;
  updated_at = t;
}

module _ {V : Type 0} where
  unfoldable pub run_at : String → ℕ → Run V → Bool
  run_at id ts r = r.strategy_id == id && eqb r.ts ts

  unfoldable pub get_strategy : String → Act V (Option Strategy)
  get_strategy id = do attempt db_failed; gets (λ d. find_first (of_station id) d.strategies)

  unfoldable pub put_strategy : Strategy → ℕ → StrategyDb V → StrategyDb V
  unfolding upsert replace_strategy
  put_strategy s t d = record d {
    strategies =
        upsert (of_station s.station_id) (replace_strategy s t)
          (record s { version = 1; created_at = t; updated_at = t }) d.strategies;
  }

  unfoldable pub upsert_strategy : Strategy → Act V (Unit {0})
  unfolding put_strategy
  upsert_strategy s = do
    t ← now
    attempt db_failed
    with_db (λ d. guard (any_where (has_template_id s.template_id) d.templates) unknown_template)
    modify (put_strategy s t)

  unfoldable pub list_auto_enabled : Act V (List Strategy)
  list_auto_enabled = do
    attempt db_failed
    gets (λ d.
        sort_by (λ s r. is_le (compare_text s.station_id r.station_id))
          (select auto_enabled d.strategies))

  unfoldable pub put_template : Template → ℕ → StrategyDb V → StrategyDb V
  unfolding upsert
  put_template t at d = record d {
    templates =
        upsert (has_template_id t.id)
          (λ old. record old { type = t.type; params = t.params; updated_at = at })
          (record t { created_at = at; updated_at = at }) d.templates;
  }

  unfoldable pub upsert_template : Template → Act V (Unit {0})
  unfolding put_template
  upsert_template t = do at ← now; attempt db_failed; modify (put_template t at)

  unfoldable pub get_template : String → Act V (Option Template)
  get_template id = do attempt db_failed; gets (λ d. find_first (has_template_id id) d.templates)

  unfoldable pub put_calendar : Calendar → ℕ → StrategyDb V → StrategyDb V
  unfolding upsert
  put_calendar c t d = record d {
    calendars =
        upsert (on_date c.strategy_id c.date)
          (λ old. record old {
            enabled = c.enabled;
            start_time = c.start_time;
            end_time = c.end_time;
            updated_at = t;
          })
          (record c { created_at = t; updated_at = t }) d.calendars;
  }

  unfoldable pub upsert_calendar : Calendar → Act V (Unit {0})
  unfolding put_calendar
  upsert_calendar c = do
    t ← now
    attempt db_failed
    with_db (λ d. guard (any_where (of_station c.strategy_id) d.strategies) unknown_strategy)
    modify (put_calendar c t)

  unfoldable pub get_calendar : String → ℕ → Act V (Option Calendar)
  get_calendar id date = do attempt db_failed; gets (λ d. find_first (on_date id date) d.calendars)

  unfoldable pub put_run : Run V → ℕ → StrategyDb V → StrategyDb V
  unfolding upsert run_at
  put_run r t d = record d {
    runs =
        upsert (run_at r.strategy_id r.ts)
          (λ old. record old {
            decision = r.decision;
            command_id = r.command_id;
            status = r.status;
          })
          (record r { created_at = t }) d.runs;
  }

  unfoldable pub insert_run : Run V → Act V (Unit {0})
  unfolding put_run
  insert_run r = do
    t ← now
    attempt db_failed
    with_db (λ d. guard (any_where (of_station r.strategy_id) d.strategies) unknown_strategy)
    modify (put_run r t)

  unfoldable pub list_runs : String → ℕ → ℕ → Act V (List (Run V))
  list_runs id from to = do
    attempt db_failed
    gets (λ d.
        sort_by (λ r s. leb r.ts s.ts)
          (select (λ r. r.strategy_id == id && (leb from r.ts && ltb r.ts to)) d.runs))
