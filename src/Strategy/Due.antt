-- ===== src/Strategy/Due.antt =====
-- What must hold for a strategy to issue a command.
use Prim.Native.String.{compare as compare_text}
use text.Mathlib.Text.{is_le}
use microgrid_cloud.Prelude.{
  ℕ, String, List, [], ◌∷◌, Bool, true, false, not, ◌&&◌, ◌||◌, some, ◌≡◌, refl, arith, ◌==◌, eqb,
  ltb, leb, day_start, Float64, find_first, sort_by, any_where, Bool-cases, inl, inr,
}
use microgrid_cloud.Strategy.Domain.{
  Strategy, Template, Calendar, StrategyDb, LatestValue, Numbers, mode_auto,
}
use microgrid_cloud.Strategy.Repository.{has_template_id, on_date}
use microgrid_cloud.Strategy.Latest.{
  Mapping, Reading, mapping_rows, latest_point, numeric, add_point, no_reading,
}
use microgrid_cloud.Strategy.Engine.{window_start, window_end, in_window, params_of}

-- The strategy is on, and automatic.
abbrev pub is_active : Strategy → Bool
is_active item = item.mode == mode_auto && item.enabled

-- A row of the calendar opens the time: it is the station's, of that day, enabled, and the time is
-- from its start on and before its end.
unfoldable pub opens : String → ℕ → Calendar → Bool
opens station_id now c =
    c.strategy_id == station_id
    && (eqb c.date (day_start now)
        && (c.enabled && (leb (window_start c now) now && ltb now (window_end c now))))

-- The tables that decide, and the commands, are as they were; only runs are written.
pub record Untouched {V : Type 0} (d s : StrategyDb V) : Type 0 where
  pub same_strategies : s.strategies ≡ d.strategies
  pub same_templates : s.templates ≡ d.templates
  pub same_calendars : s.calendars ≡ d.calendars
  pub same_mappings : s.mappings ≡ d.mappings
  pub same_points : s.points ≡ d.points
  pub same_commands : s.commands ≡ d.commands

window_opens :
    (station_id : String) (now : ℕ) (c : Calendar)
    → on_date station_id (day_start now) c ≡ true
    → in_window c now ≡ true
    → opens station_id now c ≡ true
unfolding opens in_window
window_opens station_id now c h k = ground arith

pub found_opens :
    (station_id : String) (now : ℕ) (c : Calendar) (rows : List Calendar)
    → find_first (on_date station_id (day_start now)) rows ≡ some c
    → in_window c now ≡ true
    → any_where (opens station_id now) rows ≡ true
unfolding find_first any_where
found_opens station_id now c [] h k = cc
found_opens station_id now c (b ∷ rows) h k =
    elim (Bool-cases (on_date station_id (day_start now) b)) [
      | inl hit ↦
          let same : some b ≡ some c = (rw hit at h) in
          let open_row = window_opens station_id now b hit (ground (arith, k)) in rw open_row refl
      | inr miss ↦ ground (arith, found_opens station_id now c rows (rw miss at h) k)
    ]

pub found_passes :
    (id : String) (p : Template → Bool) (t : Template) (rows : List Template)
    → find_first (has_template_id id) rows ≡ some t
    → p t ≡ true
    → any_where (λ t. t.id == id && p t) rows ≡ true
unfolding find_first any_where
found_passes id p t [] h k = cc
found_passes id p t (b ∷ rows) h k = elim (Bool-cases (has_template_id id b)) [
  | inl hit ↦
      let same : some b ≡ some t = (rw hit at h) in
      let passes : p b ≡ true = cc in rw (hit, passes) refl
  | inr miss ↦ ground (arith, found_passes id p t rows (rw miss at h) k)
]

module _ {V : Type 0} ⦃f : Float64 V⦄ ⦃n : Numbers V⦄ (tenant_id : String) (d : StrategyDb V) where
  -- The latest values of the mapped points, summed, by a plain recursion on the tables.
  unfoldable pub sum_points : String → List (Mapping V) → Reading V → Reading V
  sum_points station_id [] r = r
  sum_points station_id (m ∷ rest) r =
      sum_points station_id rest
        (add_point m (numeric (latest_point tenant_id station_id m.point_key m.device_id d)) r)

  unfoldable pub grid_export : String → V
  unfolding sum_points
  grid_export station_id =
      let r =
        sum_points station_id
          (sort_by (λ m k. is_le (compare_text m.point_key k.point_key))
            (mapping_rows station_id "grid_export_kw" d.mappings))
          no_reading in
      r.total

  -- A template that asks for a command: an anti-backflow template with a device, whose threshold the
  -- export of the station is not at or below. An export that is NaN is at or below none.
  unfoldable pub acts : Strategy → Template → Bool
  acts item t =
      t.type == "anti_backflow"
      && (not (f.le (grid_export item.station_id) (params_of {V = V} t).threshold_kw)
          && not ((params_of {V = V} t).device_id == ""))

  -- A strategy that is automatic and enabled, inside a window that is open, and whose template asks
  -- for a command.
  unfoldable pub due : ℕ → Strategy → Bool
  due now item =
      is_active item
      && (any_where (opens item.station_id now) d.calendars
          && any_where (λ t. t.id == item.template_id && acts item t) d.templates)

  pub nameless :
      (item : Strategy) (t : Template) (l : LatestValue V)
      → t.type == "anti_backflow" ≡ true
      → l.value ≡ grid_export item.station_id
      → acts item t ≡ false
      → f.le l.value (params_of {V = V} t).threshold_kw ≡ false
      → (params_of {V = V} t).device_id == "" ≡ true
  unfolding acts
  nameless item t l kind e h above =
      let over : f.le (grid_export item.station_id) (params_of {V = V} t).threshold_kw ≡ false =
        rw e at above in
      ground arith

  pub none_due :
      (item : Strategy) (now : ℕ)
      → (not (item.mode == mode_auto) || not item.enabled) ≡ false
      → any_where (opens item.station_id now) d.calendars ≡ true
      → due now item ≡ false
      → any_where (λ t. t.id == item.template_id && acts item t) d.templates ≡ false
  unfolding due
  none_due item now active open_row h = ground arith
