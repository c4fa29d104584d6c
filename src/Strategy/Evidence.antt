-- ===== src/Strategy/Evidence.antt =====
-- What the engine reads of the tables.
use Prim.Native.String.{compare as compare_text}
use text.Mathlib.Text.{is_le}
use microgrid_cloud.Prelude.{
  ℕ, String, List, [], ◌∷◌, Bool, true, false, Option, none, some, ◌≡◌, refl, sym, arith, day_start,
  Float64, find_first, select, sort_by, any_where,
}
use microgrid_cloud.Prelude.Exec.{ok, err, Keeps, Triple, caught}
use microgrid_cloud.Prelude.Exec.Rules.{
  Keeps-bind, Keeps-attempt, Keeps-modify, Keeps-guard, Keeps-now, Keeps-with_db, triple-Keeps,
  Triple-bind, Triple-given, Triple-pure, Triple-after,
}
use microgrid_cloud.Prelude.Exec.Reads.{Triple-query, Triple-caught}
use microgrid_cloud.Strategy.Domain.{Calendar, Run, StrategyDb, StrategyError, Numbers}
use microgrid_cloud.Strategy.Repository.{
  has_template_id, on_date, get_calendar, get_template, put_run, insert_run,
}
use microgrid_cloud.Strategy.Latest.{
  Mapping, Reading, mapping_rows, load_mappings, latest_point, numeric, load_latest_point,
  add_point, read_points, no_reading, latest_semantic,
}
use microgrid_cloud.Strategy.Engine.{window_open}
use microgrid_cloud.Strategy.Due.{opens, Untouched, found_opens, sum_points, grid_export}

pub any_where_selected :
    {A : Type 0} (p q : A → Bool) (xs : List A)
    → any_where p xs ≡ false
    → any_where p (select q xs) ≡ false
unfolding any_where select
any_where_selected p q [] h = refl
any_where_selected p q (x ∷ xs) h = ground (arith, any_where_selected p q xs)

module _ {V : Type 0} ⦃f : Float64 V⦄ ⦃n : Numbers V⦄ (tenant_id : String) (d : StrategyDb V) where
  pub insert_run-Keeps : (r : Run V) → Keeps (Untouched d) (insert_run r)
  unfolding insert_run put_run
  insert_run-Keeps r = Keeps-bind _ _ Keeps-now λ _. Keeps-bind _ _ (Keeps-attempt _) λ _.
      Keeps-bind _ _ (Keeps-with_db _ λ _. Keeps-guard _ _) λ _. Keeps-modify _ λ s h. ground arith

  pub calendar_read :
      (id : String) (now : ℕ)
      → Triple
          (Untouched d)
          (caught (get_calendar id (day_start now)))
          (λ r s.
            Untouched d s
            × (window_open now r ≡ true → any_where (opens id now) d.calendars ≡ true))
          (Untouched d)
  unfolding get_calendar window_open
  calendar_read id now =
      Triple-caught _ (Triple-query _ _) (λ r s h. (h.0, opened r s h.0 h.1))
        (λ e s h. (h, closed e))
    where
      closed :
          (e : StrategyError)
          → window_open now (err e) ≡ true
          → any_where (opens id now) d.calendars ≡ true
      closed e h = cc

      opened :
          (r : Option Calendar) (s : StrategyDb V)
          → Untouched d s
          → find_first (on_date id (day_start now)) s.calendars ≡ r
          → window_open now (ok r) ≡ true
          → any_where (opens id now) d.calendars ≡ true
      opened none s u e h = cc
      opened (some c) s u e h = found_opens id now c d.calendars (ground arith) h

  pub template_read :
      (id : String)
      → Triple
          (Untouched d)
          (get_template id)
          (λ t s. Untouched d s × (find_first (has_template_id id) d.templates ≡ t))
          (Untouched d)
  unfolding get_template
  template_read id =
      Triple-after _ (Triple-query _ _) (λ t s h. (h.0, rw (sym h.0.same_templates) h.1))

  point_read :
      (station_id : String) (m : Mapping V)
      → Triple
          (Untouched d)
          (load_latest_point tenant_id station_id m.point_key m.device_id)
          (λ x s.
            Untouched d s
            × (x ≡ numeric (latest_point tenant_id station_id m.point_key m.device_id d)))
          (Untouched d)
  unfolding load_latest_point latest_point
  point_read station_id m =
      Triple-after _ (Triple-query _ _) (λ x s h. (h.0, rw (sym h.0.same_points) (sym h.1)))

  points_read :
      (station_id : String) (ms : List (Mapping V)) (r : Reading V)
      → Triple
          (Untouched d)
          (read_points tenant_id station_id ms r)
          (λ x s. Untouched d s × (x ≡ sum_points tenant_id d station_id ms r))
          (Untouched d)
  unfolding read_points sum_points
  points_read station_id [] r = Triple-pure _ λ s u. (u, refl)
  points_read station_id (m ∷ rest) r = Triple-bind _ _ (point_read station_id m) λ x.
      Triple-given _ λ e. rw e (
        points_read station_id rest
          (add_point m (numeric (latest_point tenant_id station_id m.point_key m.device_id d)) r))

  mappings_read :
      (station_id semantic : String)
      → Triple
          (Untouched d)
          (load_mappings station_id semantic)
          (λ x s.
            Untouched d s
            × (x
                ≡ sort_by
                    (λ m k. is_le (compare_text m.point_key k.point_key))
                    (mapping_rows station_id semantic d.mappings)))
          (Untouched d)
  unfolding load_mappings
  mappings_read station_id semantic =
      Triple-after _ (Triple-query _ _) (λ x s h. (h.0, rw (sym h.0.same_mappings) (sym h.1)))

  pub export_read :
      (station_id : String)
      → Triple
          (Untouched d)
          (latest_semantic tenant_id station_id "grid_export_kw")
          (λ l s. Untouched d s × (l.value ≡ grid_export tenant_id d station_id))
          (Untouched d)
  unfolding latest_semantic grid_export
  export_read station_id = Triple-bind _ _ (triple-Keeps _ (Keeps-guard _ _) (λ s u. u)) λ _.
      Triple-bind _ _ (mappings_read station_id "grid_export_kw") λ ms. Triple-given _ λ e.
        Triple-bind _ _ (triple-Keeps _ (Keeps-guard _ _) (λ s u. u)) λ _.
          Triple-bind _ _ (points_read station_id ms no_reading) λ r. Triple-given _ λ k.
            Triple-bind _ _ (triple-Keeps _ (Keeps-guard _ _) (λ s u. u))
              λ _. Triple-pure _ λ s u. (u, rw (k, e) refl)
