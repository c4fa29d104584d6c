-- ===== src/Strategy/Safety.antt =====
-- When the engine leaves the commands alone.
use Prim.Native.String.{compare as compare_text}
use text.Mathlib.Text.{is_le}
use microgrid_cloud.Prelude.{
  ℕ, String, List, [], ◌∷◌, true, false, ◌&&◌, Option, none, some, ◌≡◌, refl, ◌∙◌, arith, ◌==◌,
  is_zero, Float64, find_first, select, sort_by, any_where, Bool-cases, inl, inr,
}
use microgrid_cloud.Prelude.Sorting.{any_where-sort_by}
use microgrid_cloud.Prelude.Platform.{Platform}
use microgrid_cloud.Prelude.Exec.{Result, ok, err, World, Keeps, Triple}
use microgrid_cloud.Prelude.Exec.Rules.{
  Keeps-bind, Keeps-pure, Keeps-raise, Keeps-ignore, Keeps-caught, Keeps-triple, triple-Keeps,
  Triple-bind, Triple-given, Triple-pure, Triple-if, Triple-after,
}
use microgrid_cloud.Prelude.Exec.Reads.{Triple-query}
use microgrid_cloud.Commands.Domain.{Json}
use microgrid_cloud.Strategy.Domain.{
  Strategy, Template, StrategyDb, StrategyError, LatestValue, Numbers,
}
use microgrid_cloud.Strategy.Repository.{auto_enabled, has_template_id, list_auto_enabled}
use microgrid_cloud.Strategy.Engine.{
  params_of, act_on, run_anti_backflow, run_template, evaluate, settle_run, evaluate_all, tick,
}
use microgrid_cloud.Strategy.Due.{
  Untouched, found_passes, grid_export, acts, due, nameless, none_due,
}
use microgrid_cloud.Strategy.Evidence.{
  insert_run-Keeps, calendar_read, template_read, any_where_selected, export_read,
}

module _ {V : Type 0} ⦃f : Float64 V⦄ ⦃n : Numbers V⦄ (tenant_id : String) (d : StrategyDb V) where
  module _ (platform : Platform) (json : Json) (event_ids : ℕ → String) (service_tenant : String)
      (context_tenant : String) where
    quiet_action :
        (item : Strategy) (now : ℕ) (t : Template) (l : LatestValue V)
        → t.type == "anti_backflow" ≡ true
        → l.value ≡ grid_export tenant_id d item.station_id
        → acts tenant_id d item t ≡ false
        → Keeps (Untouched d) (
            act_on platform json event_ids service_tenant context_tenant tenant_id item t
              (params_of {V = V} t)
              now
              l)
    unfolding act_on acts
    quiet_action item now t l kind e h =
        elim (Bool-cases (f.le l.value (params_of {V = V} t).threshold_kw)) [
          | inl below ↦ rw below (insert_run-Keeps tenant_id d _)
          | inr above ↦
              let nameless : (params_of {V = V} t).device_id == "" ≡ true =
                nameless tenant_id d item t l kind e h above in
              rw (above, nameless) (insert_run-Keeps tenant_id d _)
        ]

    -- A template that does not act leaves the commands alone.
    template_quiet :
        (item : Strategy) (now : ℕ) (t : Option Template)
        → any_where (λ t. t.id == item.template_id && acts tenant_id d item t) d.templates ≡ false
        → find_first (has_template_id item.template_id) d.templates ≡ t
        → Keeps (Untouched d) (
            run_template platform json event_ids service_tenant context_tenant tenant_id item now t)
    unfolding run_template run_anti_backflow
    template_quiet item now none none_act e = Keeps-raise _
    template_quiet item now (some t) none_act e = elim (Bool-cases (t.type == "anti_backflow")) [
      | inl hit ↦ rw hit (
          Keeps-triple _ (
            Triple-bind _ _ (export_read tenant_id d item.station_id) λ l. Triple-given _ λ k.
              triple-Keeps _ (quiet_action item now t l hit k (idle item t e none_act)) λ s u. u))
      | inr miss ↦ rw miss (Keeps-pure _)
    ]
      where
        idle :
            (item : Strategy) (t : Template)
            → find_first (has_template_id item.template_id) d.templates ≡ some t
            → any_where (λ t. t.id == item.template_id && acts tenant_id d item t) d.templates
              ≡ false
            → acts tenant_id d item t ≡ false
        idle item t e h = elim (Bool-cases (acts tenant_id d item t)) [
          | inl yes_acts ↦
              let there =
                found_passes item.template_id (acts tenant_id d item) t d.templates e yes_acts in
              cc
          | inr no_acts ↦ no_acts
        ]

    evaluate_quiet :
        (item : Strategy) (now : ℕ)
        → due tenant_id d now item ≡ false
        → Keeps
            (Untouched d)
            (evaluate platform json event_ids service_tenant context_tenant tenant_id item now)
    unfolding evaluate
    evaluate_quiet item now h = Keeps-triple _ (
        Triple-if _ _ _ (λ inactive. Triple-pure _ λ s u. u)
          λ active. Triple-bind _ _ (calendar_read tenant_id d item.station_id now) λ r.
            Triple-given _ λ open_row.
              Triple-if _ _ _
                (λ window. Triple-bind _ _ (template_read tenant_id d item.template_id) λ t.
                  Triple-given _ λ e.
                    triple-Keeps _
                      (template_quiet item now t
                        (none_due tenant_id d item now active (open_row window) h) e)
                      (λ s u. u))
                (λ shut. Triple-pure _ λ s u. u))

    settle_run-Keeps :
        (item : Strategy) (now : ℕ) (r : Result StrategyError (Unit {0}))
        → Keeps
            (Untouched d)
            (settle_run platform json event_ids service_tenant context_tenant tenant_id item now r)
    unfolding settle_run
    settle_run-Keeps item now (ok x) = Keeps-pure _
    settle_run-Keeps item now (err e) = Keeps-ignore _ (insert_run-Keeps tenant_id d _)

    all_quiet :
        (items : List Strategy) (now : ℕ)
        → any_where (due tenant_id d now) items ≡ false
        → Keeps
            (Untouched d)
            (evaluate_all platform json event_ids service_tenant context_tenant tenant_id items now)
    unfolding evaluate_all any_where
    all_quiet [] now h = Keeps-pure _
    all_quiet (item ∷ rest) now h =
        Keeps-bind _ _ (Keeps-caught _ (evaluate_quiet item now (ground arith)))
          λ r. Keeps-bind _ _ (settle_run-Keeps item now r) λ _. all_quiet rest now (ground arith)

    strategies_read :
        (now : ℕ)
        → any_where (due tenant_id d now) d.strategies ≡ false
        → Triple
            (Untouched d)
            list_auto_enabled
            (λ items s. Untouched d s × (any_where (due tenant_id d now) items ≡ false))
            (Untouched d)
    unfolding list_auto_enabled
    strategies_read now h =
        Triple-after _ (Triple-query _ _) (λ items s k. (k.0, listed items s k.0 k.1))
      where
        listed :
            (items : List Strategy) (s : StrategyDb V)
            → Untouched d s
            → sort_by
                (λ s r. is_le (compare_text s.station_id r.station_id))
                (select auto_enabled s.strategies)
              ≡ items
            → any_where (due tenant_id d now) items ≡ false
        listed items s u e = rw (← e) (
            any_where-sort_by _ _ _
            ∙ (rw u.same_strategies
                (any_where_selected (due tenant_id d now) auto_enabled d.strategies h)))

    tick_quiet :
        (at : ℕ)
        → is_zero at ≡ false
        → any_where (due tenant_id d at) d.strategies ≡ false
        → Keeps
            (Untouched d)
            (tick platform json event_ids service_tenant context_tenant tenant_id at)
    unfolding tick
    tick_quiet at given h = rw given (
        Keeps-triple _ (
          Triple-bind {Q = λ t s. Untouched d s × (t ≡ at)} _ _ (Triple-pure _ λ s u. (u, refl))
            λ t. Triple-given _ λ e. rw e (
              Triple-bind _ _ (strategies_read at h)
                λ items. Triple-given _ λ k. triple-Keeps _ (all_quiet items at k) λ s u. u)))

    -- A tick at a nonzero time at which no strategy is due leaves the commands, the strategies and
    -- what they are decided by as they are, whichever calls of the database fail. A strategy is due
    -- if it is automatic and enabled, inside an enabled window of its station's calendar of that day,
    -- and has an anti-backflow template with a device whose threshold the latest export of the
    -- station is not at or below; an export that is NaN counts as not at or below.
    pub tick_idle :
        (at : ℕ) (w : World (StrategyDb V))
        → is_zero at ≡ false
        → w.db ≡ d
        → any_where (due tenant_id d at) d.strategies ≡ false
        → Untouched d
            (tick platform json event_ids service_tenant context_tenant tenant_id at w).1.db
    tick_idle at w given e h = (tick_quiet at given h).at w (rw e (ground arith))
