-- ===== src/Shadowrun/Prices.antt =====
-- The price of an hour in a comparison, and the price that the settlement's provider gives.
use microgrid_cloud.Prelude.{
  ℕ, ◌+◌, ◌*◌, String, List, [], ◌∷◌, ◌++◌, Bool, true, false, ◌&&◌, Option, none, some, ◌≡◌, refl,
  sym, subst, ap, ◌∙◌, ◌==◌, is_zero, find_first, select, sort_by, hour_of, minute_of, Bool-cases,
  Option-cases, inl, inr, arith, Float64, map,
}
use microgrid_cloud.Prelude.Platform.{Platform}
use microgrid_cloud.Prelude.Sorting.{first, by_key, find_first-sort_by}
use microgrid_cloud.Prelude.Exec.{calm, World, caught, Result, ok, err, ◌>>=◌}
use microgrid_cloud.Tariffs.Domain.{
  TariffPlan, TariffRule, TariffError, plan_not_found, rule_not_found, unknown_mode,
}
use microgrid_cloud.Tariffs.Provider.{
  plan_for, of_plan, covers, row_or, load_plan, load_rule_price, known_mode, price_at,
}
use microgrid_cloud.Shadowrun.Domain.{
  StatisticRow, HourStat, ReconcileResult, ShadowDb, ShadowError,
}
use microgrid_cloud.Shadowrun.Reconcile.{
  Tariff, rules_of, load_rules, load_tariff, match_rule, statistic_rows, energy_of, priced,
  hour_stat, tariff_or, load_hour_stats, load_day_stats, load_settlements, load_statements,
  reconcile,
}

refused :
    {A B : Type 0} (e : ShadowError) (a : A) (v w : B)
    → ◌≡◌ {A = Result ShadowError A × B} (err e, v) (ok a, w)
    → ⊥
refused e a v w h = cc

cons_nil : {A : Type 0} {x : A} {l : List A} → ◌≡◌ {A = List A} [] (x ∷ l) → ⊥
cons_nil e = cc

module _ {V : Type 0} where
  select-both :
      (p q : TariffRule V → Bool) (rules : List (TariffRule V))
      → select q (select p rules) ≡ select (λ r. p r && q r) rules
  unfolding select
  select-both p q [] = refl
  select-both p q (r ∷ rest) = elim (Bool-cases (p r)) [
    | inl hit ↦ elim (Bool-cases (q r)) [
      | inl here ↦ rw (hit, here, select-both p q rest) refl
      | inr there ↦ rw (hit, there, select-both p q rest) refl
    ]
    | inr miss ↦ rw (miss, select-both p q rest) refl
  ]

  -- A scan of a plan's ordered rules finds what the query finds.
  match_rule-eq-query :
      (plan : TariffPlan) (rules : List (TariffRule V)) (minute : ℕ)
      → match_rule (rules_of plan rules) minute
        ≡ first (
            sort_by
              (by_key (λ r. r.start_minute))
              (select (λ r. of_plan plan.id r && covers minute r) rules))
  unfolding match_rule rules_of
  match_rule-eq-query plan rules minute =
      find_first-sort_by (λ r. r.start_minute) (covers minute) (select (of_plan plan.id) rules)
      ∙ ap (λ l. first (sort_by (by_key (λ r. r.start_minute)) l))
          (select-both (of_plan plan.id) (covers minute) rules)

  hours_or : Result ShadowError (ReconcileResult V) → List (HourStat V)
  hours_or (ok r) = r.hours
  hours_or (err e) = []

module _ {V : Type 0} ⦃f : Float64 V⦄ where
  abbrev pub PricedAt : V → HourStat V → Type 0
  PricedAt price h = (h.price_per_kwh ≡ price) × (h.amount ≡ f.mul h.energy_kwh price)

  -- How an hour of a comparison is priced, by what the provider answers for its start: by the
  -- provider's price; by the fallback price where there is no plan; not at all where no rule of the
  -- plan covers it. The comparison does not look at the mode, which the provider refuses.
  abbrev pub Agrees : V → HourStat V → Result TariffError V → Type 0
  Agrees fallback h (ok price) = (known_mode h.tariff_mode ≡ true) × PricedAt price h
  Agrees fallback h (err plan_not_found) = (h.tariff_plan_id ≡ "fixed") × PricedAt fallback h
  Agrees fallback h (err rule_not_found) =
      (h.tariff_rule_id ≡ "") × (h.price_per_kwh ≡ f.nil) × (h.amount ≡ f.nil)
  Agrees fallback h (err unknown_mode) = known_mode h.tariff_mode ≡ false
  Agrees fallback h (err _) = ⊥

  abbrev fixed_rule : V → TariffRule V
  fixed_rule fallback = record {
    id = "fixed";
    plan_id = "";
    start_minute = 0;
    end_minute = 1440;
    price_per_kwh = fallback;
  }

  abbrev fixed_tariff : V → Tariff V
  fixed_tariff fallback = (
    record {
      id = "fixed";
      tenant_id = "";
      station_id = "";
      effective_month = 0;
      currency = "CNY";
      mode = "fixed";
    },
    fixed_rule fallback ∷ [],
  )

  module _ (tenant_id station_id : String) (month end : ℕ) (fallback : V) (d : ShadowDb V)
      (clock : ℕ → ℕ) (reads : ℕ) where
    -- The hours of a comparison are priced by the station's plan, or by the fixed price if it has none.
    planned_hours :
        (plan : TariffPlan) (result : ReconcileResult V) (w : World (ShadowDb V))
        → find_first (plan_for tenant_id station_id month) d.tariffs.plans ≡ some plan
        → reconcile tenant_id station_id month end fallback (calm d clock reads) ≡ (ok result, w)
        → result.hours
          ≡ map
              (hour_stat (plan, rules_of plan d.tariffs.rules))
              (statistic_rows station_id "HOUR" month end d)
    unfolding reconcile load_tariff load_rules tariff_or caught load_hour_stats load_day_stats
        load_settlements load_statements hours_or ◌>>=◌
    planned_hours plan result w found h = sym (ap (λ x. hours_or x.0) (rw found at h))

    unplanned_hours :
        (result : ReconcileResult V) (w : World (ShadowDb V))
        → find_first (plan_for tenant_id station_id month) d.tariffs.plans ≡ none
        → reconcile tenant_id station_id month end fallback (calm d clock reads) ≡ (ok result, w)
        → result.hours
          ≡ map (hour_stat (fixed_tariff fallback)) (statistic_rows station_id "HOUR" month end d)
    unfolding reconcile load_tariff load_rules tariff_or caught load_hour_stats load_day_stats
        load_settlements load_statements hours_or ◌>>=◌
    unplanned_hours result w absent h = elim (Bool-cases (f.le fallback f.nil)) [
      | inl bare ↦ absurd (refused _ _ _ _ (rw (absent, bare) at h))
      | inr given ↦ sym (ap (λ x. hours_or x.0) (rw (absent, given) at h))
    ]

    module _ (platform : Platform) where
      -- An hour of a plan's station, by what the provider finds.
      by_plan :
          (plan : TariffPlan) (r : StatisticRow V)
          → tenant_id == "" ≡ false
          → station_id == "" ≡ false
          → is_zero r.period_start ≡ false
          → platform.month_start r.period_start ≡ month
          → minute_of r.period_start ≡ 0
          → find_first (plan_for tenant_id station_id month) d.tariffs.plans ≡ some plan
          → Agrees fallback
              (hour_stat (plan, rules_of plan d.tariffs.rules) r)
              (price_at platform tenant_id station_id r.period_start (calm d.tariffs clock reads)).0
      unfolding price_at load_plan load_rule_price row_or hour_stat priced energy_of ◌>>=◌
      by_plan plan r named placed given in_month whole found =
          let minute = hour_of r.period_start * 60 in
          let on_hour : minute + 0 ≡ minute = omega arith in
          rw
            (
              named,
              placed,
              given,
              in_month,
              found,
              whole,
              on_hour,
              match_rule-eq-query plan d.tariffs.rules minute,
            )
            (elim (Option-cases (
              first (
                sort_by (by_key (λ r. r.start_minute))
                  (select (λ r. of_plan plan.id r && covers minute r) d.tariffs.rules)))) [
                    | inl no_rule ↦ rw no_rule (refl, refl, refl)
                    | inr (rule, there) ↦ rw there (elim (Bool-cases (known_mode plan.mode)) [
                      | inl known ↦ rw known (known, (refl, refl))
                      | inr unknown ↦ rw unknown unknown
                    ])
                  ])

      -- An hour of a station without a plan.
      by_fallback :
          (r : StatisticRow V)
          → tenant_id == "" ≡ false
          → station_id == "" ≡ false
          → is_zero r.period_start ≡ false
          → platform.month_start r.period_start ≡ month
          → find_first (plan_for tenant_id station_id month) d.tariffs.plans ≡ none
          → Agrees fallback
              (hour_stat (fixed_tariff fallback) r)
              (price_at platform tenant_id station_id r.period_start (calm d.tariffs clock reads)).0
      unfolding price_at load_plan row_or hour_stat priced energy_of match_rule find_first ◌>>=◌
      by_fallback r named placed given in_month absent =
          let covered : covers (hour_of r.period_start * 60) (fixed_rule fallback) ≡ true =
            ground arith in
          rw (named, placed, given, in_month, absent, covered) (refl, (refl, refl))

  priced-row :
      (plan : TariffPlan) (r : StatisticRow V) (found : Option (TariffRule V))
      → (priced plan r found).row ≡ r
  unfolding priced
  priced-row plan r none = refl
  priced-row plan r (some rule) = refl

  hour_stat-row : (tariff : Tariff V) (r : StatisticRow V) → (hour_stat tariff r).row ≡ r
  unfolding hour_stat
  hour_stat-row (plan, rules) r = priced-row plan r _

  -- An hour out of a comparison's is what the tariff makes of its row.
  among :
      (tariff : Tariff V) (rows : List (StatisticRow V)) (before after : List (HourStat V))
      (h : HourStat V)
      → map (hour_stat tariff) rows ≡ before ++ h ∷ after
      → hour_stat tariff h.row ≡ h
  among tariff [] [] after h e = absurd (cons_nil e)
  among tariff [] (b ∷ before) after h e = absurd (cons_nil e)
  among tariff (r ∷ rows) [] after h e =
      let own : hour_stat tariff r ≡ h = cc in
      subst (λ k. hour_stat tariff k.row ≡ k) own (ap (hour_stat tariff) (hour_stat-row tariff r))
  among tariff (r ∷ rows) (b ∷ before) after h e = among tariff rows before after h cc

  module _ (platform : Platform) (tenant_id station_id : String) (month end : ℕ) (fallback : V)
      (d : ShadowDb V) (clock : ℕ → ℕ) (reads : ℕ) where
    -- Where no call of the database fails, every hour of a comparison of a month that starts in that
    -- month and on the hour, at a nonzero time, agrees with the price that the provider gives for its
    -- start. If the provider gives a price, that is the hour's, and its amount is the energy at that
    -- price; if there is no plan, it is priced at the fallback price; if no rule of the plan covers
    -- it, it has no price and no amount; if the provider refuses the plan's mode, the hour's mode is
    -- not a known one. The provider has no other answer. Where two plans of the month, or two rules
    -- of one start, stand for the same hour, both take the first of the table.
    pub price_at-eq-reconciled :
        (result : ReconcileResult V) (w : World (ShadowDb V)) (before after : List (HourStat V))
        (h : HourStat V)
        → reconcile tenant_id station_id month end fallback (calm d clock reads) ≡ (ok result, w)
        → result.hours ≡ before ++ h ∷ after
        → tenant_id == "" ≡ false
        → station_id == "" ≡ false
        → is_zero h.row.period_start ≡ false
        → platform.month_start h.row.period_start ≡ month
        → minute_of h.row.period_start ≡ 0
        → Agrees fallback h
            (price_at platform tenant_id station_id h.row.period_start
              (calm d.tariffs clock reads)).0
    price_at-eq-reconciled result w before after h k e named placed given in_month whole =
        elim (Option-cases (find_first (plan_for tenant_id station_id month) d.tariffs.plans)) [
          | inl absent ↦
              subst
                (λ x.
                  Agrees fallback x
                    (price_at platform tenant_id station_id h.row.period_start
                      (calm d.tariffs clock reads)).0)
                (among _ _ before after h (
                  sym (
                    unplanned_hours tenant_id station_id month end fallback d clock reads result w
                      absent k)
                  ∙ e))
                (by_fallback tenant_id station_id month end fallback d clock reads platform h.row
                  named placed given in_month absent)
          | inr (plan, found) ↦
              subst
                (λ x.
                  Agrees fallback x
                    (price_at platform tenant_id station_id h.row.period_start
                      (calm d.tariffs clock reads)).0)
                (among _ _ before after h (
                  sym (
                    planned_hours tenant_id station_id month end fallback d clock reads plan result
                      w found k)
                  ∙ e))
                (by_plan tenant_id station_id month end fallback d clock reads platform plan h.row
                  named placed given in_month whole found)
        ]
