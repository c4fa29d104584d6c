-- ===== src/Strategy/Sharing.antt =====
-- The template of a type that all stations share, and setting the mode of one of them.
use microgrid_cloud.Prelude.{
  ℕ, String, List, [], ◌∷◌, Bool, true, false, not, ◌&&◌, Option, none, ◌≡◌, refl, arith, ◌==◌,
  any_where, update_where, any_where-append, any_where-weaken, Bool-cases, inl, inr, eq_iff,
  Float64,
}
use microgrid_cloud.Prelude.Exec.{Result, ok, err, World, Triple, Post, Keeps}
use microgrid_cloud.Prelude.Exec.Rules.{
  Keeps-attempt, Keeps-bind, Keeps-now, Keeps-modify, Keeps-guard, Keeps-with_db, Keeps-gets,
  triple-Keeps, Triple-bind, Triple-modify,
}
use microgrid_cloud.Strategy.Domain.{Strategy, Template, StrategyDb, StrategyError, Numbers}
use microgrid_cloud.Strategy.Repository.{
  has_template_id, upsert, upsert_template, put_template, upsert_strategy, put_strategy,
  get_strategy,
}
use microgrid_cloud.Strategy.Service.{
  set_mode, ensure_template, template_payload, default_template_type, template_id_for_type,
}
use microgrid_cloud.Strategy.Engine.{params_of}
use microgrid_cloud.Strategy.Due.{due, acts}

abbrev pub shared_id : String
shared_id = template_id_for_type default_template_type

-- A row of the shared template whose parameters are not the empty object.
abbrev pub kept : Template → Bool
kept t = t.id == shared_id && not (t.params == "{}")

module _ {V : Type 0} where
  -- The shared template has no parameters.
  abbrev pub Emptied : StrategyDb V → Type 0
  Emptied d = any_where kept d.templates ≡ false

emptied_rows :
    (p : Template → Bool) (f : Template → Template) (rows : List Template)
    → ((t : Template) → p t ≡ false → kept t ≡ false)
    → ((t : Template) → kept (f t) ≡ false)
    → any_where kept (update_where p f rows) ≡ false
unfolding any_where update_where
emptied_rows p f [] other empty = refl
emptied_rows p f (t ∷ rows) other empty = elim (Bool-cases (p t)) [
  | inl hit ↦ rw (hit, empty t) (emptied_rows p f rows other empty)
  | inr miss ↦ rw (miss, other t miss) (emptied_rows p f rows other empty)
]

emptied_upsert :
    (p : Template → Bool) (f : Template → Template) (new : Template) (rows : List Template)
    → ((t : Template) → p t ≡ false → kept t ≡ false)
    → ((t : Template) → kept (f t) ≡ false)
    → kept new ≡ false
    → any_where kept (upsert p f new rows) ≡ false
unfolding upsert
emptied_upsert p f new rows other empty fresh = elim (Bool-cases (any_where p rows)) [
  | inl there ↦ rw there (emptied_rows p f rows other empty)
  | inr none_there ↦
      rw (none_there, any_where-append kept rows new)
        (ground (arith, any_where-weaken p kept rows other none_there))
]

module _ {V : Type 0} where
  Always : StrategyDb V → Type 0
  Always d = Unit

  always : (d : StrategyDb V) → Always d
  unfolding Always
  always d = tt

  template_written :
      Triple Always
        (ensure_template shared_id default_template_type none)
        (λ _. Emptied {V = V})
        Always
  unfolding ensure_template upsert_template put_template template_payload Always
  template_written = Triple-bind _ _ (triple-Keeps _ Keeps-now λ s u. u) λ at.
      Triple-bind _ _ (triple-Keeps _ (Keeps-attempt _) λ s u. u) λ _. Triple-modify _ λ s u.
        emptied_upsert (has_template_id shared_id) _ _ s.templates (λ t h. rw h refl)
          (λ t. ground arith) (ground arith)

  strategy_kept : (s : Strategy) → Keeps (Emptied {V = V}) (upsert_strategy s)
  unfolding upsert_strategy put_strategy
  strategy_kept s = Keeps-bind _ _ Keeps-now λ _.
      Keeps-bind _ _ (Keeps-attempt _)
        λ _. Keeps-bind _ _ (Keeps-with_db _ λ _. Keeps-guard _ _) λ _. Keeps-modify _ λ d h. h

  strategy_read : (id : String) → Keeps (Emptied {V = V}) (get_strategy id)
  unfolding get_strategy
  strategy_read id = Keeps-bind _ _ (Keeps-attempt _) λ _. Keeps-gets _

  mode_emptied :
      (station_id mode : String)
      → Triple Always (set_mode station_id mode) (λ _. Emptied {V = V}) Always
  unfolding set_mode Always
  mode_emptied station_id mode = Triple-bind _ _ (triple-Keeps _ (Keeps-guard _ _) λ s u. u) λ _.
      Triple-bind _ _ (triple-Keeps _ (Keeps-guard _ _) λ s u. u) λ _.
        Triple-bind _ _ template_written λ _.
          triple-Keeps _ (Keeps-bind _ _ (strategy_kept _) λ _. strategy_read station_id)
            (λ s u. tt)

  succeeded :
      (r : Result StrategyError (Option Strategy)) (w : World (StrategyDb V)) (s : Option Strategy)
      → Post (λ _. Emptied {V = V}) Always r w
      → r ≡ ok s
      → Emptied w.db
  succeeded (ok a) w s h e = h
  succeeded (err x) w s h e = cc

module _ {V : Type 0} ⦃f : Float64 V⦄ ⦃n : Numbers V⦄ (tenant_id : String) where
  emptied-idle :
      (d : StrategyDb V) (item : Strategy) (t : Template)
      → (n.decode "{}").device_id == "" ≡ true
      → item.template_id ≡ shared_id
      → kept t ≡ false
      → (t.id == item.template_id && acts tenant_id d item t) ≡ false
  unfolding acts params_of
  emptied-idle d item t bare shared h = rw shared (elim (Bool-cases (t.params == "{}")) [
    | inl empty ↦
        let same : t.params ≡ "{}" = (eq_iff t.params "{}").0 empty in
        rw same (rw bare (ground arith))
    | inr filled ↦ ground arith
  ])

  -- Where an empty JSON object names no device: once the mode of any station is set, no strategy with
  -- the anti-backflow template is due at any time, at whatever station, since the call empties the
  -- parameters that all of them share.
  pub set_mode_disarms :
      (station_id mode : String) (w : World (StrategyDb V)) (s : Option Strategy) (item : Strategy)
      (now : ℕ)
      → (n.decode "{}").device_id == "" ≡ true
      → (set_mode station_id mode w).0 ≡ ok s
      → item.template_id ≡ shared_id
      → due tenant_id (set_mode station_id mode w).1.db now item ≡ false
  unfolding due
  set_mode_disarms station_id mode w s item now bare h shared =
      let d = (set_mode station_id mode w).1.db in
      let emptied =
        succeeded (set_mode station_id mode w).0 (set_mode station_id mode w).1 s
          ((mode_emptied station_id mode).run w (always w.db)) h in
      let idle =
        any_where-weaken kept (λ t. t.id == item.template_id && acts tenant_id d item t) d.templates
          (λ t k. emptied-idle d item t bare shared k) emptied in
      ground arith
