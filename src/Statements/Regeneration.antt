-- ===== src/Statements/Regeneration.antt =====
-- `Generate` with `regenerate`: the version of what it makes.
use microgrid_cloud.Prelude.{
  ℕ, String, List, true, false, ◌≡◌, refl, sym, ◌∙◌, ap, subst, leb, Option, Float64, any_where,
  select,
}
use microgrid_cloud.Prelude.Platform.{Platform}
use microgrid_cloud.Prelude.Exec.{World, ok, Triple, Post}
use microgrid_cloud.Prelude.Exec.Rules.{
  Keeps-attempt, Keeps-now, Keeps-guard, Triple-bind, triple-Keeps, Triple-gets, Triple-weaken,
  Triple-pure, Triple-known,
}
use microgrid_cloud.Statements.Domain.{StatementAggregate, StatementItem, StatementDb}
use microgrid_cloud.Statements.Repository.{in_slot, version_after, next_version}
use microgrid_cloud.Statements.Service.{
  new_statement, create_version, generate_for, generate, tenant_of, parse_month, category_of,
}
use microgrid_cloud.Statements.Safety.{create_run, build_items-Keeps}
use microgrid_cloud.Statements.Versions.{version_after-above}

module _ {V : Type 0} ⦃f : Float64 V⦄ (platform : Platform) (service_tenant : String)
    (snapshot : StatementAggregate V → List (StatementItem V) → Option String)
    (d : StatementDb V) where
  -- No statement of the slot reaches the version.
  abbrev Above : String → String → ℕ → String → ℕ → Type 0
  Above tenant station month category n =
      any_where (λ x. leb n x.version) (select (in_slot tenant station month category) d.statements)
      ≡ false

  Above-next :
      (tenant station : String) (month : ℕ) (category : String) (n : ℕ) (d' : StatementDb V)
      → d' ≡ d
      → version_after tenant station month category d' ≡ n
      → Above tenant station month category n
  Above-next tenant station month category n d' same e =
      subst (Above tenant station month category)
        (ap (version_after tenant station month category) (sym same) ∙ e)
        (version_after-above tenant station month category d)

  create_version-Above :
      (tenant station : String) (month : ℕ) (category : String)
      → Triple
          (λ d'. d' ≡ d)
          (create_version platform service_tenant snapshot tenant station month category)
          (λ s _. Above tenant station month category s.version)
          (λ _. Unit {0})
  unfolding create_version next_version new_statement
  create_version-Above tenant station month category =
      Triple-bind _ _
        (Triple-bind _ _ (triple-Keeps _ (Keeps-attempt _) (λ _ _. tt)) λ _. Triple-gets _)
        λ version.
          Triple-weaken {P' = λ _. Above tenant station month category version} _
            (λ d' h. Above-next tenant station month category version d' h.0 h.1)
            (Triple-bind _ _
              (triple-Keeps _ (build_items-Keeps _ platform tenant station month) (λ _ _. tt))
              λ b. Triple-bind _ _ (triple-Keeps _ Keeps-now (λ _ _. tt)) λ t.
                Triple-bind _ _
                  (create_run _ (λ _. Above tenant station month category version) _ _ b.items
                    (λ _ _. tt) (λ _ _ h. h.0.0))
                  λ _. Triple-pure _ (λ _ h. h))

module _ {V : Type 0} ⦃f : Float64 V⦄ (platform : Platform) (service_tenant : String)
    (snapshot : StatementAggregate V → List (StatementItem V) → Option String) where
  regenerate_run :
      (tenant station month category : String) (m : ℕ) (d : StatementDb V)
      → parse_month platform month ≡ ok m
      → Triple
          (λ d'. d' ≡ d)
          (generate platform service_tenant snapshot tenant station month category true)
          (λ s _.
            Above platform service_tenant snapshot d
              (tenant_of service_tenant tenant)
              station
              m
              (category_of category)
              s.version)
          (λ _. Unit {0})
  unfolding generate generate_for
  regenerate_run tenant station month category m d parsed =
      Triple-bind _ _ (triple-Keeps _ (Keeps-guard _ _) (λ _ _. tt)) λ _.
        Triple-known _ m _ parsed (
          create_version-Above platform service_tenant snapshot d (tenant_of service_tenant tenant)
            station m (category_of category))

  -- A statement that `Generate` returns with `regenerate` has a version above every statement that
  -- the tenant, station, month and category had before.
  pub regenerate-above :
      (tenant station month category : String) (m : ℕ) (w w' : World (StatementDb V))
      (s : StatementAggregate V)
      → parse_month platform month ≡ ok m
      → generate platform service_tenant snapshot tenant station month category true w ≡ (ok s, w')
      → any_where
          (λ x. leb s.version x.version)
          (select
            (in_slot (tenant_of service_tenant tenant) station m (category_of category))
            w.db.statements)
        ≡ false
  regenerate-above tenant station month category m w w' s parsed e =
      subst
        (λ p.
          Post
            (λ s _.
              Above platform service_tenant snapshot w.db (tenant_of service_tenant tenant) station
                m (category_of category) s.version)
            (λ _. Unit {0}) p.0 p.1)
        e ((regenerate_run tenant station month category m w.db parsed).run w refl)
