-- ===== src/Statements/Versions.antt =====
-- Which version `Generate` answers with.
use microgrid_cloud.Prelude.{
  ℕ, suc, String, List, [], ◌∷◌, Bool, true, false, ◌≡◌, refl, sym, ◌∙◌, subst, ◌≤◌, ◌==◌, leb,
  arith, Option, none, some, Float64, any_where, select, latest, select-append, latest-append,
  latest-passes, any_where-select, Bool-cases, Option-cases, inl, inr, eq_refl,
}
use microgrid_cloud.Prelude.Platform.{Platform}
use microgrid_cloud.Prelude.Exec.{World, ok, Triple, Post, pure, raise, ◌>>=◌}
use microgrid_cloud.Prelude.Exec.Rules.{
  Keeps-attempt, Keeps-now, Keeps-guard, Triple-bind, triple-Keeps, Triple-gets, Triple-if,
  Triple-weaken, Triple-raise, Triple-pure, Triple-known,
}
use microgrid_cloud.Statements.Domain.{
  StatementAggregate, StatementItem, StatementDb, tenant_mismatch,
}
use microgrid_cloud.Statements.Repository.{
  Built, in_slot, current_in_slot, latest_active, find_latest_active, version_after, next_version,
  commit,
}
use microgrid_cloud.Statements.Service.{
  foreign, new_statement, create_version, reuse, generate_for, generate, tenant_of, parse_month,
  category_of,
}
use microgrid_cloud.Statements.Safety.{create_run, build_items-Keeps}

module _ {V : Type 0} where
  -- No version of the slot reaches the next one.
  below_next :
      (n : ℕ) (xs : List (StatementAggregate V))
      → ((s : StatementAggregate V) → latest (λ s. s.version) xs ≡ some s → suc s.version ≤ n)
      → any_where (λ s. leb n s.version) xs ≡ false
  unfolding any_where latest
  below_next n [] h = refl
  below_next n (x ∷ xs) h = elim (Option-cases (latest (λ s. s.version) xs)) [
    | inl e ↦
        let top = h x (rw e refl) in
        let others = below_next n xs (λ s k. absurd (none_some s (sym e ∙ k))) in ground arith
    | inr (y, e) ↦ elim (Bool-cases (leb y.version x.version)) [
      | inl above ↦
          let top = h x (rw e (rw above refl)) in
          let others =
            below_next n xs (λ s k. let same : some y ≡ some s = sym e ∙ k in ground arith) in
          ground arith
      | inr below ↦
          let top = h y (rw e (rw below refl)) in
          let others =
            below_next n xs (λ s k. let same : some y ≡ some s = sym e ∙ k in ground arith) in
          ground arith
    ]
  ]
    where
      none_some :
          (s : StatementAggregate V) → ◌≡◌ {A = Option (StatementAggregate V)} none (some s) → ⊥
      none_some s h = cc

  pub version_after-above :
      (tenant station : String) (month : ℕ) (category : String) (d : StatementDb V)
      → any_where
          (λ s. leb (version_after tenant station month category d) s.version)
          (select (in_slot tenant station month category) d.statements)
        ≡ false
  unfolding version_after
  version_after-above tenant station month category d = below_next _ _ λ s e. rw e (omega arith)

module _ {V : Type 0} ⦃f : Float64 V⦄ (platform : Platform) (service_tenant : String)
    (snapshot : StatementAggregate V → List (StatementItem V) → Option String) where
  -- A draft under the next version is the latest current statement once it is committed.
  latest_of_commit :
      (tenant station : String) (month : ℕ) (category : String) (version : ℕ) (b : Built V) (t : ℕ)
      (inserted : List (StatementItem V)) (d : StatementDb V)
      → version_after tenant station month category d ≡ version
      → let s =
          new_statement platform service_tenant snapshot tenant station month category version b
            t in
        latest_active tenant station month category (commit s inserted d) ≡ some s
  unfolding latest_active commit current_in_slot new_statement in_slot
  latest_of_commit tenant station month category version b t inserted d e =
      let s =
        new_statement platform service_tenant snapshot tenant station month category version b t in
      let above =
        subst
          (λ n.
            any_where (λ s. leb n s.version)
              (select (in_slot tenant station month category) d.statements)
            ≡ false)
          e (version_after-above tenant station month category d) in
      let others =
        any_where-select (λ s. leb version s.version) (in_slot tenant station month category)
          (current_in_slot tenant station month category) d.statements (λ s h. ground arith)
          above in
      let taken : current_in_slot tenant station month category s ≡ true =
        rw (eq_refl tenant, eq_refl station, eq_refl category) (ground arith) in
      rw (select-append (current_in_slot tenant station month category) d.statements s, taken)
        (latest-append (λ s. s.version) _ s others)

  module _ (tenant station : String) (month : ℕ) (category : String) where
    -- The statement is the latest current one of its slot.
    abbrev Newest : StatementAggregate V → StatementDb V → Type 0
    Newest s d = latest_active tenant station month category d ≡ some s

    abbrev Any : StatementDb V → Type 0
    Any d = Unit

    create_version_run :
        Triple Any
          (create_version platform service_tenant snapshot tenant station month category)
          Newest
          Any
    unfolding create_version next_version
    create_version_run =
        Triple-bind _ _
          (Triple-bind _ _ (triple-Keeps _ (Keeps-attempt _) (λ d h. h)) λ _. Triple-gets _)
          λ version.
            Triple-bind _ _
              (triple-Keeps _ (build_items-Keeps _ platform tenant station month) (λ d h. tt))
              λ b. Triple-bind _ _ (triple-Keeps _ Keeps-now (λ d h. tt)) λ t.
                Triple-bind _ _
                  (create_run _
                    (Newest (
                      new_statement platform service_tenant snapshot tenant station month category
                        version b t))
                    Any _ b.items (λ d h. tt)
                    (λ d inserted h.
                      latest_of_commit tenant station month category version b t inserted d
                        h.0.0.1))
                  λ _. Triple-pure _ (λ d h. h)

    reuse_run :
        (found : Option (StatementAggregate V))
        → Triple
            (λ d. Any d × (latest_active tenant station month category d ≡ found))
            (reuse platform service_tenant snapshot tenant station month category found)
            Newest
            Any
    unfolding reuse
    reuse_run none = Triple-weaken _ (λ d h. tt) create_version_run
    reuse_run (some s) =
        Triple-if _ (raise tenant_mismatch) (pure s) (λ _. Triple-raise _ (λ d h. tt))
          (λ _. Triple-pure _ (λ d h. h.1))

    generate_for_run :
        (again : Bool)
        → Triple Any
            (generate_for platform service_tenant snapshot tenant station month category again)
            Newest
            Any
    unfolding generate_for find_latest_active
    generate_for_run true = create_version_run
    generate_for_run false =
        Triple-bind _ _
          (Triple-bind _ _ (triple-Keeps _ (Keeps-attempt _) (λ d h. h)) λ _. Triple-gets _)
          reuse_run

  module _ (tenant station month category : String) (m : ℕ)
      (parsed : parse_month platform month ≡ ok m) where
    generate_run :
        (again : Bool)
        → Triple
            (Any "" "" 0 "")
            (generate platform service_tenant snapshot tenant station month category again)
            (Newest (tenant_of service_tenant tenant) station m (category_of category))
            (Any "" "" 0 "")
    unfolding generate
    generate_run again = Triple-bind _ _ (triple-Keeps _ (Keeps-guard _ _) (λ d h. h)) λ _.
        Triple-known _ m _ parsed (
          generate_for_run (tenant_of service_tenant tenant) station m (category_of category) again)

    -- A statement that `Generate` returns, whether it was made or found, is the current statement
    -- with the latest version that a later lookup finds for its tenant, station, month and category.
    pub generate-newest :
        (again : Bool) (w w' : World (StatementDb V)) (s : StatementAggregate V)
        → generate platform service_tenant snapshot tenant station month category again w
          ≡ (ok s, w')
        → latest_active (tenant_of service_tenant tenant) station m (category_of category) w'.db
          ≡ some s
    generate-newest again w w' s e =
        subst
          (λ p.
            Post (Newest (tenant_of service_tenant tenant) station m (category_of category))
              (Any "" "" 0 "") p.0 p.1)
          e ((generate_run again).run w tt)

    slot_tenant :
        (tenant' : String) (s : StatementAggregate V)
        → current_in_slot tenant' station m (category_of category) s ≡ true
        → foreign tenant' s ≡ false
    unfolding current_in_slot in_slot foreign
    slot_tenant tenant' s own = ground arith

    own_tenant :
        (tenant' : String) (d : StatementDb V) (s : StatementAggregate V)
        → latest_active tenant' station m (category_of category) d ≡ some s
        → foreign tenant' s ≡ false
    unfolding latest_active
    own_tenant tenant' d s h =
        slot_tenant tenant' s (latest-passes (λ s. s.version) _ d.statements s h)

    -- Asked again without `regenerate` while no call of the database fails, `Generate` answers with
    -- the statement that it returned before, whichever way it got it, and changes nothing.
    pub generate_again :
        (again : Bool) (w w' : World (StatementDb V)) (s : StatementAggregate V)
        → station == "" ≡ false
        → generate platform service_tenant snapshot tenant station month category again w
          ≡ (ok s, w')
        → w'.outcomes ≡ []
        → generate platform service_tenant snapshot tenant station month category false w'
          ≡ (ok s, w')
    unfolding generate generate_for reuse find_latest_active ◌>>=◌
    generate_again again w w' s named e calm =
        let found = generate-newest again w w' s e in
        let own = own_tenant (tenant_of service_tenant tenant) w'.db s found in
        rw (named, parsed, calm, found, own) refl
