-- ===== src/Statements/Balance.antt =====
-- The ledger of the statements: their totals are the sums of their items.
use microgrid_cloud.Prelude.{
  String, List, [], ◌∷◌, ◌++◌, Bool, true, false, ◌≡◌, refl, subst, ◌==◌, arith, Float64, any_where,
  any_where-append, select, All, Bool-cases, inl, inr, eq_iff,
}
use microgrid_cloud.Statements.Domain.{StatementAggregate, StatementItem, StatementDb}
use microgrid_cloud.Statements.Repository.{has_id, commit}

module _ {A : Type 0} where
  All-++ : (P : A → Type 0) (xs ys : List A) → All P xs → All P ys → All P (xs ++ ys)
  All-++ P [] ys h k = k
  All-++ P (x ∷ xs) ys h k = (h.0, All-++ P xs ys h.1 k)

module _ {V : Type 0} ⦃f : Float64 V⦄ where
  -- Sums in the order of the list, as the loop of the repository adds them.
  unfoldable pub sum_by : (StatementItem V → V) → V → List (StatementItem V) → V
  sum_by value start [] = start
  sum_by value start (i ∷ is) = sum_by value (f.add start (value i)) is

  pub sum_by-append :
      (value : StatementItem V → V) (start : V) (is js : List (StatementItem V))
      → sum_by value start (is ++ js) ≡ sum_by value (sum_by value start is) js
  unfolding sum_by
  sum_by-append value start [] js = refl
  sum_by-append value start (i ∷ is) js = sum_by-append value (f.add start (value i)) is js

  unfoldable pub under : String → StatementItem V → Bool
  under id i = i.statement_id == id

  -- The totals of a statement are the sums of the items.
  pub record Sums (s : StatementAggregate V) (items : List (StatementItem V)) : Type 0 where
    pub energy : s.total_energy_kwh ≡ sum_by (λ i. i.energy_kwh) f.nil items
    pub amount : s.total_amount ≡ sum_by (λ i. i.amount) f.nil items

  -- Every statement's totals are the sums of its own items, and every item has a statement.
  pub record Ledger (d : StatementDb V) : Type 0 where
    pub sums : All (λ s. Sums s (select (under s.id) d.items)) d.statements
    pub owned : All (λ i. any_where (has_id i.statement_id) d.statements ≡ true) d.items

  unowned :
      (id : String) (rows : List (StatementAggregate V)) (is : List (StatementItem V))
      → any_where (has_id id) rows ≡ false
      → All (λ i. any_where (has_id i.statement_id) rows ≡ true) is
      → select (under id) is ≡ []
  unfolding select under
  unowned id rows [] fresh h = refl
  unowned id rows (i ∷ is) fresh h = elim (Bool-cases (i.statement_id == id)) [
    | inl hit ↦
        let same : i.statement_id ≡ id = (eq_iff i.statement_id id).0 hit in
        let owned : any_where (has_id id) rows ≡ true =
          subst (λ k. any_where (has_id k) rows ≡ true) same h.0 in
        cc
    | inr miss ↦ rw miss (unowned id rows is fresh h.1)
  ]

  select-All :
      (id : String) (is : List (StatementItem V))
      → All (λ i. under id i ≡ true) is
      → select (under id) is ≡ is
  unfolding select
  select-All id [] h = refl
  select-All id (i ∷ is) h = rw h.0 (rw (select-All id is h.1) refl)

  select_none :
      (id k : String) (is : List (StatementItem V))
      → id == k ≡ false
      → All (λ i. under id i ≡ true) is
      → select (under k) is ≡ []
  unfolding select under
  select_none id k [] apart h = refl
  select_none id k (i ∷ is) apart h =
      let other : i.statement_id == k ≡ false = ground (arith, eq_iff i.statement_id id, h.0) in
      rw other (select_none id k is apart h.1)

  select-++ :
      (p : StatementItem V → Bool) (is js : List (StatementItem V))
      → select p (is ++ js) ≡ select p is ++ select p js
  unfolding select
  select-++ p [] js = refl
  select-++ p (i ∷ is) js = elim (Bool-cases (p i)) [
    | inl hit ↦ rw hit (rw (select-++ p is js) refl)
    | inr miss ↦ rw miss (select-++ p is js)
  ]

  nil_right : (is : List (StatementItem V)) → is ++ [] ≡ is
  nil_right [] = refl
  nil_right (i ∷ is) = rw (nil_right is) refl

  -- New items under another id leave the sums of a statement.
  Sums-later :
      (id : String) (rows : List (StatementAggregate V)) (old new : List (StatementItem V))
      → any_where (has_id id) rows ≡ false
      → All (λ i. under id i ≡ true) new
      → All (λ s. Sums s (select (under s.id) old)) rows
      → All (λ s. Sums s (select (under s.id) (old ++ new))) rows
  unfolding any_where
  Sums-later id [] old new fresh h all = tt
  Sums-later id (s ∷ rows) old new fresh h all =
      let apart : id == s.id ≡ false = ground (arith, eq_iff id s.id, eq_iff s.id id) in
      (
        rw
            (
              select-++ (under s.id) old new,
              select_none id s.id new apart h,
              nil_right (select (under s.id) old),
            )
            all.0,
        Sums-later id rows old new (ground arith) h all.1,
      )

  owned_later :
      (s : StatementAggregate V) (rows : List (StatementAggregate V)) (is : List (StatementItem V))
      → All (λ i. any_where (has_id i.statement_id) rows ≡ true) is
      → All (λ i. any_where (has_id i.statement_id) (rows ++ s ∷ []) ≡ true) is
  owned_later s rows [] h = tt
  owned_later s rows (i ∷ is) h = (
    rw (any_where-append (has_id i.statement_id) rows s) (ground arith),
    owned_later s rows is h.1,
  )

  owned_new :
      (s : StatementAggregate V) (rows : List (StatementAggregate V)) (is : List (StatementItem V))
      → All (λ i. under s.id i ≡ true) is
      → All (λ i. any_where (has_id i.statement_id) (rows ++ s ∷ []) ≡ true) is
  unfolding under
  owned_new s rows [] h = tt
  owned_new s rows (i ∷ is) h = (
    rw (any_where-append (has_id i.statement_id) rows s)
        (ground (arith, eq_iff i.statement_id s.id, eq_iff s.id i.statement_id)),
    owned_new s rows is h.1,
  )

  -- A commit of a new statement with items that sum to its totals.
  pub commit-Ledger :
      (s : StatementAggregate V) (new : List (StatementItem V)) (d : StatementDb V)
      → any_where (has_id s.id) d.statements ≡ false
      → All (λ i. under s.id i ≡ true) new
      → Sums s new
      → Ledger d
      → Ledger (commit s new d)
  unfolding commit
  commit-Ledger s new d fresh mine total h = record {
    sums =
        All-++ _ d.statements (s ∷ []) (Sums-later s.id d.statements d.items new fresh mine h.sums)
          (
            rw
                (
                  select-++ (under s.id) d.items new,
                  unowned s.id d.statements d.items fresh h.owned,
                  select-All s.id new mine,
                )
                total,
            tt,
          );
    owned =
        All-++ _ d.items new (owned_later s d.statements d.items h.owned)
          (owned_new s d.statements new mine);
  }
