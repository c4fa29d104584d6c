-- ===== src/Statements/Sums.antt =====
-- The totals that a generation computes are the sums of the items that it inserts.
use microgrid_cloud.Prelude.{
  ℕ, String, List, [], ◌∷◌, true, false, ◌≡◌, refl, sym, subst, ◌∙◌, arith, Float64, any_where,
  any_where-weaken, All, eq_refl,
}
use microgrid_cloud.Prelude.Platform.{Platform}
use microgrid_cloud.Prelude.Exec.{Keeps, Triple}
use microgrid_cloud.Prelude.Exec.Rules.{
  Keeps-attempt, Keeps-now, Keeps-triple, Triple-bind, triple-Keeps, Triple-pure, Keeps-gets,
}
use microgrid_cloud.Statements.Domain.{
  StatementAggregate, StatementItem, SettlementDay, StatementDb,
}
use microgrid_cloud.Statements.Repository.{
  Built, has_id, clash, add_row, add_rows, build_items_from_settlements, create_with_items,
}
use microgrid_cloud.Statements.Safety.{create_run, placed}
use microgrid_cloud.Statements.Balance.{sum_by, sum_by-append, under, Sums, Ledger, commit-Ledger}

module _ {V : Type 0} ⦃f : Float64 V⦄ where
  -- The totals so far are the sums of the items so far.
  pub record Tallied (b : Built V) : Type 0 where
    pub energy : b.total_energy_kwh ≡ sum_by (λ i. i.energy_kwh) f.nil b.items
    pub amount : b.total_amount ≡ sum_by (λ i. i.amount) f.nil b.items

  add_row-Tallied :
      (t : ℕ) (row : SettlementDay V) (b : Built V) → Tallied b → Tallied (add_row t row b)
  unfolding add_row sum_by
  add_row-Tallied t row b h = record {
    energy = rw (h.energy, sum_by-append (λ i. i.energy_kwh) f.nil b.items) refl;
    amount = rw (h.amount, sum_by-append (λ i. i.amount) f.nil b.items) refl;
  }

  module _ (P R : StatementDb V → Type 0) (weaker : (d : StatementDb V) → P d → R d) where
    add_rows_run :
        (b : Built V) (rows : List (SettlementDay V))
        → Tallied b
        → Triple P (add_rows b rows) (λ b' d. P d × Tallied b') R
    unfolding add_rows
    add_rows_run b [] h = Triple-pure _ λ d p. (p, h)
    add_rows_run b (row ∷ rows) h =
        Triple-bind _ _ (triple-Keeps _ Keeps-now weaker)
          λ t. add_rows_run (add_row t row b) rows (add_row-Tallied t row b h)

    pub build_items_run :
        (platform : Platform) (tenant station : String) (month : ℕ)
        → Triple P
            (build_items_from_settlements platform tenant station month)
            (λ b d. P d × Tallied b)
            R
    unfolding build_items_from_settlements sum_by
    build_items_run platform tenant station month =
        Triple-bind _ _ (triple-Keeps _ (Keeps-attempt _) weaker) λ _.
          Triple-bind _ _ (triple-Keeps _ (Keeps-gets _) weaker) λ rows.
            Triple-bind _ _ (add_rows_run _ rows (record { energy = refl; amount = refl }))
              λ b. Triple-pure _ λ d h. (h.0, record { energy = h.1.energy; amount = h.1.amount })

  sum_by-placed :
      (value : StatementItem V → V) (start : V) (id : String) (items : List (StatementItem V))
      → ((i : StatementItem V) → value (record i { statement_id = id }) ≡ value i)
      → sum_by value start (placed id items) ≡ sum_by value start items
  unfolding sum_by placed
  sum_by-placed value start id [] same = refl
  sum_by-placed value start id (i ∷ is) same =
      subst
        (λ v. sum_by value (f.add start v) (placed id is) ≡ sum_by value (f.add start (value i)) is)
        (sym (same i)) (sum_by-placed value (f.add start (value i)) id is same)

  placed-under :
      (id : String) (items : List (StatementItem V))
      → All (λ i. under id i ≡ true) (placed id items)
  unfolding placed under
  placed-under id [] = tt
  placed-under id (i ∷ is) = (eq_refl id, placed-under id is)

  new_id :
      (s : StatementAggregate V) (rows : List (StatementAggregate V))
      → any_where (clash s) rows ≡ false
      → any_where (has_id s.id) rows ≡ false
  unfolding clash
  new_id s rows h = any_where-weaken (clash s) (has_id s.id) rows (λ t k. ground arith) h

  pub create-Ledger :
      (s : StatementAggregate V) (items : List (StatementItem V))
      → Sums s items
      → Keeps Ledger (create_with_items s items)
  create-Ledger s items total = Keeps-triple _ (
      create_run Ledger Ledger Ledger s items (λ d h. h)
        λ d inserted h. rw h.1 (
          commit-Ledger s (placed s.id items) d (new_id s d.statements h.0.1)
            (placed-under s.id items)
            (record {
              energy = total.energy ∙ sym (sum_by-placed _ f.nil s.id items (λ i. refl));
              amount = total.amount ∙ sym (sum_by-placed _ f.nil s.id items (λ i. refl));
            })
            h.0.0))
