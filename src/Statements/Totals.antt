-- ===== src/Statements/Totals.antt =====
-- The statements' totals stay the sums of their items over any requests of the statement service.
use microgrid_cloud.Prelude.{
  ℕ, String, List, [], ◌∷◌, Bool, true, false, ◌≡◌, refl, ◌∙◌, ◌==◌, Option, none, some, Float64,
  any_where, update_where, select, All, Bool-cases, inl, inr,
}
use microgrid_cloud.Prelude.Platform.{Platform}
use microgrid_cloud.Prelude.Exec.{World, Keeps}
use microgrid_cloud.Prelude.Exec.Rules.{
  keeps_rules, Keeps-bind, Keeps-attempt, Keeps-now, Keeps-modify, Keeps-with_db, Keeps-guard,
  Keeps-triple, Triple-bind, triple-Keeps, Triple-given,
}
use microgrid_cloud.Statements.Domain.{StatementAggregate, StatementItem, StatementDb}
use microgrid_cloud.Statements.Repository.{
  has_id, mark_frozen, mark_voided, update_statement, sealed, revoked, record_export,
}
use microgrid_cloud.Statements.Service.{
  new_statement, create_version, reuse, generate_for, generate, freeze_draft, freeze_found, freeze,
  void_current, void_found, void, get, list,
}
use microgrid_cloud.Statements.Safety.{statement_reads, next_version-Keeps}
use microgrid_cloud.Statements.Balance.{under, Sums, Ledger}
use microgrid_cloud.Statements.Calls.{
  Request, generates, freezes, gets_one, voids, lists, exports, answer, answer_all,
}
use microgrid_cloud.Statements.Sums.{build_items_run, create-Ledger}

module _ {V : Type 0} ⦃f : Float64 V⦄ where
  -- An update that leaves ids and totals.
  module _ (id : String) (g : StatementAggregate V → StatementAggregate V)
      (same_id : (s : StatementAggregate V) → (g s).id ≡ s.id)
      (same_energy : (s : StatementAggregate V) → (g s).total_energy_kwh ≡ s.total_energy_kwh)
      (same_amount : (s : StatementAggregate V) → (g s).total_amount ≡ s.total_amount) where
    Sums-updated :
        (items : List (StatementItem V)) (rows : List (StatementAggregate V))
        → All (λ s. Sums s (select (under s.id) items)) rows
        → All (λ s. Sums s (select (under s.id) items)) (update_where (has_id id) g rows)
    unfolding update_where
    Sums-updated items [] h = tt
    Sums-updated items (s ∷ rows) h = elim (Bool-cases (s.id == id)) [
      | inl hit ↦ rw hit (
        record {
          energy = rw (same_energy s, same_id s) h.0.energy;
          amount = rw (same_amount s, same_id s) h.0.amount;
        },
        Sums-updated items rows h.1,
      )
      | inr miss ↦ rw miss (h.0, Sums-updated items rows h.1)
    ]

    ids_updated :
        (k : String) (rows : List (StatementAggregate V))
        → any_where (has_id k) (update_where (has_id id) g rows) ≡ any_where (has_id k) rows
    unfolding any_where update_where
    ids_updated k [] = refl
    ids_updated k (s ∷ rows) = elim (Bool-cases (s.id == id)) [
      | inl hit ↦ rw hit (rw (same_id s, ids_updated k rows) refl)
      | inr miss ↦ rw miss (rw (ids_updated k rows) refl)
    ]

    owned_updated :
        (rows : List (StatementAggregate V)) (is : List (StatementItem V))
        → All (λ i. any_where (has_id i.statement_id) rows ≡ true) is
        → All (λ i. any_where (has_id i.statement_id) (update_where (has_id id) g rows) ≡ true) is
    owned_updated rows [] h = tt
    owned_updated rows (i ∷ is) h =
        (ids_updated i.statement_id rows ∙ h.0, owned_updated rows is h.1)

    update-Ledger : (d : StatementDb V) → Ledger d → Ledger (update_statement id g d)
    unfolding update_statement
    update-Ledger d h = record {
      sums = Sums-updated d.items d.statements h.sums;
      owned = owned_updated d.statements d.items h.owned;
    }

  mark_frozen-Ledger : (id hash : String) (t : ℕ) → Keeps (Ledger {V = V}) (mark_frozen id hash t)
  unfolding mark_frozen sealed
  mark_frozen-Ledger id hash t =
      Keeps-bind _ _ (Keeps-attempt _)
        λ _. Keeps-modify _ (update-Ledger id (sealed hash t) (λ s. refl) (λ s. refl) (λ s. refl))

  mark_voided-Ledger :
      (id reason : String) (t : ℕ) → Keeps (Ledger {V = V}) (mark_voided id reason t)
  unfolding mark_voided revoked
  mark_voided-Ledger id reason t =
      Keeps-bind _ _ (Keeps-attempt _) λ _.
        Keeps-modify _ (update-Ledger id (revoked reason t) (λ s. refl) (λ s. refl) (λ s. refl))

  record_export-Ledger :
      (platform : Platform) (id format status path : String)
      → Keeps (Ledger {V = V}) (record_export platform id format status path)
  unfolding record_export
  record_export-Ledger platform id format status path = Keeps-bind _ _ Keeps-now λ t.
      Keeps-bind _ _ (Keeps-attempt _) λ _.
        Keeps-bind _ _ (Keeps-with_db _ λ d. Keeps-guard _ _) λ _.
          Keeps-bind _ _ (Keeps-with_db _ λ d. Keeps-guard _ _)
            λ _. Keeps-modify _ λ d h. record { sums = h.sums; owned = h.owned }

module _ {V : Type 0} ⦃f : Float64 V⦄ (platform : Platform) (service_tenant : String)
    (snapshot : StatementAggregate V → List (StatementItem V) → Option String) where
  create_version-Ledger :
      (tenant station : String) (month : ℕ) (category : String)
      → Keeps
          (Ledger {V = V})
          (create_version platform service_tenant snapshot tenant station month category)
  unfolding create_version new_statement
  create_version-Ledger tenant station month category =
      Keeps-bind _ _ (next_version-Keeps _ tenant station month category) λ version.
        Keeps-triple _ (
          Triple-bind _ _ (build_items_run Ledger Ledger (λ d h. h) platform tenant station month)
            λ b. Triple-given _ λ tally.
              triple-Keeps _
                (Keeps-bind _ _ Keeps-now λ t.
                  Keeps-bind _ _
                    (create-Ledger _ b.items
                      (record { energy = tally.energy; amount = tally.amount }))
                    (λ _. search keeps_rules))
                (λ d h. h))

  reuse-Ledger :
      (tenant station : String) (month : ℕ) (category : String)
      (found : Option (StatementAggregate V))
      → Keeps
          (Ledger {V = V})
          (reuse platform service_tenant snapshot tenant station month category found)
  unfolding reuse
  reuse-Ledger tenant station month category none =
      create_version-Ledger tenant station month category
  reuse-Ledger tenant station month category (some s) = search keeps_rules

  generate_for-Ledger :
      (tenant station : String) (month : ℕ) (category : String) (again : Bool)
      → Keeps
          (Ledger {V = V})
          (generate_for platform service_tenant snapshot tenant station month category again)
  unfolding generate_for
  generate_for-Ledger tenant station month category true =
      create_version-Ledger tenant station month category
  generate_for-Ledger tenant station month category false = search (statement_reads, reuse-Ledger)

  answer-Ledger :
      (r : Request) (w : World (StatementDb V))
      → Ledger w.db
      → Ledger (answer platform service_tenant snapshot r w).db
  unfolding answer generate freeze freeze_found freeze_draft void void_found void_current get list
  answer-Ledger (generates tenant station month category again) w h =
      let keeps : Keeps (Ledger {V = V})
          (generate platform service_tenant snapshot tenant station month category again) =
        search (keeps_rules, generate_for-Ledger) in
      keeps.at w h
  answer-Ledger (freezes tenant id) w h =
      let keeps : Keeps (Ledger {V = V}) (freeze platform service_tenant snapshot tenant id) =
        search (statement_reads, mark_frozen-Ledger) depth 12 in
      keeps.at w h
  answer-Ledger (gets_one tenant id) w h =
      let keeps : Keeps (Ledger {V = V}) (get platform service_tenant snapshot tenant id) =
        search statement_reads depth 8 in
      keeps.at w h
  answer-Ledger (voids tenant id reason) w h =
      let keeps : Keeps (Ledger {V = V}) (void platform service_tenant snapshot tenant id reason) =
        search (statement_reads, mark_voided-Ledger) depth 8 in
      keeps.at w h
  answer-Ledger (lists tenant station month category) w h =
      let keeps : Keeps (Ledger {V = V})
          (list platform service_tenant snapshot tenant station month category) =
        search statement_reads in
      keeps.at w h
  answer-Ledger (exports id format status path) w h =
      (record_export-Ledger platform id format status path).at w h

  -- If every statement's totals are the sums of its items and every item has a statement, this
  -- holds again after any sequence of requests, whichever of their database calls fail.
  pub answer_all-Ledger :
      (rs : List Request) (w : World (StatementDb V))
      → Ledger w.db
      → Ledger (answer_all platform service_tenant snapshot rs w).db
  unfolding answer_all
  answer_all-Ledger [] w h = h
  answer_all-Ledger (r ∷ rs) w h =
      answer_all-Ledger rs (answer platform service_tenant snapshot r w) (answer-Ledger r w h)
