-- ===== src/Statements/Safety.antt =====
-- Every operation of the statement repository and service keeps the statements table valid and
-- moves its rows forward.
use microgrid_cloud.Prelude.{
  ℕ, String, List, [], ◌∷◌, ◌++◌, false, ◌≡◌, refl, sym, arith, any_where, find_first, Float64,
}
use microgrid_cloud.Prelude.Platform.{Platform}
use microgrid_cloud.Prelude.Exec.{Keeps, Triple}
use microgrid_cloud.Prelude.Exec.Rules.{
  keeps_rules, Keeps-bind, Keeps-modify, Keeps-attempt, Keeps-now, Keeps-pure, Keeps-raise,
  Keeps-lift, Keeps-guard, Keeps-if, Keeps-triple, Triple-bind, triple-Keeps, Triple-gets,
  Triple-if, Triple-weaken, Triple-raise, Triple-pure, Triple-lift, Triple-given, Triple-guard,
  Triple-modify, Keeps-with_db,
}
use microgrid_cloud.Statements.Domain.{
  StatementAggregate, StatementItem, SettlementDay, StatementDb,
}
use microgrid_cloud.Statements.Repository.{
  Built, has_id, clash, find_latest_active, next_version, insert_items, create_with_items, commit,
  get_by_id, list_items, list_by_station_month_category, mark_frozen, mark_voided, update_statement,
  record_export, add_row, add_rows, build_items_from_settlements,
}
use microgrid_cloud.Statements.Invariant.{
  Tracks, fixed, append-Tracks, revoked-Tracks, sealed-Tracks,
}

-- Reads keep anything.
module _ {V : Type 0} (P : StatementDb V → Type 0) where
  pub insert_items-Keeps :
      (id : String) (done items : List (StatementItem V)) → Keeps P (insert_items id done items)
  unfolding insert_items
  insert_items-Keeps id done [] = Keeps-pure _
  insert_items-Keeps id done (item ∷ items) = Keeps-bind _ _ (Keeps-attempt _) λ _.
      Keeps-bind _ _ (Keeps-with_db _ λ d. Keeps-guard _ _)
        λ _. insert_items-Keeps id (done ++ record item { statement_id = id } ∷ []) items

  pub find_latest_active-Keeps :
      (tenant station : String) (month : ℕ) (category : String)
      → Keeps P (find_latest_active tenant station month category)
  unfolding find_latest_active
  find_latest_active-Keeps tenant station month category = search keeps_rules

  pub next_version-Keeps :
      (tenant station : String) (month : ℕ) (category : String)
      → Keeps P (next_version tenant station month category)
  unfolding next_version
  next_version-Keeps tenant station month category = search keeps_rules

  pub get_by_id-Keeps : (id : String) → Keeps P (get_by_id id)
  unfolding get_by_id
  get_by_id-Keeps id = search keeps_rules

  pub list_items-Keeps : (id : String) → Keeps P (list_items id)
  unfolding list_items
  list_items-Keeps id = search keeps_rules

  pub list_by-Keeps :
      (tenant station : String) (month : ℕ) (category : String)
      → Keeps P (list_by_station_month_category tenant station month category)
  unfolding list_by_station_month_category
  list_by-Keeps tenant station month category = search keeps_rules

  module _ ⦃f : Float64 V⦄ where
    pub add_rows-Keeps : (b : Built V) (rows : List (SettlementDay V)) → Keeps P (add_rows b rows)
    unfolding add_rows
    add_rows-Keeps b [] = Keeps-pure _
    add_rows-Keeps b (row ∷ rows) =
        Keeps-bind _ _ Keeps-now λ t. add_rows-Keeps (add_row t row b) rows

    pub build_items-Keeps :
        (platform : Platform) (tenant station : String) (month : ℕ)
        → Keeps P (build_items_from_settlements platform tenant station month)
    unfolding build_items_from_settlements
    build_items-Keeps platform tenant station month = search (keeps_rules, add_rows-Keeps)

pub ruleset statement_reads = (
  keeps_rules, find_latest_active-Keeps, next_version-Keeps, get_by_id-Keeps, list_items-Keeps,
  list_by-Keeps, build_items-Keeps,
)

append_nil : {A : Type 0} (xs : List A) → xs ++ [] ≡ xs
append_nil [] = refl
append_nil (x ∷ xs) = rw (append_nil xs) refl

module _ {V : Type 0} where
  -- The items as the statement's own.
  unfoldable pub placed : String → List (StatementItem V) → List (StatementItem V)
  placed id [] = []
  placed id (item ∷ items) = record item { statement_id = id } ∷ placed id items

  reassoc :
      (done items : List (StatementItem V)) (item : StatementItem V)
      → (done ++ item ∷ []) ++ items ≡ done ++ item ∷ items
  reassoc [] items item = refl
  reassoc (i ∷ done) items item = rw (reassoc done items item) refl

  pub insert_items_run :
      (P R : StatementDb V → Type 0)
      → ((d : StatementDb V) → P d → R d)
      → (id : String) (done items : List (StatementItem V))
      → Triple P
          (insert_items id done items)
          (λ inserted d. P d × (inserted ≡ done ++ placed id items))
          R
  unfolding insert_items placed
  insert_items_run P R weaker id done [] = Triple-pure _ λ d h. (h, sym (append_nil done))
  insert_items_run P R weaker id done (item ∷ items) =
      Triple-bind _ _ (triple-Keeps _ (Keeps-attempt _) weaker) λ _.
        Triple-bind _ _ (triple-Keeps _ (Keeps-with_db _ λ d. Keeps-guard _ _) weaker) λ _.
          rw (sym (reassoc done (placed id items) (record item { statement_id = id })))
            (insert_items_run P R weaker id (done ++ record item { statement_id = id } ∷ []) items)

  -- A create with `P` before it: what it commits has passed the keys of the statements table.
  pub create_run :
      (P Q R : StatementDb V → Type 0) (s : StatementAggregate V) (items : List (StatementItem V))
      → ((d : StatementDb V) → P d → R d)
      → ((d : StatementDb V) (inserted : List (StatementItem V))
          → (P d × (any_where (clash s) d.statements ≡ false)) × (inserted ≡ placed s.id items)
          → Q (commit s inserted d))
      → Triple P (create_with_items s items) (λ _. Q) R
  unfolding create_with_items
  create_run P Q R s items weaker committed =
      Triple-bind _ _ (triple-Keeps _ (Keeps-attempt _) weaker) λ _.
        Triple-bind _ _ (triple-Keeps _ (Keeps-attempt _) weaker) λ _.
          Triple-bind _ _ (Triple-guard _ _ weaker) λ _.
            Triple-bind _ _ (insert_items_run _ R (λ d h. weaker d h.0) s.id [] items) λ inserted.
              Triple-bind _ _ (triple-Keeps _ (Keeps-attempt _) (λ d h. weaker d h.0.0))
                λ _. Triple-modify _ λ d h. committed d inserted ((h.0.0, ground arith), h.1)

module _ {V : Type 0} (earlier : List (StatementAggregate V)) where
  pub create-Keeps :
      (s : StatementAggregate V) (items : List (StatementItem V))
      → Keeps (Tracks earlier) (create_with_items s items)
  unfolding commit
  create-Keeps s items = Keeps-triple _ (
      create_run _ _ _ s items (λ d h. h)
        λ d inserted h. append-Tracks earlier d.statements s h.0.1 h.0.0)

  pub mark_voided-Keeps :
      (id reason : String) (t : ℕ) → Keeps (Tracks earlier) (mark_voided id reason t)
  unfolding mark_voided update_statement
  mark_voided-Keeps id reason t =
      Keeps-bind _ _ (Keeps-attempt _)
        λ _. Keeps-modify _ λ d h. revoked-Tracks id reason t earlier d.statements h

  pub record_export-Keeps :
      (platform : Platform) (id format status path : String)
      → Keeps (Tracks earlier) (record_export platform id format status path)
  unfolding record_export
  record_export-Keeps platform id format status path = Keeps-bind _ _ Keeps-now λ t.
      Keeps-bind _ _ (Keeps-attempt _) λ _.
        Keeps-bind _ _ (Keeps-with_db _ λ d. Keeps-guard _ _)
          λ _. Keeps-bind _ _ (Keeps-with_db _ λ d. Keeps-guard _ _) λ _. Keeps-modify _ λ d h. h

  abbrev pub Unfixed : String → StatementDb V → Type 0
  Unfixed id d = any_where (fixed id) d.statements ≡ false

  pub mark_frozen_run :
      (id hash : String) (t : ℕ)
      → Triple
          (λ d. Tracks earlier d × Unfixed id d)
          (mark_frozen id hash t)
          (λ _. Tracks earlier)
          (Tracks earlier)
  unfolding mark_frozen update_statement
  mark_frozen_run id hash t =
      Triple-bind _ _ (triple-Keeps _ (Keeps-attempt _) (λ d h. h.0))
        λ _. Triple-modify _ λ d h. sealed-Tracks id hash t earlier d.statements h.1 h.0

  -- What a lookup by id finds, with the state that it found it in.
  pub get_by_id_run :
      (id : String)
      → Triple
          (Tracks earlier)
          (get_by_id id)
          (λ found d. Tracks earlier d × (find_first (has_id id) d.statements ≡ found))
          (Tracks earlier)
  unfolding get_by_id
  get_by_id_run id =
      Triple-bind _ _ (triple-Keeps _ (Keeps-attempt _) (λ d h. h)) λ _. Triple-gets _
