-- ===== src/Statements/Invariant.antt =====
-- The statements table: which rows may stand together, and how a row changes.
use microgrid_cloud.Prelude.{
  ℕ, String, List, [], ◌∷◌, ◌++◌, Bool, true, false, ◌≡◌, refl, ◌≤◌, ◌==◌, ◌&&◌, ltb, arith,
  any_where, any_where_never, any_where-weaken, update_where, find_first, some, Bool-cases, inl,
  inr, eq_iff,
}
use microgrid_cloud.Prelude.Tables.{
  Apart, append-Apart, update-Apart, Grows, Grows-append, Grows-update,
}
use microgrid_cloud.Statements.Domain.{
  StatementStatus, draft, frozen, voided, StatementAggregate, StatementDb,
}
use microgrid_cloud.Statements.Repository.{has_id, in_slot, same_version, clash, sealed, revoked}

abbrev pub rank : StatementStatus → ℕ
rank draft = 0
rank frozen = 1
rank voided = 2

module _ {V : Type 0} where
  -- No two statements have one id, or one version of one tenant, station, month and category.
  abbrev pub Valid : List (StatementAggregate V) → Type 0
  Valid = Apart clash

  -- One statement, earlier and later. Its hash does not change any more once it is frozen.
  pub record Moves (a b : StatementAggregate V) : Type 0 where
    pub same_id : b.id ≡ a.id
    pub same_tenant : b.tenant_id ≡ a.tenant_id
    pub same_station : b.station_id ≡ a.station_id
    pub same_month : b.statement_month ≡ a.statement_month
    pub same_category : b.category ≡ a.category
    pub same_version_number : b.version ≡ a.version
    pub same_energy : b.total_energy_kwh ≡ a.total_energy_kwh
    pub same_amount : b.total_amount ≡ a.total_amount
    pub same_currency : b.currency ≡ a.currency
    pub forward : rank a.status ≤ rank b.status
    pub same_hash : ltb 0 (rank a.status) ≡ true → b.snapshot_hash ≡ a.snapshot_hash

  pub Moves-refl : (a : StatementAggregate V) → Moves a a
  Moves-refl a = ground arith

  -- The table, earlier and later: each statement moves, and new ones come at the end.
  abbrev pub Evolves : List (StatementAggregate V) → List (StatementAggregate V) → Type 0
  Evolves = Grows Moves

  -- The table is valid, and grew out of an earlier one.
  abbrev pub Tracks : List (StatementAggregate V) → StatementDb V → Type 0
  Tracks earlier d = Valid d.statements × Evolves earlier d.statements

  -- A statement under the id that is no draft any more.
  abbrev pub fixed : String → StatementAggregate V → Bool
  fixed id s = s.id == id && ltb 0 (rank s.status)

  Moves-revoked :
      (a b : StatementAggregate V) (reason : String) (t : ℕ)
      → Moves a b
      → Moves a (revoked reason t b)
  unfolding revoked
  Moves-revoked a b reason t m = ground arith

  Moves-sealed :
      (a b : StatementAggregate V) (hash : String) (t : ℕ)
      → ltb 0 (rank b.status) ≡ false
      → Moves a b
      → Moves a (sealed hash t b)
  unfolding sealed
  Moves-sealed a b hash t h m = ground arith

  clash-swap : (a b : StatementAggregate V) → clash a b ≡ false → clash b a ≡ false
  unfolding clash same_version in_slot
  clash-swap a b h = ground (
    arith,
    eq_iff a.id b.id,
    eq_iff b.id a.id,
    eq_iff a.tenant_id b.tenant_id,
    eq_iff b.tenant_id a.tenant_id,
    eq_iff a.station_id b.station_id,
    eq_iff b.station_id a.station_id,
    eq_iff a.category b.category,
    eq_iff b.category a.category,
  )

  clashes-swap :
      (a : StatementAggregate V) (rows : List (StatementAggregate V))
      → any_where (clash a) rows ≡ false
      → any_where (λ b. clash b a) rows ≡ false
  clashes-swap a rows h = any_where-weaken (clash a) (λ b. clash b a) rows (clash-swap a) h

  -- A row that passes the keys keeps the table valid.
  pub append-Tracks :
      (earlier rows : List (StatementAggregate V)) (a : StatementAggregate V)
      → any_where (clash a) rows ≡ false
      → Valid rows × Evolves earlier rows
      → Valid (rows ++ a ∷ []) × Evolves earlier (rows ++ a ∷ [])
  append-Tracks earlier rows a h v =
      (append-Apart clash rows a (clashes-swap a rows h) v.0, Grows-append Moves earlier rows a v.1)

  pub revoked-Tracks :
      (id reason : String) (t : ℕ) (earlier rows : List (StatementAggregate V))
      → Valid rows × Evolves earlier rows
      → let later = update_where (has_id id) (revoked reason t) rows in
        Valid later × Evolves earlier later
  unfolding clash same_version in_slot revoked
  revoked-Tracks id reason t earlier rows v = (
    update-Apart clash (has_id id) (λ _. false) (revoked reason t) rows (λ a b _ _ h. h)
        (λ a b _ _ h. h) (any_where_never rows) v.0,
    Grows-update Moves (has_id id) (λ _. false) (revoked reason t) earlier rows
        (λ a b _ _ m. Moves-revoked a b reason t m) (any_where_never rows) v.1,
  )

  pub sealed-Tracks :
      (id hash : String) (t : ℕ) (earlier rows : List (StatementAggregate V))
      → any_where (fixed id) rows ≡ false
      → Valid rows × Evolves earlier rows
      → let later = update_where (has_id id) (sealed hash t) rows in
        Valid later × Evolves earlier later
  unfolding clash same_version in_slot sealed
  sealed-Tracks id hash t earlier rows k v = (
    update-Apart clash (has_id id) (fixed id) (sealed hash t) rows (λ a b _ _ h. h) (λ a b _ _ h. h)
        k v.0,
    Grows-update Moves (has_id id) (fixed id) (sealed hash t) earlier rows
        (λ a b hit o m. Moves-sealed a b hash t (ground arith) m) k v.1,
  )

  fixed-clash :
      (b x : StatementAggregate V) (id : String)
      → b.id == id ≡ true
      → clash b x ≡ false
      → fixed id x ≡ false
  unfolding clash
  fixed-clash b x id h c = ground (arith, eq_iff b.id id, eq_iff x.id b.id, eq_iff x.id id)

  -- The statement that an id finds is the only one under it, so if it is a draft none is fixed.
  pub unfixed_of_found :
      (id : String) (rows : List (StatementAggregate V)) (a : StatementAggregate V)
      → find_first (has_id id) rows ≡ some a
      → ltb 0 (rank a.status) ≡ false
      → Valid rows
      → any_where (fixed id) rows ≡ false
  unfolding find_first any_where
  unfixed_of_found id [] a e o v = refl
  unfixed_of_found id (b ∷ rest) a e o v = elim (Bool-cases (b.id == id)) [
    | inl hit ↦
        let others = any_where-weaken (clash b) (fixed id) rest (λ x. fixed-clash b x id hit) v.0 in
        ground arith
    | inr miss ↦ let others = unfixed_of_found id rest a (ground arith) o v.1 in ground arith
  ]
