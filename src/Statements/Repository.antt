-- ===== src/Statements/Repository.antt =====
-- The SQL of backend/internal/settlement/infrastructure/postgres/statement_repository.go over tables
-- as lists of rows. The unique keys are those of backend/migrations/008_statements.sql.
use microgrid_cloud.Prelude.{
  ℕ, suc, String, ◌+++◌, List, [], ◌∷◌, ◌++◌, Bool, not, ◌&&◌, ◌||◌, Option, none, some, ◌==◌, eqb,
  leb, ltb, if◌then◌else◌, find_first, select, update_where, any_where, sort_by, latest, Float64,
}
use microgrid_cloud.Prelude.Platform.{Platform}
use microgrid_cloud.Prelude.Exec.{
  Exec, pure, gets, with_db, modify, now, attempt, guard, ◌>>=◌, ◌>>◌,
}
use microgrid_cloud.Statements.Domain.{
  frozen, voided, StatementAggregate, StatementItem, SettlementDay, StatementDb, StatementError,
  db_failed, duplicate_statement, duplicate_item, missing_statement, duplicate_export, is_current,
}

module _ {V : Type 0} where
  abbrev pub has_id : String → StatementAggregate V → Bool
  has_id id s = s.id == id

  -- The statements of a station, month and category.
  unfoldable pub in_slot : String → String → ℕ → String → StatementAggregate V → Bool
  in_slot tenant_id station_id month category s =
      s.tenant_id == tenant_id
      && (s.station_id == station_id && (eqb s.statement_month month && s.category == category))

  unfoldable pub current_in_slot : String → String → ℕ → String → StatementAggregate V → Bool
  unfolding in_slot
  current_in_slot tenant_id station_id month category s =
      in_slot tenant_id station_id month category s && is_current s.status

  unfoldable pub latest_active :
      String → String → ℕ → String → StatementDb V → Option (StatementAggregate V)
  unfolding current_in_slot
  latest_active tenant_id station_id month category d =
      latest (λ s. s.version)
        (select (current_in_slot tenant_id station_id month category) d.statements)

  unfoldable pub find_latest_active :
      String
      → String
      → ℕ
      → String
      → Exec (StatementDb V) StatementError (Option (StatementAggregate V))
  unfolding latest_active
  find_latest_active tenant_id station_id month category = do
    attempt db_failed
    gets (latest_active tenant_id station_id month category)

  -- One more than `MAX(version)`, or 1 if there is no row.
  after : Option (StatementAggregate V) → ℕ
  after none = 1
  after (some s) = suc s.version

  unfoldable pub version_after : String → String → ℕ → String → StatementDb V → ℕ
  unfolding after in_slot
  version_after tenant_id station_id month category d =
      after (
        latest (λ s. s.version) (select (in_slot tenant_id station_id month category) d.statements))

  unfoldable pub next_version : String → String → ℕ → String → Exec (StatementDb V) StatementError ℕ
  unfolding version_after
  next_version tenant_id station_id month category = do
    attempt db_failed
    gets (version_after tenant_id station_id month category)

  -- What the primary key and the unique index `uq_settlement_statements_version` forbid.
  unfoldable pub same_version : StatementAggregate V → StatementAggregate V → Bool
  unfolding in_slot
  same_version s t =
      in_slot s.tenant_id s.station_id s.statement_month s.category t && eqb t.version s.version

  unfoldable pub clash : StatementAggregate V → StatementAggregate V → Bool
  unfolding same_version
  clash s t = t.id == s.id || same_version s t

  unfoldable pub same_item : String → ℕ → StatementItem V → Bool
  same_item statement_id day_start i = i.statement_id == statement_id && eqb i.day_start day_start

  -- The inserts of the items, each under the id of the statement; `done` are the ones of this
  -- transaction so far.
  unfoldable pub insert_items :
      String
      → List (StatementItem V)
      → List (StatementItem V)
      → Exec (StatementDb V) StatementError (List (StatementItem V))
  unfolding same_item
  insert_items id done [] = pure done
  insert_items id done (item ∷ items) = do
    attempt db_failed
    with_db (λ d.
        guard (not (any_where (same_item id item.day_start) (d.items ++ done))) duplicate_item)
    insert_items id (done ++ record item { statement_id = id } ∷ []) items

  -- What the commit makes visible.
  unfoldable pub commit :
      StatementAggregate V → List (StatementItem V) → StatementDb V → StatementDb V
  commit s items d = record d { statements = d.statements ++ s ∷ []; items = d.items ++ items }

  -- A transaction: it writes when it commits, or not at all. It fails at its begin, at an insert, at
  -- a unique key, or at its commit.
  unfoldable pub create_with_items :
      StatementAggregate V → List (StatementItem V) → Exec (StatementDb V) StatementError (Unit {0})
  unfolding clash insert_items commit
  create_with_items s items = do
    attempt db_failed
    attempt db_failed
    with_db (λ d. guard (not (any_where (clash s) d.statements)) duplicate_statement)
    inserted ← insert_items s.id [] items
    attempt db_failed
    modify (commit s inserted)

  unfoldable pub get_by_id :
      String → Exec (StatementDb V) StatementError (Option (StatementAggregate V))
  get_by_id id = do attempt db_failed; gets (λ d. find_first (has_id id) d.statements)

  unfoldable pub list_by_station_month_category :
      String
      → String
      → ℕ
      → String
      → Exec (StatementDb V) StatementError (List (StatementAggregate V))
  unfolding in_slot
  list_by_station_month_category tenant_id station_id month category = do
    attempt db_failed
    gets (λ d.
        sort_by (λ s t. leb s.version t.version)
          (select (in_slot tenant_id station_id month category) d.statements))

  unfoldable pub items_of : String → StatementDb V → List (StatementItem V)
  items_of id d =
      sort_by (λ i j. leb i.day_start j.day_start) (select (λ i. i.statement_id == id) d.items)

  unfoldable pub list_items : String → Exec (StatementDb V) StatementError (List (StatementItem V))
  unfolding items_of
  list_items id = do attempt db_failed; gets (items_of id)

  -- The `SET` clauses of the two updates.
  unfoldable pub sealed : String → ℕ → StatementAggregate V → StatementAggregate V
  sealed hash t s = record s {
    status = frozen;
    snapshot_hash = hash;
    frozen_at = t;
    updated_at = t;
  }

  unfoldable pub revoked : String → ℕ → StatementAggregate V → StatementAggregate V
  revoked reason t s = record s {
    status = voided;
    void_reason = reason;
    voided_at = t;
    updated_at = t;
  }

  unfoldable pub update_statement :
      String → (StatementAggregate V → StatementAggregate V) → StatementDb V → StatementDb V
  update_statement id f d = record d { statements = update_where (has_id id) f d.statements }

  unfoldable pub mark_frozen : String → String → ℕ → Exec (StatementDb V) StatementError (Unit {0})
  unfolding update_statement sealed
  mark_frozen id hash t = do attempt db_failed; modify (update_statement id (sealed hash t))

  unfoldable pub mark_voided : String → String → ℕ → Exec (StatementDb V) StatementError (Unit {0})
  unfolding update_statement revoked
  mark_voided id reason t = do attempt db_failed; modify (update_statement id (revoked reason t))

  unfoldable pub record_export :
      Platform → String → String → String → String → Exec (StatementDb V) StatementError (Unit {0})
  record_export platform statement_id format status path = do
    t ← now
    attempt db_failed
    with_db (λ d. guard (any_where (has_id statement_id) d.statements) missing_statement)
    with_db (λ d.
        guard (not (any_where (λ e. e.id == "exp-" +++ platform.itoa t) d.exports))
          duplicate_export)
    modify (λ d. record d {
      exports =
          d.exports
          ++ record {
            id = "exp-" +++ platform.itoa t;
            statement_id = statement_id;
            format = format;
            status = status;
            path_or_key = path;
          }
            ∷ [];
    })

-- The items that a month of day settlements makes, with their totals.
pub record Built (V : Type 0) : Type 0 where
  pub items : List (StatementItem V)
  pub total_energy_kwh : V
  pub total_amount : V
  pub currency : String

module _ {V : Type 0} ⦃f : Float64 V⦄ where
  unfoldable pub add_row : ℕ → SettlementDay V → Built V → Built V
  add_row t row b = record {
    items =
        b.items
        ++ record {
          statement_id = "";
          day_start = row.day_start;
          energy_kwh = row.energy_kwh;
          amount = row.amount;
          currency = row.currency;
          created_at = t;
        }
          ∷ [];
    total_energy_kwh = f.add b.total_energy_kwh row.energy_kwh;
    total_amount = f.add b.total_amount row.amount;
    currency = if b.currency == "" then row.currency else b.currency;
  }

  -- The loop over the rows; each item has a reading of the clock.
  unfoldable pub add_rows :
      Built V → List (SettlementDay V) → Exec (StatementDb V) StatementError (Built V)
  unfolding add_row
  add_rows b [] = pure b
  add_rows b (row ∷ rows) = do t ← now; add_rows (add_row t row b) rows

  unfoldable pub days_of_month :
      Platform → String → String → ℕ → StatementDb V → List (SettlementDay V)
  days_of_month platform tenant_id station_id month d =
      sort_by (λ r s. leb r.day_start s.day_start)
        (select
          (λ r.
            r.tenant_id == tenant_id
            && (r.station_id == station_id
                && (leb month r.day_start && ltb r.day_start (platform.next_month month))))
          d.days)

  abbrev nothing_built : Built V
  nothing_built = record {
    items = [];
    total_energy_kwh = f.nil;
    total_amount = f.nil;
    currency = "";
  }

  unfoldable pub build_items_from_settlements :
      Platform → String → String → ℕ → Exec (StatementDb V) StatementError (Built V)
  unfolding add_rows days_of_month
  build_items_from_settlements platform tenant_id station_id month = do
    attempt db_failed
    rows ← gets (days_of_month platform tenant_id station_id month)
    b ← add_rows nothing_built rows
    pure (record b { currency = if b.currency == "" then "CNY" else b.currency })
