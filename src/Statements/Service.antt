-- ===== src/Statements/Service.antt =====
-- The statement service, backend/internal/settlement/application/statement_service.go. Its metrics
-- are not modelled. The JSON and SHA-256 of a snapshot are a parameter, `none` for a failed
-- marshalling; a tenant of the request's context is a text, empty where there is none.
use microgrid_cloud.Prelude.{
  ℕ, String, ◌+++◌, List, Bool, true, false, not, ◌&&◌, Option, none, some, ◌==◌, leb,
  if◌then◌else◌, sort_by, Float64,
}
use microgrid_cloud.Prelude.Platform.{Platform}
use microgrid_cloud.Prelude.Exec.{Exec, Result, ok, err, pure, raise, lift, now, guard, ◌>>=◌, ◌>>◌}
use microgrid_cloud.Statements.Domain.{
  draft, StatementAggregate, StatementItem, StatementDb, StatementError, station_id_required,
  month_required, month_malformed, not_found, statement_is_voided, tenant_mismatch, snapshot_failed,
  is_frozen, is_voided,
}
use microgrid_cloud.Statements.Repository.{
  Built, find_latest_active, next_version, build_items_from_settlements, create_with_items,
  get_by_id, list_items, list_by_station_month_category, mark_frozen, mark_voided, sealed, revoked,
}

unfoldable pub parse_month : Platform → String → Result StatementError ℕ
parse_month platform month =
    if month == ""
    then err month_required
    else elim (platform.parse_month month) [ none ↦ err month_malformed | some t ↦ ok t ]

unfoldable pub build_statement_id : Platform → String → ℕ → String → ℕ → String
build_statement_id platform station_id month category version =
    "stmt-"
    +++ platform.sha256_short (
        station_id
        +++ "|"
        +++ platform.format_month month
        +++ "|"
        +++ category
        +++ "|"
        +++ platform.itoa version)

-- The tenant of the context, or the one of the service; and an empty category is the owner's.
unfoldable pub tenant_of : String → String → String
tenant_of service_tenant tenant = if tenant == "" then service_tenant else tenant

unfoldable pub category_of : String → String
category_of category = if category == "" then "owner" else category

abbrev pub snapshot_of : Option String → Result StatementError String
snapshot_of none = err snapshot_failed
snapshot_of (some hash) = ok hash

module _ {V : Type 0} where
  unfoldable pub foreign : String → StatementAggregate V → Bool
  foreign tenant s = not (tenant == "") && not (s.tenant_id == tenant)

  abbrev pub require : Option (StatementAggregate V) → Result StatementError (StatementAggregate V)
  require none = err not_found
  require (some s) = ok s

module _ {V : Type 0} ⦃f : Float64 V⦄ (platform : Platform) (service_tenant : String)
    (snapshot : StatementAggregate V → List (StatementItem V) → Option String) where
  unfoldable pub compute_snapshot_hash :
      StatementAggregate V → List (StatementItem V) → Result StatementError String
  compute_snapshot_hash s items =
      snapshot_of (snapshot s (sort_by (λ i j. leb i.day_start j.day_start) items))

  unfoldable pub new_statement :
      String → String → ℕ → String → ℕ → Built V → ℕ → StatementAggregate V
  unfolding build_statement_id
  new_statement tenant station_id month category version b t = record {
    id = build_statement_id platform station_id month category version;
    tenant_id = tenant;
    station_id = station_id;
    statement_month = month;
    category = category;
    status = draft;
    version = version;
    total_energy_kwh = b.total_energy_kwh;
    total_amount = b.total_amount;
    currency = b.currency;
    snapshot_hash = "";
    void_reason = "";
    created_at = t;
    updated_at = t;
    frozen_at = 0;
    voided_at = 0;
  }

  -- The part of `Generate` that makes the next version.
  unfoldable pub create_version :
      String → String → ℕ → String → Exec (StatementDb V) StatementError (StatementAggregate V)
  unfolding new_statement
  create_version tenant station_id month category = do
    version ← next_version tenant station_id month category
    b ← build_items_from_settlements platform tenant station_id month
    t ← now
    create_with_items (new_statement tenant station_id month category version b t) b.items
    pure (new_statement tenant station_id month category version b t)

  -- The part of `Generate` that answers with what there is.
  unfoldable pub reuse :
      String
      → String
      → ℕ
      → String
      → Option (StatementAggregate V)
      → Exec (StatementDb V) StatementError (StatementAggregate V)
  unfolding create_version foreign
  reuse tenant station_id month category none = create_version tenant station_id month category
  reuse tenant station_id month category (some s) =
      if foreign tenant s then raise tenant_mismatch else pure s

  unfoldable pub generate_for :
      String
      → String
      → ℕ
      → String
      → Bool
      → Exec (StatementDb V) StatementError (StatementAggregate V)
  unfolding reuse create_version
  generate_for tenant station_id month category true =
      create_version tenant station_id month category
  generate_for tenant station_id month category false = do
    existing ← find_latest_active tenant station_id month category
    reuse tenant station_id month category existing

  unfoldable pub generate :
      String
      → String
      → String
      → String
      → Bool
      → Exec (StatementDb V) StatementError (StatementAggregate V)
  unfolding generate_for parse_month tenant_of category_of
  generate tenant station_id month category regenerate = do
    guard (not (station_id == "")) station_id_required
    month_start ← lift (parse_month platform month)
    generate_for (tenant_of service_tenant tenant) station_id month_start (category_of category)
        regenerate

  unfoldable pub freeze_draft :
      String → StatementAggregate V → Exec (StatementDb V) StatementError (StatementAggregate V)
  unfolding compute_snapshot_hash
  freeze_draft id s = do
    items ← list_items id
    hash ← lift (compute_snapshot_hash s items)
    t ← now
    mark_frozen id hash t
    pure (sealed hash t s)

  unfoldable pub freeze_found :
      String
      → String
      → StatementAggregate V
      → Exec (StatementDb V) StatementError (StatementAggregate V)
  unfolding freeze_draft foreign
  freeze_found tenant id s =
      if foreign tenant s
      then raise tenant_mismatch
      else if is_frozen s.status
      then pure s
      else if is_voided s.status
      then raise statement_is_voided
      else freeze_draft id s

  unfoldable pub freeze :
      String → String → Exec (StatementDb V) StatementError (StatementAggregate V)
  unfolding freeze_found tenant_of
  freeze tenant id = do
    found ← get_by_id id
    s ← lift (require found)
    freeze_found (tenant_of service_tenant tenant) id s

  unfoldable pub void_current :
      String
      → String
      → StatementAggregate V
      → Exec (StatementDb V) StatementError (StatementAggregate V)
  void_current id reason s = do t ← now; mark_voided id reason t; pure (revoked reason t s)

  unfoldable pub void_found :
      String
      → String
      → String
      → StatementAggregate V
      → Exec (StatementDb V) StatementError (StatementAggregate V)
  unfolding void_current foreign
  void_found tenant id reason s =
      if foreign tenant s
      then raise tenant_mismatch
      else if is_voided s.status
      then pure s
      else void_current id reason s

  unfoldable pub void :
      String → String → String → Exec (StatementDb V) StatementError (StatementAggregate V)
  unfolding void_found tenant_of
  void tenant id reason = do
    found ← get_by_id id
    s ← lift (require found)
    void_found (tenant_of service_tenant tenant) id reason s

  unfoldable pub get :
      String
      → String
      → Exec (StatementDb V) StatementError (StatementAggregate V × List (StatementItem V))
  unfolding foreign tenant_of
  get tenant id = do
    found ← get_by_id id
    s ← lift (require found)
    guard (not (foreign (tenant_of service_tenant tenant) s)) tenant_mismatch
    items ← list_items id
    pure (s, items)

  unfoldable pub list :
      String
      → String
      → String
      → String
      → Exec (StatementDb V) StatementError (List (StatementAggregate V))
  unfolding parse_month tenant_of category_of
  list tenant station_id month category = do
    guard (not (station_id == "")) station_id_required
    month_start ← lift (parse_month platform month)
    list_by_station_month_category (tenant_of service_tenant tenant) station_id month_start
        (category_of category)
