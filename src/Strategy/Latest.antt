-- ===== src/Strategy/Latest.antt =====
-- The latest value of a semantic at a station:
-- backend/internal/strategy/adapters/telemetry/latest_reader.go. A mapping with no device, and a
-- device column that is NULL, hold the empty text.
use Prim.Native.String.{compare as compare_text}
use text.Mathlib.Text.{is_le}
use microgrid_cloud.Prelude.{
  ℕ, String, ◌+++◌, List, [], ◌∷◌, ◌++◌, Bool, true, false, not, ◌&&◌, ◌||◌, Option, none, some,
  ◌==◌, if◌then◌else◌, ltb, is_zero, Float64, select, latest, sort_by,
}
use microgrid_cloud.Prelude.Exec.{pure, gets, attempt, guard, ◌>>=◌, ◌>>◌}
use microgrid_cloud.Alarms.Domain.{PointMapping}
use microgrid_cloud.Strategy.Domain.{
  Point, StrategyDb, LatestValue, Numbers, db_failed, invalid_arguments, no_mappings,
  no_telemetry_points,
}
use microgrid_cloud.Strategy.Repository.{Act}

pub record Mapping (V : Type 0) : Type 0 where
  pub point_key : String
  pub device_id : String
  pub factor : V

-- The sum, the latest time and the labels so far.
pub record Reading (V : Type 0) : Type 0 where
  pub total : V
  pub at : ℕ
  pub keys : List String

abbrev pub build_point_label : String → String → String
build_point_label point_key device_id =
    if device_id == "" then point_key else point_key +++ "@" +++ device_id

module _ {V : Type 0} ⦃n : Numbers V⦄ where
  unfoldable pub mapping_of : PointMapping V → Mapping V
  mapping_of m = record {
    point_key = m.point_key;
    device_id = m.device_id;
    factor = if n.is_nil m.factor then n.one else m.factor;
  }

  unfoldable pub mapping_rows : String → String → List (PointMapping V) → List (Mapping V)
  unfolding mapping_of
  mapping_rows station_id semantic [] = []
  mapping_rows station_id semantic (m ∷ rest) =
      if m.station_id == station_id && m.semantic == semantic
      then mapping_of m ∷ mapping_rows station_id semantic rest
      else mapping_rows station_id semantic rest

  unfoldable pub load_mappings : String → String → Act V (List (Mapping V))
  unfolding mapping_rows
  load_mappings station_id semantic = do
    attempt db_failed
    gets (λ d.
        sort_by (λ m k. is_le (compare_text m.point_key k.point_key))
          (mapping_rows station_id semantic d.mappings))

module _ {V : Type 0} where
  -- The rows of the two queries: any device where none is given.
  unfoldable pub of_point : String → String → String → String → Point V → Bool
  of_point tenant_id station_id point_key device_id p =
      p.tenant_id == tenant_id
      && (p.station_id == station_id
          && (p.point_key == point_key && (device_id == "" || p.device_id == device_id)))

  unfoldable pub latest_point : String → String → String → String → StrategyDb V → Option (Point V)
  unfolding of_point
  latest_point tenant_id station_id point_key device_id d =
      latest (λ p. p.ts) (select (of_point tenant_id station_id point_key device_id) d.points)

  -- A row with no numeric value counts as no row.
  unfoldable pub numeric : Option (Point V) → Option (V × ℕ)
  numeric none = none
  numeric (some p) = elim p.value_numeric [ none ↦ none | some v ↦ some (v, p.ts) ]

  unfoldable pub load_latest_point : String → String → String → String → Act V (Option (V × ℕ))
  unfolding latest_point numeric
  load_latest_point tenant_id station_id point_key device_id = do
    attempt db_failed
    gets (λ d. numeric (latest_point tenant_id station_id point_key device_id d))

module _ {V : Type 0} ⦃f : Float64 V⦄ where
  unfoldable pub add_point : Mapping V → Option (V × ℕ) → Reading V → Reading V
  add_point m none r = r
  add_point m (some (v, ts)) r = record {
    total = f.add r.total (f.mul v m.factor);
    at = if ltb r.at ts then ts else r.at;
    keys = r.keys ++ build_point_label m.point_key m.device_id ∷ [];
  }

  -- The loop over the mappings.
  unfoldable pub read_points : String → String → List (Mapping V) → Reading V → Act V (Reading V)
  unfolding add_point
  read_points tenant_id station_id [] r = pure r
  read_points tenant_id station_id (m ∷ rest) r = do
    point ← load_latest_point tenant_id station_id m.point_key m.device_id
    read_points tenant_id station_id rest (add_point m point r)

  abbrev pub no_reading : Reading V
  no_reading = record { total = f.nil; at = 0; keys = [] }

  abbrev pub value_of : Reading V → LatestValue V
  value_of r = record { value = r.total; timestamp = r.at; points = r.keys }

  abbrev pub is_empty : List (Mapping V) → Bool
  is_empty [] = true
  is_empty (m ∷ rest) = false

module _ {V : Type 0} ⦃f : Float64 V⦄ ⦃n : Numbers V⦄ where
  unfoldable pub latest_semantic : String → String → String → Act V (LatestValue V)
  unfolding read_points load_mappings
  latest_semantic tenant_id station_id semantic = do
    guard (not (tenant_id == "" || (station_id == "" || semantic == ""))) invalid_arguments
    mappings ← load_mappings station_id semantic
    guard (not (is_empty mappings)) no_mappings
    r ← read_points tenant_id station_id mappings no_reading
    guard (not (is_zero r.at)) no_telemetry_points
    pure (value_of r)
