-- ===== src/Shadowrun/Config.antt =====
-- Thresholds: `mergeThresholds` and `ThresholdsForStation` of
-- backend/internal/shadowrun/application/config.go.
use microgrid_cloud.Prelude.{
  String, List, Bool, false, ℤ, pos, negsuc, Option, none, some, if◌then◌else◌, is_zero, entry,
}
use microgrid_cloud.Shadowrun.Domain.{Thresholds, Numerals}

abbrev pub is_zero_ℤ : ℤ → Bool
is_zero_ℤ (pos n) = is_zero n
is_zero_ℤ (negsuc n) = false

pub record Config (V : Type 0) : Type 0 where
  pub defaults : Thresholds V
  pub stations : List (String × Thresholds V)
  pub storage_root : String
  pub public_base_url : String
  pub fallback_price : V

module _ {V : Type 0} ⦃n : Numerals V⦄ where
  unfoldable pub merge_thresholds : Thresholds V → Thresholds V → Thresholds V
  merge_thresholds base override = record {
    energy_abs = if n.is_nil override.energy_abs then base.energy_abs else override.energy_abs;
    energy_pct = if n.is_nil override.energy_pct then base.energy_pct else override.energy_pct;
    amount_abs = if n.is_nil override.amount_abs then base.amount_abs else override.amount_abs;
    amount_pct = if n.is_nil override.amount_pct then base.amount_pct else override.amount_pct;
    missing_hours =
        if is_zero_ℤ override.missing_hours then base.missing_hours else override.missing_hours;
    late_data_count =
        if is_zero_ℤ override.late_data_count
        then base.late_data_count
        else override.late_data_count;
  }

  unfoldable pub merged : Thresholds V → Option (Thresholds V) → Thresholds V
  unfolding merge_thresholds
  merged base none = base
  merged base (some override) = merge_thresholds base override

  unfoldable pub thresholds_for_station : Config V → String → Thresholds V
  unfolding merged
  thresholds_for_station config station_id =
      merged config.defaults (entry config.stations station_id)
