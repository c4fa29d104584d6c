-- ===== src/Statistics/Reads.antt =====
-- The queries of the statistics table.
use microgrid_cloud.Prelude.{ℕ, String, List, [], ◌∷◌, Option, none, some, Float64}
use microgrid_cloud.Prelude.Platform.{Platform}
use microgrid_cloud.Prelude.Exec.{Keeps}
use microgrid_cloud.Prelude.Exec.Rules.{
  Keeps-lift, Keeps-attempt, Keeps-guard, Keeps-gets, Keeps-pure, Keeps-raise, Keeps-bind,
}
use microgrid_cloud.Statistics.Domain.{Granularity}
use microgrid_cloud.Statistics.Repository.{
  Row, StatisticDb, scan_found, scan_or_missing, scan_all, find_by_station_hour, get,
  list_by_granularity_and_period,
}

module _ {V : Type 0} ⦃f : Float64 V⦄ {P : StatisticDb V → Type 0} where
  scan_all-Keeps : (rows : List (Row V)) → Keeps P (scan_all rows)
  unfolding scan_all
  scan_all-Keeps [] = Keeps-pure _
  scan_all-Keeps (r ∷ rest) =
      Keeps-bind _ _ (Keeps-lift _) λ a. Keeps-bind _ _ (scan_all-Keeps rest) λ others. Keeps-pure _

  scan_or_missing-Keeps : (row : Option (Row V)) → Keeps P (scan_or_missing row)
  unfolding scan_or_missing
  scan_or_missing-Keeps none = Keeps-raise _
  scan_or_missing-Keeps (some r) = Keeps-lift _

  scan_found-Keeps : (row : Option (Row V)) → Keeps P (scan_found row)
  unfolding scan_found
  scan_found-Keeps none = Keeps-pure _
  scan_found-Keeps (some r) = Keeps-bind _ _ (Keeps-lift _) λ a. Keeps-pure _

  module _ (platform : Platform) (own : String) where
    pub get-Keeps : (id : String) → Keeps P (get platform own id)
    unfolding get
    get-Keeps id = Keeps-bind _ _ (Keeps-lift _) λ s. Keeps-bind _ _ (Keeps-guard _ _) λ _.
        Keeps-bind _ _ (Keeps-attempt _)
          λ _. Keeps-bind _ _ (Keeps-gets _) λ row. scan_or_missing-Keeps row

    pub list-Keeps :
        (type : Granularity) (start end : ℕ)
        → Keeps P (list_by_granularity_and_period platform own type start end)
    unfolding list_by_granularity_and_period
    list-Keeps type start end = Keeps-bind _ _ (Keeps-lift _) λ s.
        Keeps-bind _ _ (Keeps-guard _ _) λ _.
          Keeps-bind _ _ (Keeps-attempt _)
            λ _. Keeps-bind _ _ (Keeps-gets _) λ rows. scan_all-Keeps rows

    pub find-Keeps :
        (station_id : String) (start : ℕ)
        → Keeps P (find_by_station_hour platform own station_id start)
    unfolding find_by_station_hour
    find-Keeps station_id start = Keeps-bind _ _ (Keeps-lift _) λ s.
        Keeps-bind _ _ (Keeps-guard _ _) λ _. Keeps-bind _ _ (Keeps-lift _) λ key.
          Keeps-bind _ _ (Keeps-attempt _)
            λ _. Keeps-bind _ _ (Keeps-gets _) λ row. scan_found-Keeps row
