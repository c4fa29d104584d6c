-- ===== src/Shadowrun/Diff.antt =====
-- The comparison by the day: `buildDiffSummary` of
-- backend/internal/shadowrun/application/reconcile.go, and the two decisions on its summary in
-- runner.go. Go's maps by the day are functions of the day.
use Prim.Native.Nat.{zero, suc, ◌/◌}
use microgrid_cloud.Prelude.{
  ℕ, ◌+◌, ◌-◌, String, List, [], ◌∷◌, ◌++◌, Bool, true, false, ◌&&◌, Option, none, some,
  if◌then◌else◌, eqb, ltb, ltb_ℤ, leb_ℤ, Float64, pos, length, sort_by, one_day, day_start,
}
use microgrid_cloud.Prelude.Platform.{Platform}
use microgrid_cloud.Prelude.Sorting.{by_key}
use microgrid_cloud.Shadowrun.Domain.{
  HourStat, SettlementRow, ReconcileResult, DiffDay, DiffSummary, Thresholds,
}

module _ {V : Type 0} where
  -- `hourByDay`, filled in the order of the rows.
  unfoldable pub group_hours : (ℕ → List (HourStat V)) → List (HourStat V) → ℕ → List (HourStat V)
  group_hours m [] = m
  group_hours m (h ∷ rest) =
      group_hours (λ day. if eqb (day_start h.row.period_start) day then m day ++ h ∷ [] else m day)
        rest

  -- `settlementByDay`: a later row of a day replaces an earlier one.
  unfoldable pub index_settlements :
      (ℕ → Option (SettlementRow V)) → List (SettlementRow V) → ℕ → Option (SettlementRow V)
  index_settlements m [] = m
  index_settlements m (s ∷ rest) =
      index_settlements (λ day. if eqb (day_start s.day_start) day then some s else m day) rest

-- The end of the days that are compared: a job inside the month stops before its own day.
unfoldable pub end_date : ℕ → ℕ → ℕ → ℕ
end_date month_start month_end job_date =
    if ltb job_date month_end && ltb month_start job_date then day_start job_date else month_end

-- The days of `for day := from; day.Before(to); day = day.AddDate(0, 0, 1)`, in at most `rounds`.
unfoldable pub days_loop : ℕ → ℕ → ℕ → List ℕ
days_loop zero day to = []
days_loop (suc rounds) day to =
    let rest = days_loop rounds (day + one_day) to in if ltb day to then day ∷ rest else []

-- So many rounds let the loop end by its own test.
abbrev pub rounds_for : ℕ → ℕ → ℕ
rounds_for from to = suc ((to - from) / 86400000000000)

unfoldable pub days_from : ℕ → ℕ → List ℕ
unfolding days_loop
days_from from to = days_loop (rounds_for from to) from to

-- The variables of the loop over the days.
pub record Progress (V : Type 0) : Type 0 where
  pub diffs : List (DiffDay V)
  pub max_energy : V
  pub max_amount : V
  pub missing_total : ℕ

module _ {V : Type 0} ⦃f : Float64 V⦄ where
  abbrev pub abs : V → V
  abs v = if f.lt v f.nil then f.sub f.nil v else v

  unfoldable pub sum_energy : V → List (HourStat V) → V
  sum_energy acc [] = acc
  sum_energy acc (h ∷ rest) = sum_energy (f.add acc h.energy_kwh) rest

  unfoldable pub sum_amount : V → List (HourStat V) → V
  sum_amount acc [] = acc
  sum_amount acc (h ∷ rest) = sum_amount (f.add acc h.amount) rest

  -- A day with no settlement counts as the zero row.
  unfoldable pub settled_energy : Option (SettlementRow V) → V
  settled_energy none = f.nil
  settled_energy (some s) = s.energy_kwh

  unfoldable pub settled_amount : Option (SettlementRow V) → V
  settled_amount none = f.nil
  settled_amount (some s) = s.amount

  unfoldable pub diff_day : ℕ → List (HourStat V) → Option (SettlementRow V) → DiffDay V
  unfolding sum_energy sum_amount settled_energy settled_amount
  diff_day day hours settle = record {
    day_start = day;
    energy_hour = sum_energy f.nil hours;
    energy_settle = settled_energy settle;
    energy_diff = f.sub (sum_energy f.nil hours) (settled_energy settle);
    amount_hour = sum_amount f.nil hours;
    amount_settle = settled_amount settle;
    amount_diff = f.sub (sum_amount f.nil hours) (settled_amount settle);
    missing_hours = 24 - length hours;
  }

  -- `if abs(x) > max { max = abs(x) }`.
  unfoldable pub raise_max : V → V → V
  raise_max max x = if f.lt max (abs x) then abs x else max

  unfoldable pub add_day : DiffDay V → Progress V → Progress V
  unfolding raise_max
  add_day x p = record {
    diffs = p.diffs ++ x ∷ [];
    max_energy = raise_max p.max_energy x.energy_diff;
    max_amount = raise_max p.max_amount x.amount_diff;
    missing_total = p.missing_total + x.missing_hours;
  }

  unfoldable pub compare_days :
      (ℕ → List (HourStat V)) → (ℕ → Option (SettlementRow V)) → List ℕ → Progress V → Progress V
  unfolding add_day diff_day
  compare_days hours settled [] p = p
  compare_days hours settled (day ∷ rest) p =
      compare_days hours settled rest (add_day (diff_day day (hours day) (settled day)) p)

  unfoldable pub compare_month : ReconcileResult V → ℕ → ℕ → ℕ → Progress V
  unfolding compare_days group_hours index_settlements days_from end_date
  compare_month r month_start month_end job_date =
      compare_days (group_hours (λ day. []) r.hours) (index_settlements (λ day. none) r.settlements)
        (days_from month_start (end_date month_start month_end job_date))
        (record { diffs = []; max_energy = f.nil; max_amount = f.nil; missing_total = 0 })

  unfoldable pub settlements_station_id : ReconcileResult V → String
  settlements_station_id r = elim r.settlements [
    | s ∷ _ ↦ s.station_id
    | [] ↦ elim r.days [
      | d ∷ _ ↦ d.row.subject_id
      | [] ↦ elim r.hours [ h ∷ _ ↦ h.row.subject_id | [] ↦ "" ]
    ]
  ]

  -- `now` is the reading of the clock.
  unfoldable pub build_diff_summary :
      Platform → ReconcileResult V → ℕ → ℕ → ℕ → Thresholds V → ℕ → DiffSummary V
  unfolding compare_month settlements_station_id
  build_diff_summary platform r month_start month_end job_date thresholds now =
      let p = compare_month r month_start month_end job_date in
      record {
        month = platform.format_month month_start;
        station_id = settlements_station_id r;
        diff_energy_max = p.max_energy;
        diff_amount_max = p.max_amount;
        missing_hours_total = p.missing_total;
        late_data_count = 0;
        generated_at = platform.format_seconds now;
        day_diffs = sort_by (by_key (λ d. d.day_start)) p.diffs;
        thresholds = thresholds;
      }

  abbrev pub missing_exceeds : DiffSummary V → Thresholds V → Bool
  missing_exceeds s t =
      ltb_ℤ (pos 0) t.missing_hours && leb_ℤ t.missing_hours (pos s.missing_hours_total)

  abbrev pub energy_exceeds : DiffSummary V → Thresholds V → Bool
  energy_exceeds s t = f.lt f.nil t.energy_abs && f.le t.energy_abs s.diff_energy_max

  abbrev pub amount_exceeds : DiffSummary V → Thresholds V → Bool
  amount_exceeds s t = f.lt f.nil t.amount_abs && f.le t.amount_abs s.diff_amount_max

  unfoldable pub is_threshold_exceeded : DiffSummary V → Thresholds V → Bool
  is_threshold_exceeded s t =
      if missing_exceeds s t
      then true
      else if energy_exceeds s t
      then true
      else if amount_exceeds s t
      then true
      else false

  unfoldable pub recommended_action : DiffSummary V → Thresholds V → String
  recommended_action s t =
      if missing_exceeds s t
      then "replay_missing_hours"
      else if energy_exceeds s t
      then "check_mapping_or_tariff"
      else if amount_exceeds s t
      then "check_tariff_or_settlement"
      else "none"
