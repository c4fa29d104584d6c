-- ===== src/Shadowrun/Extremes.antt =====
-- The largest differences of a summary, the missing hours, and the decisions on them.
use microgrid_cloud.Prelude.{
  ℕ, ◌+◌, List, [], ◌∷◌, Bool, true, false, Option, none, ◌≡◌, ◌↔◌, ◌⊎◌, inl, inr, refl, subst, ◌∙◌,
  arith, if◌then◌else◌, ◌==◌, Float64, Bool-cases, All,
}
use microgrid_cloud.Prelude.Platform.{Platform}
use microgrid_cloud.Shadowrun.Domain.{
  HourStat, SettlementRow, ReconcileResult, DiffDay, DiffSummary, Thresholds,
}
use microgrid_cloud.Shadowrun.Diff.{
  abs, group_hours, index_settlements, end_date, days_from, diff_day, Progress, raise_max, add_day,
  compare_days, compare_month, build_diff_summary, missing_exceeds, energy_exceeds, amount_exceeds,
  is_threshold_exceeded, recommended_action,
}
use microgrid_cloud.Shadowrun.Days.{compared, day_diffs-eq-compared}

-- Laws of IEEE 754 for every value, NaN included.
pub record IsStrictOrder (V : Type 0) ⦃f : Float64 V⦄ : Type 0 where
  pub irrefl : (a : V) → f.lt a a ≡ false
  pub trans : (a b c : V) → f.lt a b ≡ true → f.lt b c ≡ true → f.lt a c ≡ true

module _ {V : Type 0} where
  unfoldable pub sum_missing : List (DiffDay V) → ℕ
  sum_missing [] = 0
  sum_missing (x ∷ rest) = x.missing_hours + sum_missing rest

module _ {V : Type 0} ⦃f : Float64 V⦄ (value : DiffDay V → V) where
  -- The maximum is the start or the size of some value.
  abbrev pub Among : V → V → List (DiffDay V) → Type 0
  Among start max [] = max ≡ start
  Among start max (x ∷ rest) = (max ≡ abs (value x)) ⊎ Among start max rest

  -- No value is larger, and it is the start or one of them.
  abbrev pub IsLargest : V → List (DiffDay V) → Type 0
  IsLargest max diffs = All (λ x. f.lt max (abs (value x)) ≡ false) diffs × Among f.nil max diffs

  raised : V → List (DiffDay V) → V
  raised max [] = max
  raised max (x ∷ rest) = raised (raise_max max (value x)) rest

  shift : (a b max : V) (rest : List (DiffDay V)) → Among a max rest → (max ≡ a) ⊎ Among b max rest
  shift a b max [] h = inl h
  shift a b max (x ∷ rest) (inl h) = inr (inl h)
  shift a b max (x ∷ rest) (inr h) = elim (shift a b max rest h) [
    | inl e ↦ inl e
    | inr k ↦ inr (inr k)
  ]

  raise_above : (start x : V) → f.lt start (abs x) ≡ true → raise_max start x ≡ abs x
  unfolding raise_max
  raise_above start x h = rw h refl

  raise_below : (start x : V) → f.lt start (abs x) ≡ false → raise_max start x ≡ start
  unfolding raise_max
  raise_below start x h = rw h refl

  raised-Among : (start : V) (diffs : List (DiffDay V)) → Among start (raised start diffs) diffs
  unfolding raised
  raised-Among start [] = refl
  raised-Among start (x ∷ rest) =
      let m = raise_max start (value x) in
      let later = raised-Among m rest in
      elim (Bool-cases (f.lt start (abs (value x)))) [
        | inl above ↦ elim (shift m start (raised m rest) rest later) [
          | inl e ↦ inl (e ∙ raise_above start (value x) above)
          | inr k ↦ inr k
        ]
        | inr below ↦
            inr
              (subst (λ y. Among y (raised m rest) rest) (raise_below start (value x) below) later)
      ]

  module _ (laws : IsStrictOrder V) where
    raise_keeps : (max x y : V) → f.lt max y ≡ false → f.lt (raise_max max x) y ≡ false
    unfolding raise_max
    raise_keeps max x y h = elim (Bool-cases (f.lt max (abs x))) [
      | inl above ↦ elim (Bool-cases (f.lt (abs x) y)) [
        | inl bad ↦ let both = laws.trans max (abs x) y above bad in cc
        | inr good ↦ rw above good
      ]
      | inr below ↦ rw below h
    ]

    raise_covers : (max x : V) → f.lt (raise_max max x) (abs x) ≡ false
    unfolding raise_max
    raise_covers max x = elim (Bool-cases (f.lt max (abs x))) [
      | inl above ↦ rw above (laws.irrefl (abs x))
      | inr below ↦ rw below below
    ]

    raised_keeps :
        (max y : V) (diffs : List (DiffDay V))
        → f.lt max y ≡ false
        → f.lt (raised max diffs) y ≡ false
    unfolding raised
    raised_keeps max y [] h = h
    raised_keeps max y (x ∷ rest) h =
        raised_keeps (raise_max max (value x)) y rest (raise_keeps max (value x) y h)

    raised_covers :
        (max : V) (diffs : List (DiffDay V))
        → All (λ x. f.lt (raised max diffs) (abs (value x)) ≡ false) diffs
    unfolding raised
    raised_covers max [] = tt
    raised_covers max (x ∷ rest) = (
      raised_keeps (raise_max max (value x)) (abs (value x)) rest (raise_covers max (value x)),
      raised_covers (raise_max max (value x)) rest,
    )

    raised-IsLargest : (diffs : List (DiffDay V)) → IsLargest (raised f.nil diffs) diffs
    raised-IsLargest diffs = (raised_covers f.nil diffs, raised-Among f.nil diffs)

zero-add : (n : ℕ) → 0 + n ≡ n
zero-add n = omega arith

decided :
    (a b c : Bool)
    → ((if a then true else if b then true else if c then true else false) ≡ true) ↔ (
        (if a
            then "replay_missing_hours"
            else if b
            then "check_mapping_or_tariff"
            else if c
            then "check_tariff_or_settlement"
            else "none")
          == "none"
        ≡ false)
decided true b c = (λ _. refl, λ _. refl)
decided false true c = (λ _. refl, λ _. refl)
decided false false true = (λ _. refl, λ _. refl)
decided false false false = (λ h. cc, λ h. cc)

module _ {V : Type 0} ⦃f : Float64 V⦄ where
  -- What the loop over the days has computed.
  record Totals (p q : Progress V) (diffs : List (DiffDay V)) : Type 0 where
    energy : q.max_energy ≡ raised (λ x. x.energy_diff) p.max_energy diffs
    amount : q.max_amount ≡ raised (λ x. x.amount_diff) p.max_amount diffs
    missing : q.missing_total ≡ p.missing_total + sum_missing diffs

  totals :
      (hours : ℕ → List (HourStat V)) (settled : ℕ → Option (SettlementRow V)) (days : List ℕ)
      (p : Progress V)
      → Totals p (compare_days hours settled days p) (compared hours settled days)
  unfolding compare_days compared raised sum_missing add_day
  totals hours settled [] p = record { energy = refl; amount = refl; missing = omega arith }
  totals hours settled (day ∷ rest) p =
      let later = totals hours settled rest (add_day (diff_day day (hours day) (settled day)) p) in
      record {
        energy = later.energy;
        amount = later.amount;
        missing = omega (arith, later.missing);
      }

  -- The largest energy and amount differences of a summary are the largest sizes of its days'
  -- differences, or zero where no size is above zero, NaN differences being passed over; and its
  -- missing hours are those of its days.
  pub summary_extremes :
      IsStrictOrder V
      → (platform : Platform) (r : ReconcileResult V) (month_start month_end job_date : ℕ)
        (thresholds : Thresholds V) (now : ℕ)
      → let s = build_diff_summary platform r month_start month_end job_date thresholds now in
        IsLargest (λ x. x.energy_diff) s.diff_energy_max s.day_diffs
        × IsLargest (λ x. x.amount_diff) s.diff_amount_max s.day_diffs
        × (s.missing_hours_total ≡ sum_missing s.day_diffs)
  unfolding build_diff_summary compare_month
  summary_extremes laws platform r month_start month_end job_date thresholds now =
      let hours = group_hours (λ day. []) r.hours in
      let settled = index_settlements (λ day. none) r.settlements in
      let days = days_from month_start (end_date month_start month_end job_date) in
      let start : Progress V = record {
        diffs = [];
        max_energy = f.nil;
        max_amount = f.nil;
        missing_total = 0;
      } in
      let t = totals hours settled days start in
      rw (day_diffs-eq-compared platform r month_start month_end job_date thresholds now) (
        rw (t.energy, t.amount)
          (
            raised-IsLargest (λ x. x.energy_diff) laws (compared hours settled days),
            raised-IsLargest (λ x. x.amount_diff) laws (compared hours settled days),
            t.missing ∙ zero-add _,
          ))

  -- A summary exceeds the thresholds exactly if an action other than "none" is recommended.
  pub exceeded_iff_recommended :
      (s : DiffSummary V) (t : Thresholds V)
      → (is_threshold_exceeded s t ≡ true) ↔ (recommended_action s t == "none" ≡ false)
  unfolding is_threshold_exceeded recommended_action
  exceeded_iff_recommended s t =
      decided (missing_exceeds s t) (energy_exceeds s t) (amount_exceeds s t)
