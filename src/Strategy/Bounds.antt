-- ===== src/Strategy/Bounds.antt =====
-- The power that the engine asks for.
use microgrid_cloud.Prelude.{true, false, ◌≡◌, subst, Float64, Bool-cases, inl, inr}
use microgrid_cloud.Strategy.Domain.{Numbers}
use microgrid_cloud.Strategy.Engine.{clamp}

-- Laws of IEEE 754: a value is NaN exactly if it is not at most itself; apart from NaN the order is
-- total, and scaling, rounding to a whole number and scaling back keep it.
pub record IsOrdered (V : Type 0) ⦃f : Float64 V⦄ ⦃n : Numbers V⦄ : Type 0 where
  pub le_of_lt : (a b : V) → f.lt a b ≡ true → f.le a b ≡ true
  pub le_of_not_lt :
      (a b : V) → f.le a a ≡ true → f.le b b ≡ true → f.lt a b ≡ false → f.le b a ≡ true
  pub le_refl : (a b : V) → f.le a b ≡ true → (f.le a a ≡ true) × (f.le b b ≡ true)
  pub round_mono : (a b : V) → f.le a b ≡ true → f.le (n.round_milli a) (n.round_milli b) ≡ true

module _ {V : Type 0} ⦃f : Float64 V⦄ ⦃n : Numbers V⦄ (laws : IsOrdered V) where
  -- A measured value that is not NaN is clamped into the range from `min` to `max`, where both are
  -- whole thousandths. (A bound that is not may be left by the rounding.)
  clamp_bounds :
      (value min max : V)
      → f.le value value ≡ true
      → f.le min max ≡ true
      → n.round_milli min ≡ min
      → n.round_milli max ≡ max
      → (f.le min (clamp value min max) ≡ true) × (f.le (clamp value min max) max ≡ true)
  unfolding clamp
  clamp_bounds value min max number range low high = elim (Bool-cases (f.lt value min)) [
    | inl below ↦ rw below ((laws.le_refl min max range).0, range)
    | inr not_below ↦ elim (Bool-cases (f.lt max value)) [
      | inl above ↦ rw (not_below, above) (range, (laws.le_refl min max range).1)
      | inr inside ↦
          let at_least =
            laws.le_of_not_lt value min number (laws.le_refl min max range).0 not_below in
          let at_most = laws.le_of_not_lt max value (laws.le_refl min max range).1 number inside in
          rw (not_below, inside)
            (
              subst (λ x. f.le x (n.round_milli value) ≡ true) low
                  (laws.round_mono min value at_least),
              subst (λ x. f.le (n.round_milli value) x ≡ true) high
                  (laws.round_mono value max at_most),
            )
    ]
  ]
