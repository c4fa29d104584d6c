-- ===== src/Prelude/Float.antt =====
-- float64 as an interface. The services add, multiply, subtract and compare floats and nothing
-- else; the laws are those of IEEE 754 that hold for every value, infinities, NaN and the
-- negative zero included.
use mathlib.Core.Path.{◌≡◌, refl}
use mathlib.Core.Bool.{Bool, true, false}
use native.Mathlib.Omega.{arith}
use microgrid_cloud.Prelude.Int.{ℤ, pos, ◌+ℤ◌, ◌-ℤ◌, ◌*ℤ◌, ltb_ℤ, leb_ℤ}

pub record Float64 (V : Type 0) : Type 0 where
  pub nil : V
  pub add : V → V → V
  pub sub : V → V → V
  pub mul : V → V → V
  pub lt : V → V → Bool
  pub le : V → V → Bool
  -- Subtracting a value that is not negative does not pass above a bound.
  pub lt-sub : (h t v : V) → lt h nil ≡ false → lt t v ≡ true → le v (sub t h) ≡ false
  pub lt-add : (h t v : V) → lt h nil ≡ false → lt v t ≡ true → le (add t h) v ≡ false
  pub le-add_nil : (t v : V) → le (add t nil) v ≡ le t v
  pub le-sub_nil : (t v : V) → le v (sub t nil) ≡ le v t
  pub lt_nil : lt nil nil ≡ false
  pub add_nonneg : (a b : V) → lt a nil ≡ false → lt b nil ≡ false → lt (add a b) nil ≡ false
  pub mul_nonneg : (a b : V) → lt a nil ≡ false → lt b nil ≡ false → lt (mul a b) nil ≡ false

-- Exact integers satisfy the laws.
pub lt-sub_ℤ : (h t v : ℤ) → ltb_ℤ h (pos 0) ≡ false → ltb_ℤ t v ≡ true → leb_ℤ v (t -ℤ h) ≡ false
unfolding ◌-ℤ◌
lt-sub_ℤ h t v p q = ground arith

pub lt-add_ℤ : (h t v : ℤ) → ltb_ℤ h (pos 0) ≡ false → ltb_ℤ v t ≡ true → leb_ℤ (t +ℤ h) v ≡ false
unfolding ◌+ℤ◌
lt-add_ℤ h t v p q = ground arith

pub le-sub_nil_ℤ : (t v : ℤ) → leb_ℤ v (t -ℤ pos 0) ≡ leb_ℤ v t
unfolding ◌-ℤ◌
le-sub_nil_ℤ t v = ground arith

pub le-add_nil_ℤ : (t v : ℤ) → leb_ℤ (t +ℤ pos 0) v ≡ leb_ℤ t v
unfolding ◌+ℤ◌
le-add_nil_ℤ t v = ground arith

pub add_nonneg_ℤ :
    (a b : ℤ) → ltb_ℤ a (pos 0) ≡ false → ltb_ℤ b (pos 0) ≡ false → ltb_ℤ (a +ℤ b) (pos 0) ≡ false
unfolding ◌+ℤ◌
add_nonneg_ℤ a b p q = ground arith

pub mul_nonneg_ℤ :
    (a b : ℤ) → ltb_ℤ a (pos 0) ≡ false → ltb_ℤ b (pos 0) ≡ false → ltb_ℤ (a *ℤ b) (pos 0) ≡ false
unfolding ◌*ℤ◌
mul_nonneg_ℤ a b p q = ground arith

abbrev pub int_float : Float64 ℤ
int_float = record {
  nil = pos 0;
  add = ◌+ℤ◌;
  sub = ◌-ℤ◌;
  mul = ◌*ℤ◌;
  lt = ltb_ℤ;
  le = leb_ℤ;
  lt-sub = lt-sub_ℤ;
  lt-add = lt-add_ℤ;
  le-add_nil = le-add_nil_ℤ;
  le-sub_nil = le-sub_nil_ℤ;
  lt_nil = refl;
  add_nonneg = add_nonneg_ℤ;
  mul_nonneg = mul_nonneg_ℤ;
}
