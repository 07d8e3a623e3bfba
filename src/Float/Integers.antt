-- ===== src/Float/Integers.antt =====
-- The integers as floats: exact sums and products, a floor division, and a step for the exponential.
use sloserve.Prelude.{
  ok, suc, ℤ, pos, negsuc, ltb_ℤ, ◌+ℤ◌, ◌-ℤ◌, ◌*ℤ◌, true, false, ◌≡◌, arith, ◌/◌,
}
use Prim.Native.Nat.{◌^◌}
use sloserve.Prelude.Sorting.Laws.{IsStrictOrder}
use sloserve.Float.{Float, IsRounded}

-- Rounded down; zero where the divisor is not positive.
abbrev pub div_ℤ : ℤ → ℤ → ℤ
div_ℤ (pos n) (pos d) = pos (n / d)
div_ℤ (negsuc n) (pos d) = negsuc (n / d)
div_ℤ a (negsuc d) = pos 0

abbrev pub step_ℤ : ℤ → ℤ
step_ℤ (pos n) = pos 1
step_ℤ (negsuc n) = pos 0

instance abbrev pub integers : Float
integers = record {
  F = ℤ;
  lt = ltb_ℤ;
  add = ◌+ℤ◌;
  sub = ◌-ℤ◌;
  mul = ◌*ℤ◌;
  div = div_ℤ;
  neg = λ a. pos 0 -ℤ a;
  exp = step_ℤ;
  floor_div = λ a b. ok (div_ℤ a b);
  fits = λ _. true;
  of_ℤ = λ n. n;
  of_decimal = λ m e. div_ℤ m (pos (10 ^ e));
  is_finite = λ _. true;
}

pub integers-IsStrictOrder : IsStrictOrder ltb_ℤ
integers-IsStrictOrder = record {
  asym = λ a b h. ground arith;
  cotrans = λ a b c h k. ground arith;
}

neg-div_ℤ :
    (a b : ℤ)
    → ltb_ℤ a (pos 0) ≡ false
    → ltb_ℤ (pos 0) b ≡ true
    → ltb_ℤ (pos 0) (div_ℤ (pos 0 -ℤ a) b) ≡ false
unfolding ◌-ℤ◌
neg-div_ℤ (pos n) (pos (suc d)) h k = ground arith
neg-div_ℤ (pos n) (pos _) h k = ground arith
neg-div_ℤ (negsuc n) b h k = ground arith
neg-div_ℤ (pos n) (negsuc d) h k = ground arith

pub integers-IsRounded : IsRounded
unfolding ◌+ℤ◌ ◌-ℤ◌ ◌*ℤ◌
integers-IsRounded = record {
  order = integers-IsStrictOrder;
  sub_nonneg = λ a b h. ground arith;
  sub_self = λ a. ground arith;
  add_nonneg = λ a b h k. ground arith;
  mul_nonneg = λ a b h k. ground arith;
  exp_nonneg = λ a. ground arith;
  exp_le_one = λ a h. ground arith;
  neg-div_nonpos = neg-div_ℤ;
  float_nonneg = λ n. ground arith;
  float_pos = λ n h. ground arith;
}
