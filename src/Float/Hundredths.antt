-- ===== src/Float/Hundredths.antt =====
-- Fixed-point numbers as floats: an integer stands for that many hundredths.
use sloserve.Prelude.{ok, ℤ, pos, negsuc, ltb_ℤ, ◌+ℤ◌, ◌-ℤ◌, ◌*ℤ◌, true, ◌/◌, ◌+◌}
use Prim.Native.Nat.{◌^◌}
use sloserve.Float.{Float}
use sloserve.Float.Integers.{div_ℤ, step_ℤ}

instance abbrev pub hundredths : Float
hundredths = record {
  F = ℤ;
  lt = ltb_ℤ;
  add = ◌+ℤ◌;
  sub = ◌-ℤ◌;
  mul = λ a b. div_ℤ (a *ℤ b) (pos 100);
  div = λ a b. div_ℤ (a *ℤ pos 100) b;
  neg = λ a. pos 0 -ℤ a;
  exp = step_ℤ;
  floor_div = λ a b. ok (div_ℤ a b);
  fits = λ _. true;
  of_ℤ = λ n. n *ℤ pos 100;
  of_decimal = λ m e. div_ℤ (m *ℤ pos 100) (pos (10 ^ e));
  is_finite = λ _. true;
}

-- `math.ceil`
abbrev pub ceil : ℤ → ℤ
ceil (pos n) = pos ((n + 99) / 100)
ceil (negsuc n) = pos 0 -ℤ pos ((n + 1) / 100)
