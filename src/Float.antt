-- ===== src/Float.antt =====
-- Python's `float`. The interpreter's doubles are a parameter: a type with its operations, and, as
-- named hypotheses, laws that doubles other than NaN have (rounding keeps order, comparison is a
-- strict weak order). `Float/Integers.antt` is an instance on which everything runs.
pub mod Integers
pub mod Hundredths
pub mod Sequences
use sloserve.Prelude.{◌≤ℤ◌, ℕ, ℤ, pos, Bool, true, false, not, ◌&&◌, ◌≡◌, if◌then◌else◌, Result}
use sloserve.Prelude.Sorting.Laws.{IsStrictOrder}

-- `floor_div a b` is `int(a // b)`, which raises where the quotient is infinite or NaN. `of_ℤ` is
-- `float(int)` where `fits` says that it does not raise, and `of_decimal m e` is the literal
-- m * 10 ** -e. `lt` is `<`, and `div` is `/` where the divisor is not zero.
pub record Float : Type 1 where
  pub F : Type 0
  pub lt : F → F → Bool
  pub add : F → F → F
  pub sub : F → F → F
  pub mul : F → F → F
  pub div : F → F → F
  pub neg : F → F
  pub exp : F → F
  pub floor_div : F → F → Result ℤ
  pub of_ℤ : ℤ → F
  pub fits : ℤ → Bool
  pub of_decimal : ℤ → ℕ → F
  pub is_finite : F → Bool

module _ ⦃f : Float⦄ where
  infixl 65 ◌⊕◌ ◌⊖◌
  infixl 70 ◌⊗◌ ◌⊘◌
  infix 50 ◌≺◌ ◌≼◌
  abbrev pub ◌⊕◌ : f.F → f.F → f.F
  ◌⊕◌ = f.add

  abbrev pub ◌⊖◌ : f.F → f.F → f.F
  ◌⊖◌ = f.sub

  abbrev pub ◌⊗◌ : f.F → f.F → f.F
  ◌⊗◌ = f.mul

  abbrev pub ◌⊘◌ : f.F → f.F → f.F
  ◌⊘◌ = f.div

  abbrev pub ◌≺◌ : f.F → f.F → Bool
  ◌≺◌ = f.lt

  -- `a <= b`, which is the failure of `b < a` where neither is NaN.
  abbrev pub ◌≼◌ : f.F → f.F → Bool
  a ≼ b = not (b ≺ a)

  -- `a == b`
  abbrev pub eq : f.F → f.F → Bool
  eq a b = a ≼ b && b ≼ a

  -- `float(n)`, and the literal `0.0`.
  abbrev pub float : ℤ → f.F
  float = f.of_ℤ

  abbrev pub zero_f : f.F
  zero_f = f.of_ℤ (pos 0)

  abbrev pub one_f : f.F
  one_f = f.of_ℤ (pos 1)

  -- `min(a, b)` and `max(a, b)` keep the first of two equal values.
  abbrev pub min_f : f.F → f.F → f.F
  min_f a b = if b ≺ a then b else a

  abbrev pub max_f : f.F → f.F → f.F
  max_f a b = if a ≺ b then b else a

  abbrev pub IsOrdered : Type 0
  IsOrdered = IsStrictOrder f.lt

  -- Laws of rounded arithmetic: what is exact at zero, and what is monotone.
  pub record IsRounded : Type 0 where
    pub order : IsStrictOrder f.lt
    pub sub_nonneg : (a b : f.F) → (b ≺ a) ≡ false → (b ⊖ a ≺ zero_f) ≡ false
    pub sub_self : (a : f.F) → (a ⊖ a ≺ zero_f) ≡ false
    pub add_nonneg :
        (a b : f.F) → (a ≺ zero_f) ≡ false → (b ≺ zero_f) ≡ false → (a ⊕ b ≺ zero_f) ≡ false
    pub mul_nonneg :
        (a b : f.F) → (a ≺ zero_f) ≡ false → (b ≺ zero_f) ≡ false → (a ⊗ b ≺ zero_f) ≡ false
    pub exp_nonneg : (a : f.F) → (f.exp a ≺ zero_f) ≡ false
    pub exp_le_one : (a : f.F) → (zero_f ≺ a) ≡ false → (one_f ≺ f.exp a) ≡ false
    pub neg-div_nonpos :
        (a b : f.F) → (a ≺ zero_f) ≡ false → (zero_f ≺ b) ≡ true → (zero_f ≺ f.neg a ⊘ b) ≡ false
    pub float_nonneg : (n : ℕ) → (float (pos n) ≺ zero_f) ≡ false
    pub float_pos : (n : ℤ) → pos 1 ≤ℤ n → (zero_f ≺ float n) ≡ true
