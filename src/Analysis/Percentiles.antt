-- ===== src/Analysis/Percentiles.antt =====
-- src/sloserve/analysis/metrics.py: the nearest-rank percentiles, which correctness.py and expl.py
-- define once more. `math.ceil` is a parameter.
pub mod Ranks
use sloserve.Prelude.{
  ℕ, ℤ, pos, suc, ◌≤ℤ◌, ◌-ℤ◌, Option, none, some, List, [], ◌∷◌, length, item, Result, ok, err,
  index_error, ◌>>=◌,
}
use sloserve.Prelude.Sorting.{sorted}
use sloserve.Float.{Float, ◌⊗◌, float}

module _ ⦃f : Float⦄ where
  pub record Percentiles : Type 0 where
    pub p50 : Option f.F
    pub p95 : Option f.F
    pub p99 : Option f.F

  abbrev pub half : f.F
  half = f.of_decimal (pos 50) 2

  abbrev pub most : f.F
  most = f.of_decimal (pos 95) 2

  abbrev pub nearly_all : f.F
  nearly_all = f.of_decimal (pos 99) 2

  abbrev found : Option f.F → Result (Option f.F)
  found none = err (index_error "list index out of range")
  found (some x) = ok (some x)

  module _ (ceil : f.F → ℤ) where
    -- `math.ceil(proportion * len(sorted_values))`
    abbrev pub rank : f.F → ℕ → ℤ
    rank proportion n = ceil (proportion ⊗ float (pos n))

    -- What `math.ceil` gives for the proportions in use: a rank from one to the length, which grows
    -- with the proportion.
    pub record IsCeiling : Type 0 where
      pub half_low : (n : ℕ) → pos 1 ≤ℤ rank half (suc n)
      pub half-le-most : (n : ℕ) → rank half n ≤ℤ rank most n
      pub most-le-nearly_all : (n : ℕ) → rank most n ≤ℤ rank nearly_all n
      pub nearly_all_high : (n : ℕ) → rank nearly_all n ≤ℤ pos n

    -- `_nearest_rank`
    unfoldable pub nearest_rank : List f.F → f.F → Result (Option f.F)
    nearest_rank [] proportion = ok none
    nearest_rank (x ∷ xs) proportion =
        found (item (x ∷ xs) (rank proportion (length (x ∷ xs)) -ℤ pos 1))

    -- `_percentiles`
    unfoldable pub percentiles : List f.F → Result Percentiles
    percentiles values = do
      let sorted_values = sorted f.lt (λ x. x) values
      p50 ← nearest_rank sorted_values half
      p95 ← nearest_rank sorted_values most
      p99 ← nearest_rank sorted_values nearly_all
      ok (record { p50 = p50; p95 = p95; p99 = p99 })
