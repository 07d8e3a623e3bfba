-- ===== src/Analysis/Seeds.antt =====
-- src/sloserve/analysis/expl.py: intervals by an exact bootstrap over whole seeds. `math.ceil` and
-- `statistics.fmean` are parameters.
pub mod Bootstrap
use sloserve.Prelude.{
  ℕ, ℤ, pos, zero, suc, ltb, ltb_ℤ, eq_ℤ, ◌-ℤ◌, Bool, true, false, not, ◌&&◌, ◌||◌, Option, none,
  some, List, [], ◌∷◌, ◌++◌, map, any, length, item, Result, ok, err, raise_if, value_error,
  key_error, index_error, ◌>>◌, ◌>>=◌, if◌then◌else◌,
}
use sloserve.Prelude.Sorting.{sorted}
use sloserve.Float.{Float, ◌≺◌, ◌≼◌, ◌⊖◌, ◌⊗◌, ◌⊘◌, zero_f, float}

-- `f(x) for x in xs`, where a call may raise.
unfoldable pub traverse {ℓ κ} :
    {A : Type ℓ} {B : Type κ} → (A → Result B) → List A → Result (List B)
traverse g [] = ok []
traverse g (x ∷ xs) = do y ← g x; ys ← traverse g xs; ok (y ∷ ys)

abbrev pub prefixed {ℓ} : {A : Type ℓ} → List A → List (List A) → List (List A)
prefixed [] rests = []
prefixed (s ∷ ss) rests = map (λ rest. s ∷ rest) rests ++ prefixed ss rests

-- `itertools.product(seeds, repeat=n)`
unfoldable pub product {ℓ} : {A : Type ℓ} → ℕ → List A → List (List A)
product zero seeds = [] ∷ []
product (suc n) seeds = prefixed seeds (product n seeds)

module _ ⦃f : Float⦄ where
  -- A mapping from seeds to values.
  abbrev pub SeedValues : Type 0
  SeedValues = List (ℤ × f.F)

  pub record IntervalEstimate : Type 0 where
    pub estimate : f.F
    pub low_95 : f.F
    pub high_95 : f.F
    pub seed_count : ℤ

  abbrev pub seeds_of : SeedValues → List ℤ
  seeds_of = map (λ entry. entry.0)

  -- `values[seed]`
  abbrev pub value_at : SeedValues → ℤ → Result f.F
  value_at [] seed = err (key_error "seed")
  value_at ((s, x) ∷ values) seed =
      let rest = value_at values seed in if eq_ℤ s seed then ok x else rest

  abbrev pub has_seed : List ℤ → ℤ → Bool
  has_seed seeds seed = any (λ s. eq_ℤ s seed) seeds

  abbrev pub includes : List ℤ → List ℤ → Bool
  includes seeds others = not (any (λ s. not (has_seed seeds s)) others)

  -- `_aligned_seeds`
  abbrev pub is_nil {ℓ} : {A : Type ℓ} → List A → Bool
  is_nil [] = true
  is_nil (x ∷ xs) = false

  unfoldable pub aligned_seeds : List SeedValues → Result (List ℤ)
  aligned_seeds [] = err (value_error "paired statistics require at least one sample")
  aligned_seeds (sample ∷ samples) = do
    let first = seeds_of sample
    raise_if
        (is_nil first
          || any (λ s. not (includes first (seeds_of s) && includes (seeds_of s) first)) samples)
        (value_error "paired statistics require identical non-empty seed sets")
    ok (sorted ltb_ℤ (λ seed. seed) first)

  abbrev pub or_index_error : Option f.F → Result f.F
  or_index_error none = err (index_error "list index out of range")
  or_index_error (some x) = ok x

  module _ (ceil : f.F → ℤ) where
    -- `math.ceil(proportion * len(ordered))`
    abbrev pub tail_rank : f.F → ℕ → ℤ
    tail_rank proportion n = ceil (proportion ⊗ float (pos n))

    -- `_nearest_rank`
    unfoldable pub percentile : List f.F → f.F → Result f.F
    percentile values proportion = do
      raise_if (is_nil values) (value_error "a percentile requires at least one value")
      let ordered = sorted f.lt (λ x. x) values
      or_index_error (item ordered (tail_rank proportion (length ordered) -ℤ pos 1))

    abbrev pub low_tail : f.F
    low_tail = f.of_decimal (pos 25) 3

    abbrev pub high_tail : f.F
    high_tail = f.of_decimal (pos 975) 3

    -- `_bootstrap_seed_statistic`
    unfoldable pub bootstrap_seed_statistic :
        List SeedValues → (List ℤ → Result f.F) → Result IntervalEstimate
    unfolding percentile aligned_seeds product traverse
    bootstrap_seed_statistic samples statistic = do
      seeds ← aligned_seeds samples
      point ← statistic seeds
      raise_if (ltb 6 (length seeds))
          (value_error "exact seed bootstrap supports at most six seed clusters")
      values ← traverse statistic (product (length seeds) seeds)
      low ← percentile values low_tail
      high ← percentile values high_tail
      ok (record {
        estimate = point;
        low_95 = low;
        high_95 = high;
        seed_count = pos (length seeds);
      })

    module _ (fmean : List f.F → f.F) where
      abbrev pub mean_over : (ℤ → Result f.F) → List ℤ → Result f.F
      mean_over value seeds = traverse value seeds >>= λ values. ok (fmean values)

      unfoldable pub cluster_mean_interval : SeedValues → Result IntervalEstimate
      unfolding bootstrap_seed_statistic
      cluster_mean_interval values =
          bootstrap_seed_statistic (values ∷ []) (mean_over (value_at values))

      abbrev pub difference_at : SeedValues → SeedValues → ℤ → Result f.F
      difference_at treatment baseline seed = do
        t ← value_at treatment seed
        b ← value_at baseline seed
        ok (t ⊖ b)

      unfoldable pub paired_difference_interval : SeedValues → SeedValues → Result IntervalEstimate
      unfolding bootstrap_seed_statistic
      paired_difference_interval treatment baseline =
          bootstrap_seed_statistic (treatment ∷ baseline ∷ [])
            (mean_over (difference_at treatment baseline))

      abbrev pub ratio_at : SeedValues → SeedValues → ℤ → Result f.F
      ratio_at numerator denominator seed = do
        n ← value_at numerator seed
        d ← value_at denominator seed
        ok (n ⊘ d)

      unfoldable pub paired_ratio_interval : SeedValues → SeedValues → Result IntervalEstimate
      unfolding bootstrap_seed_statistic
      paired_ratio_interval numerator denominator = do
        seeds ← aligned_seeds (numerator ∷ denominator ∷ [])
        denominators ← traverse (value_at denominator) seeds
        raise_if (any (λ d. d ≼ zero_f) denominators)
            (value_error "paired ratios require positive denominators")
        bootstrap_seed_statistic (numerator ∷ denominator ∷ [])
            (mean_over (ratio_at numerator denominator))
