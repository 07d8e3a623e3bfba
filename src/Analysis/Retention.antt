-- ===== src/Analysis/Retention.antt =====
-- check_benefit_retention of src/sloserve/analysis/expl.py. `math.ceil` and `statistics.fmean` are
-- parameters.
use sloserve.Prelude.{
  ℤ, pos, Bool, true, false, Option, none, some, List, [], ◌∷◌, length, Result, ok, err, raise_if,
  pre_registration_failure, zero_division_error, ◌>>◌, ◌>>=◌, if◌then◌else◌, ◌||◌, ◌≡◌, ◌+◌,
  >>=-eq-ok, ok_inj, ap, ◌∙◌, sym, arith, suc, ℕ,
}
use sloserve.Float.{Float, zero_f, ◌≺◌, ◌≼◌, ◌⊘◌}
use sloserve.Analysis.Seeds.{
  SeedValues, aligned_seeds, product, percentile, low_tail, high_tail, is_nil, mean_over,
  difference_at,
}

module _ ⦃f : Float⦄ where
  -- The samples of the two bootstraps, and how many of each had no positive denominator.
  pub record Samples : Type 0 where
    pub wait_bootstrap : List f.F
    pub invalid_wait : ℕ
    pub slo_bootstrap : List f.F
    pub invalid_slo : ℕ

  pub record RetentionReport : Type 0 where
    pub wait_retention : f.F
    pub slo_retention : f.F
    pub wait_bootstrap_95 : Option (f.F × f.F)
    pub slo_bootstrap_95 : Option (f.F × f.F)
    pub uninterpretable_wait : ℕ
    pub uninterpretable_slo : ℕ

  -- `except ZeroDivisionError`
  abbrev pub attempt : Result f.F → Result (Option f.F)
  attempt (ok x) = ok (some x)
  attempt (err (zero_division_error text)) = ok none
  attempt (err e) = err e

  abbrev pub with_sample : Option f.F → List f.F → List f.F
  with_sample (some x) xs = x ∷ xs
  with_sample none xs = xs

  abbrev pub with_invalid : Option f.F → ℕ → ℕ
  with_invalid (some x) n = n
  with_invalid none n = suc n

  unfoldable pub collect :
      (List ℤ → Result f.F) → (List ℤ → Result f.F) → List (List ℤ) → Result Samples
  collect wait slo [] =
      ok (record { wait_bootstrap = []; invalid_wait = 0; slo_bootstrap = []; invalid_slo = 0 })
  collect wait slo (resampled ∷ resamples) = do
    w ← attempt (wait resampled)
    s ← attempt (slo resampled)
    rest ← collect wait slo resamples
    ok (record {
      wait_bootstrap = with_sample w rest.wait_bootstrap;
      invalid_wait = with_invalid w rest.invalid_wait;
      slo_bootstrap = with_sample s rest.slo_bootstrap;
      invalid_slo = with_invalid s rest.invalid_slo;
    })

  module _ (ceil : f.F → ℤ) (fmean : List f.F → f.F) where
    -- `retention`, of waits or of SLO attainments.
    unfoldable pub retention : Bool → SeedValues → SeedValues → SeedValues → List ℤ → Result f.F
    retention slo no_clip fixed adaptive resampled = do
      numerator ←
          mean_over ceil fmean
            (if slo
              then difference_at ceil fmean adaptive no_clip
              else difference_at ceil fmean no_clip adaptive)
            resampled
      denominator ←
          mean_over ceil fmean
            (if slo
              then difference_at ceil fmean fixed no_clip
              else difference_at ceil fmean no_clip fixed)
            resampled
      raise_if (denominator ≼ zero_f) (zero_division_error "")
      ok (numerator ⊘ denominator)

    abbrev pub bounds_of : List f.F → Result (Option (f.F × f.F))
    bounds_of values = if is_nil values then ok none else (do
      low ← percentile ceil values (low_tail ceil)
      high ← percentile ceil values (high_tail ceil)
      ok (some (low, high)))

    abbrev pub threshold : f.F
    threshold = f.of_decimal (pos 75) 2

    unfoldable pub check_benefit_retention :
        SeedValues
        → SeedValues
        → SeedValues
        → SeedValues
        → SeedValues
        → SeedValues
        → Result RetentionReport
    unfolding aligned_seeds product retention collect percentile
    check_benefit_retention no_clip_wait fixed_wait adaptive_wait no_clip_slo fixed_slo
          adaptive_slo =
        do
          seeds ← aligned_seeds (
              no_clip_wait ∷ fixed_wait ∷ adaptive_wait ∷ no_clip_slo ∷ fixed_slo ∷ adaptive_slo
              ∷ [])
          wait_denominator ←
              mean_over ceil fmean (difference_at ceil fmean no_clip_wait fixed_wait) seeds
          slo_denominator ←
              mean_over ceil fmean (difference_at ceil fmean fixed_slo no_clip_slo) seeds
          raise_if (wait_denominator ≼ zero_f || slo_denominator ≼ zero_f)
              (pre_registration_failure "benefit retention is uninterpretable")
          wait_point ← retention false no_clip_wait fixed_wait adaptive_wait seeds
          slo_point ← retention true no_clip_slo fixed_slo adaptive_slo seeds
          raise_if (wait_point ≺ threshold || slo_point ≺ threshold) (
              pre_registration_failure
                "adaptive benefit retention is below the frozen 0.75 threshold")
          samples ←
              collect (retention false no_clip_wait fixed_wait adaptive_wait)
                (retention true no_clip_slo fixed_slo adaptive_slo) (product (length seeds) seeds)
          wait_bounds ← bounds_of samples.wait_bootstrap
          slo_bounds ← bounds_of samples.slo_bootstrap
          ok (record {
            wait_retention = wait_point;
            slo_retention = slo_point;
            wait_bootstrap_95 = wait_bounds;
            slo_bootstrap_95 = slo_bounds;
            uninterpretable_wait = samples.invalid_wait;
            uninterpretable_slo = samples.invalid_slo;
          })

  with_sample-with_invalid :
      (o : Option f.F) (xs : List f.F) (n k : ℕ)
      → length xs + n ≡ k
      → length (with_sample o xs) + with_invalid o n ≡ suc k
  with_sample-with_invalid none xs n k h = omega arith
  with_sample-with_invalid (some x) xs n k h = omega arith

  -- No resample is dropped: each gives a sample of either bootstrap or is counted as uninterpretable.
  pub collect_counts :
      (wait slo : List ℤ → Result f.F) (resamples : List (List ℤ)) (samples : Samples)
      → collect wait slo resamples ≡ ok samples
      → (length samples.wait_bootstrap + samples.invalid_wait ≡ length resamples)
        × (length samples.slo_bootstrap + samples.invalid_slo ≡ length resamples)
  unfolding collect
  collect_counts wait slo [] samples h = (
    ap (λ s. length s.wait_bootstrap + s.invalid_wait) (sym (ok_inj h)),
    ap (λ s. length s.slo_bootstrap + s.invalid_slo) (sym (ok_inj h)),
  )
  collect_counts wait slo (resampled ∷ resamples) samples h =
      let (w, _, h) = >>=-eq-ok (attempt (wait resampled)) _ h in
      let (s, _, h) = >>=-eq-ok (attempt (slo resampled)) _ h in
      let (rest, collected, h) = >>=-eq-ok (collect wait slo resamples) _ h in
      let (waits, slos) = collect_counts wait slo resamples rest collected in
      let same = ok_inj h in
      (
        ap (λ s. length s.wait_bootstrap + s.invalid_wait) (sym same)
            ∙ with_sample-with_invalid w rest.wait_bootstrap rest.invalid_wait _ waits,
        ap (λ s. length s.slo_bootstrap + s.invalid_slo) (sym same)
            ∙ with_sample-with_invalid s rest.slo_bootstrap rest.invalid_slo _ slos,
      )
