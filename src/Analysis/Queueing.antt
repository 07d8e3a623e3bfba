-- ===== src/Analysis/Queueing.antt =====
-- src/sloserve/analysis/queueing.py: the least-squares fit of service times, and the mean wait of an
-- M/G/1 queue. `statistics.fmean` is a parameter.
pub mod Estimate
use sloserve.Prelude.{
  ℕ, ℤ, pos, ltb, ltb_ℤ, Bool, true, false, not, ◌&&◌, ◌||◌, Option, none, some, List, [], ◌∷◌, map,
  any, length, Result, ok, err, raise_if, value_error, ◌>>◌, ◌>>=◌, if◌then◌else◌,
}
use sloserve.Float.{Float, ◌≺◌, ◌≼◌, ◌⊕◌, ◌⊖◌, ◌⊗◌, ◌⊘◌, eq, zero_f, one_f, float}
use sloserve.Metrics.Records.{RequestRecord, is_success}

module _ ⦃f : Float⦄ where
  pub record LinearServiceFit : Type 0 where
    pub seconds_per_output_token : f.F
    pub intercept_s : f.F
    pub r_squared : f.F
    pub sample_count : ℤ

  pub record Mg1Estimate : Type 0 where
    pub arrival_rate_rps : f.F
    pub concurrency : ℤ
    pub mean_service_s : f.F
    pub second_moment_service_s2 : f.F
    pub utilization : f.F
    pub mean_queue_wait_s : Option f.F

  -- `Mg1Estimate.stable`
  unfoldable pub stable : Mg1Estimate → Bool
  stable e = e.utilization ≺ one_f

  -- The list comprehension over the successful dispatches.
  abbrev pub sample : RequestRecord → Option f.F → List (f.F × f.F) → List (f.F × f.F)
  sample r none rest = rest
  sample r (some dispatch) rest =
      if is_success r.status && ltb_ℤ (pos 0) r.output_tokens
      then (float r.output_tokens, r.completion_time_s ⊖ dispatch) ∷ rest
      else rest

  unfoldable pub samples_of : List RequestRecord → List (f.F × f.F)
  samples_of [] = []
  samples_of (r ∷ rs) = sample r r.dispatch_time_s (samples_of rs)

  -- `len(set(values)) < 2`
  abbrev pub all_equal : List f.F → Bool
  all_equal [] = true
  all_equal (x ∷ xs) = not (any (λ y. not (eq x y)) xs)

  -- The built-in `sum`, from the left.
  abbrev pub total : List f.F → f.F
  total xs = total_from zero_f xs
    where
      total_from : f.F → List f.F → f.F
      total_from acc [] = acc
      total_from acc (x ∷ xs) = total_from (acc ⊕ x) xs

  module _ (fmean : List f.F → f.F) where
    unfoldable pub fit_linear_service_time : List RequestRecord → Result LinearServiceFit
    unfolding samples_of
    fit_linear_service_time records = do
      let samples = samples_of records
      raise_if (ltb (length samples) 2)
          (value_error "service-time fitting requires at least two successful samples")
      let token_counts = map (λ s. s.0) samples
      raise_if (all_equal token_counts)
          (value_error "service-time fitting requires at least two distinct output lengths")
      let service_times = map (λ s. s.1) samples
      let token_mean = fmean token_counts
      let service_mean = fmean service_times
      let squares = total (map (λ t. (t ⊖ token_mean) ⊗ (t ⊖ token_mean)) token_counts)
      let slope = total (map (λ s. (s.0 ⊖ token_mean) ⊗ (s.1 ⊖ service_mean)) samples) ⊘ squares
      let intercept = service_mean ⊖ slope ⊗ token_mean
      let residual =
          total (
            map (λ s. (s.1 ⊖ (slope ⊗ s.0 ⊕ intercept)) ⊗ (s.1 ⊖ (slope ⊗ s.0 ⊕ intercept)))
              samples)
      let spread = total (map (λ t. (t ⊖ service_mean) ⊗ (t ⊖ service_mean)) service_times)
      ok (record {
        seconds_per_output_token = slope;
        intercept_s = intercept;
        r_squared = if zero_f ≺ spread then one_f ⊖ residual ⊘ spread else one_f;
        sample_count = pos (length samples);
      })

    abbrev pub no_lengths : List ℤ → Bool
    no_lengths [] = true
    no_lengths _ = false

    unfoldable pub service_times_of : LinearServiceFit → ℤ → List ℤ → List f.F
    service_times_of fit concurrency lengths =
        map (λ n. (fit.seconds_per_output_token ⊗ float n ⊕ fit.intercept_s) ⊘ float concurrency)
          lengths

    unfoldable pub estimate_mg1_wait : List ℤ → f.F → LinearServiceFit → ℤ → Result Mg1Estimate
    unfolding service_times_of
    estimate_mg1_wait output_lengths arrival_rate_rps service_fit concurrency = do
      raise_if (no_lengths output_lengths)
          (value_error "M/G/1 estimation requires at least one output length")
      raise_if (arrival_rate_rps ≼ zero_f || not (f.is_finite arrival_rate_rps))
          (value_error "arrival_rate_rps must be finite and positive")
      raise_if (ltb_ℤ concurrency (pos 1)) (value_error "concurrency must be at least one")
      raise_if (any (λ n. ltb_ℤ n (pos 1)) output_lengths)
          (value_error "output lengths must be positive")
      let service_times = service_times_of service_fit concurrency output_lengths
      raise_if (any (λ t. t ≼ zero_f || not (f.is_finite t)) service_times)
          (value_error "fitted service times must be finite and positive")
      let mean_service = fmean service_times
      let second_moment = fmean (map (λ t. t ⊗ t) service_times)
      let utilization = arrival_rate_rps ⊗ mean_service
      ok (record {
        arrival_rate_rps = arrival_rate_rps;
        concurrency = concurrency;
        mean_service_s = mean_service;
        second_moment_service_s2 = second_moment;
        utilization = utilization;
        mean_queue_wait_s =
            if utilization ≺ one_f
            then some (arrival_rate_rps ⊗ second_moment ⊘ (float (pos 2) ⊗ (one_f ⊖ utilization)))
            else none;
      })
