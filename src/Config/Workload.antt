-- ===== src/Config/Workload.antt =====
-- The workload section of config.py.
use text.Mathlib.Text.{◌==◌ as str_eq}
use sloserve.Prelude.{
  ℤ, pos, ltb_ℤ, Bool, true, false, not, ◌&&◌, ◌==◌, String, Option, none, some, List, [], ◌∷◌, any,
  length, Result, ok, raise_if, value_error, ◌>>◌,
}
use sloserve.Float.{Float, ◌≺◌, ◌⊕◌, zero_f, one_f}
use sloserve.Config.Base.{ArrivalProcess, LengthModel, realistic, field_ge, field_positive}
use sloserve.Config.Admission.{is_none}

pub record TokenRangeConfig : Type 0 where
  pub minimum : ℤ
  pub maximum : ℤ

-- The constraints of the fields, and `maximum_is_not_below_minimum`.
unfoldable pub validate_range : TokenRangeConfig → Result (Unit {0})
validate_range c = do
  field_ge "minimum" (pos 1) c.minimum
  field_ge "maximum" (pos 1) c.maximum
  raise_if (ltb_ℤ c.maximum c.minimum)
      (value_error "maximum token count must be greater than or equal to minimum")

abbrev pub is_realistic : LengthModel → Bool
is_realistic realistic = true
is_realistic _ = false

module _ ⦃f : Float⦄ where
  pub record RequestProfileConfig : Type 0 where
    pub input_tokens : TokenRangeConfig
    pub output_tokens : TokenRangeConfig
    pub ttft_slo_ms : f.F
    pub end_to_end_slo_ms : f.F

  unfoldable pub validate_profile : RequestProfileConfig → Result (Unit {0})
  unfolding validate_range
  validate_profile c = do
    validate_range c.input_tokens
    validate_range c.output_tokens
    field_positive "ttft_slo_ms" c.ttft_slo_ms
    field_positive "end_to_end_slo_ms" c.end_to_end_slo_ms

  pub record RealisticLengthConfig : Type 0 where
    pub kinds : List String
    pub kind_fractions : List f.F
    pub log_mu_by_kind : List f.F
    pub log_sigma : f.F
    pub advertised_cap_tokens : ℤ
    pub clamp_min : ℤ
    pub clamp_max : ℤ
    pub force_exact_output_tokens : Bool

  -- The built-in `sum`, from the left.
  abbrev pub sum_from : f.F → List f.F → f.F
  sum_from acc [] = acc
  sum_from acc (x ∷ xs) = sum_from (acc ⊕ x) xs

  pub record WorkloadConfig : Type 0 where
    pub arrival_process : ArrivalProcess
    pub request_rate_rps : f.F
    pub total_requests : ℤ
    pub interactive_fraction : f.F
    pub random_seed : ℤ
    pub warmup_requests : ℤ
    pub repetitions : ℤ
    pub interactive : RequestProfileConfig
    pub batch : RequestProfileConfig
    pub length_model : LengthModel
    pub realistic_length : Option RealisticLengthConfig

  -- `isclose a b` is `math.isclose(a, b, rel_tol=0.0, abs_tol=1e-6)`.
  module _ (isclose : f.F → f.F → Bool) where
    unfoldable pub validate_mixture : RealisticLengthConfig → Result (Unit {0})
    validate_mixture c = do
      raise_if
          (not (
            length c.kind_fractions == length c.kinds && length c.kinds == length c.log_mu_by_kind))
          (value_error "kinds, kind_fractions, and log_mu_by_kind must have equal lengths")
      raise_if (any (λ kind. str_eq kind "") c.kinds)
          (value_error "realistic length kinds must not be empty")
      raise_if (any (λ fraction. fraction ≺ zero_f) c.kind_fractions)
          (value_error "realistic length kind fractions must be non-negative")
      raise_if (not (isclose (sum_from zero_f c.kind_fractions) one_f))
          (value_error "realistic length kind fractions must sum to 1.0")
      raise_if (ltb_ℤ c.clamp_max c.clamp_min)
          (value_error "realistic length clamp_min must not exceed clamp_max")

    -- The constraints of the fields, and then the mixture.
    unfoldable pub validate_realistic : Option RealisticLengthConfig → Result (Unit {0})
    unfolding validate_mixture
    validate_realistic none = ok tt
    validate_realistic (some c) = do
      field_positive "log_sigma" c.log_sigma
      field_ge "advertised_cap_tokens" (pos 1) c.advertised_cap_tokens
      field_ge "clamp_min" (pos 1) c.clamp_min
      field_ge "clamp_max" (pos 1) c.clamp_max
      validate_mixture c

    -- The constraints of the fields, and `realistic_model_has_configuration`.
    unfoldable pub validate_workload : WorkloadConfig → Result (Unit {0})
    unfolding validate_profile validate_realistic
    validate_workload c = do
      field_positive "request_rate_rps" c.request_rate_rps
      field_ge "total_requests" (pos 1) c.total_requests
      raise_if (c.interactive_fraction ≺ zero_f) (value_error "interactive_fraction")
      raise_if (one_f ≺ c.interactive_fraction) (value_error "interactive_fraction")
      field_ge "random_seed" (pos 0) c.random_seed
      field_ge "warmup_requests" (pos 0) c.warmup_requests
      field_ge "repetitions" (pos 1) c.repetitions
      validate_profile c.interactive
      validate_profile c.batch
      validate_realistic c.realistic_length
      raise_if (is_realistic c.length_model && is_none c.realistic_length)
          (value_error "realistic length model requires realistic_length")
