-- ===== src/Router/Models.antt =====
-- src/sloserve/router/models.py: the request envelope that every policy reads. Python's integers are
-- ℤ, so that the checks of the constructor are the source's.
pub mod Validity
use text.Mathlib.Text.{◌==◌ as str_eq}
use sloserve.Prelude.{
  ℤ, pos, ltb_ℤ, eq_ℤ, Bool, false, String, Option, none, some, Result, ok, raise_if, value_error,
  ◌>>◌, if◌then◌else◌,
}
use sloserve.Float.{Float, ◌≺◌, float}

pub data RequestClass : Type 0 where
  interactive batch : RequestClass

-- `value or other`, where `None` and 0 are false.
abbrev pub or_else : Option ℤ → ℤ → ℤ
or_else none other = other
or_else (some n) other = if eq_ℤ n (pos 0) then other else n

-- `value is not None and value < 1`
abbrev pub below_one : Option ℤ → Bool
below_one none = false
below_one (some n) = ltb_ℤ n (pos 1)

module _ ⦃f : Float⦄ where
  pub record RequestEnvelope : Type 0 where
    pub request_id : String
    pub sequence_id : ℤ
    pub request_class : RequestClass
    pub arrival_time_s : f.F
    pub input_tokens : ℤ
    pub max_output_tokens : ℤ
    pub deadline_time_s : f.F
    pub advertised_cap_tokens : Option ℤ
    pub prompt_kind : Option String
    pub backend_max_output_tokens : Option ℤ
    pub force_exact_output_tokens : Bool

  abbrev check_backend_cap : RequestEnvelope → Option ℤ → Result (Unit {0})
  check_backend_cap r none = ok tt
  check_backend_cap r (some cap) = do
    raise_if (ltb_ℤ cap (pos 1)) (value_error "backend_max_output_tokens must be positive")
    raise_if (ltb_ℤ r.max_output_tokens cap)
        (value_error "backend_max_output_tokens must not exceed the requested target")

  -- `__post_init__`
  unfoldable pub post_init : RequestEnvelope → Result (Unit {0})
  post_init r = do
    raise_if (str_eq r.request_id "") (value_error "request_id must not be empty")
    raise_if (ltb_ℤ r.sequence_id (pos 0)) (value_error "sequence_id must be non-negative")
    raise_if (r.arrival_time_s ≺ float (pos 0)) (value_error "arrival_time_s must be non-negative")
    raise_if (ltb_ℤ r.input_tokens (pos 1)) (value_error "input_tokens must be positive")
    raise_if (ltb_ℤ r.max_output_tokens (pos 1)) (value_error "max_output_tokens must be positive")
    raise_if (r.deadline_time_s ≺ r.arrival_time_s)
        (value_error "deadline_time_s must not precede arrival_time_s")
    raise_if (below_one r.advertised_cap_tokens)
        (value_error "advertised_cap_tokens must be positive")
    check_backend_cap r r.backend_max_output_tokens

  -- A call of the constructor, also the one that `dataclasses.replace` makes.
  unfoldable pub construct : RequestEnvelope → Result RequestEnvelope
  construct r = post_init r >> ok r

  unfoldable pub effective_max_output_tokens : RequestEnvelope → ℤ
  effective_max_output_tokens r = or_else r.backend_max_output_tokens r.max_output_tokens

  unfoldable pub clip_applied : RequestEnvelope → Bool
  unfolding effective_max_output_tokens
  clip_applied r = ltb_ℤ (effective_max_output_tokens r) r.max_output_tokens

-- The value of the enumeration's member.
abbrev pub value : RequestClass → String
value interactive = "interactive"
value batch = "batch"
