-- ===== src/Config/Admission.antt =====
-- `AdmissionControlConfig` of config.py: fixed clipping, and the four-level adaptive controller.
pub mod Contract
use sloserve.Prelude.{
  ℕ, ℤ, pos, Bool, true, false, not, ◌&&◌, ◌||◌, String, Option, none, some, List, [], ◌∷◌, length,
  any, ◌==◌, ltb_ℤ, leb_ℤ, Result, ok, raise_if, value_error, ◌>>◌, if◌then◌else◌,
}
use sloserve.Float.{Float, ◌≺◌, ◌≼◌, zero_f}
use sloserve.Config.Base.{
  ClipSource, learned_length, AdaptiveClipSignal, rho_hat, field_ge, field_positive, field_nonneg,
  field_finite,
}

module _ ⦃f : Float⦄ where
  pub record AdmissionControlConfig : Type 0 where
    pub clip_enabled : Bool
    pub clip_max_tokens : ℤ
    pub clip_source : ClipSource
    pub clip_estimator_path : Option String
    pub adaptive_clip_enabled : Bool
    pub adaptive_clip_signal : AdaptiveClipSignal
    pub adaptive_clip_caps : List ℤ
    pub adaptive_clip_tighten_thresholds : List f.F
    pub adaptive_clip_relax_thresholds : List f.F
    pub adaptive_clip_ewma_tau_s : f.F
    pub adaptive_clip_tighten_hold_s : f.F
    pub adaptive_clip_relax_hold_s : f.F
    pub adaptive_clip_capacity_rps : Option f.F

abbrev pub is_none {ℓ} : {A : Type ℓ} → Option A → Bool
is_none none = true
is_none (some a) = false

abbrev pub is_learned : ClipSource → Bool
is_learned learned_length = true
is_learned _ = false

abbrev pub is_rho_hat : AdaptiveClipSignal → Bool
is_rho_hat rho_hat = true
is_rho_hat _ = false

-- `itertools.pairwise` and the built-in `zip`.
module _ {ℓ κ} {A : Type ℓ} {B : Type κ} where
  abbrev pub any_zip : (A → B → Bool) → List A → List B → Bool
  any_zip p [] ys = false
  any_zip p (x ∷ xs) [] = false
  any_zip p (x ∷ xs) (y ∷ ys) = p x y || any_zip p xs ys

abbrev pub any_pairwise {ℓ} : {A : Type ℓ} → (A → A → Bool) → List A → Bool
any_pairwise p [] = false
any_pairwise p (x ∷ []) = false
any_pairwise p (x ∷ y ∷ rest) = p x y || any_pairwise p (y ∷ rest)

-- `min(caps)` of a list that starts with `n`.
abbrev pub minimum : ℤ → List ℤ → ℤ
minimum n [] = n
minimum n (m ∷ ms) = minimum (if ltb_ℤ m n then m else n) ms

-- `min(caps) < 512`
abbrev pub smallest_below : ℤ → List ℤ → Bool
smallest_below bound [] = false
smallest_below bound (n ∷ ns) = ltb_ℤ (minimum n ns) bound

module _ ⦃f : Float⦄ where
  -- A threshold that is infinite or negative.
  abbrev pub is_bad_threshold : f.F → Bool
  is_bad_threshold x = not (f.is_finite x) || x ≺ zero_f

  unfoldable pub learned_clip_source_has_estimator : AdmissionControlConfig → Result (Unit {0})
  learned_clip_source_has_estimator c =
      raise_if (c.clip_enabled && is_learned c.clip_source && is_none c.clip_estimator_path)
        (value_error "learned clip source requires clip_estimator_path")

  -- The statements of `validate_adaptive_clip_contract` about the caps.
  unfoldable pub validate_caps : List ℤ → Result (Unit {0})
  validate_caps caps = do
    raise_if (not (length caps == 3))
        (value_error "adaptive_clip_caps must contain exactly 3 values for L1-L3")
    raise_if (any (λ cap. leb_ℤ cap (pos 0)) caps)
        (value_error "adaptive_clip_caps must contain only positive values")
    raise_if (any_pairwise (λ left right. leb_ℤ left right) caps)
        (value_error "adaptive_clip_caps must be strictly decreasing")
    raise_if (smallest_below (pos 512) caps)
        (value_error "minimum adaptive clip cap must be at least 512 tokens")

  -- Those about one of the two lists of thresholds, which differ only in the name in the messages.
  unfoldable pub validate_thresholds : String → String → String → List f.F → Result (Unit {0})
  validate_thresholds size finite increasing thresholds = do
    raise_if (not (length thresholds == 3)) (value_error size)
    raise_if (any is_bad_threshold thresholds) (value_error finite)
    raise_if (any_pairwise (λ left right. right ≼ left) thresholds) (value_error increasing)

  -- The last three: those that relate the fields to one another.
  unfoldable pub validate_levels : AdmissionControlConfig → Result (Unit {0})
  validate_levels c = do
    raise_if
        (any_zip (λ relax tighten. tighten ≼ relax) c.adaptive_clip_relax_thresholds
          c.adaptive_clip_tighten_thresholds)
        (value_error "each adaptive clip relax threshold must be below its tighten threshold")
    raise_if (c.adaptive_clip_enabled && not c.clip_enabled)
        (value_error "adaptive clipping requires clip_enabled=true")
    raise_if
        (c.adaptive_clip_enabled
          && is_rho_hat c.adaptive_clip_signal
          && is_none c.adaptive_clip_capacity_rps)
        (value_error "rho_hat adaptive clipping requires adaptive_clip_capacity_rps")

  unfoldable pub validate_adaptive_clip_contract : AdmissionControlConfig → Result (Unit {0})
  validate_adaptive_clip_contract c = do
    validate_caps c.adaptive_clip_caps
    validate_thresholds "adaptive_clip_tighten_thresholds must contain exactly 3 values for L1-L3"
        "adaptive_clip_tighten_thresholds must contain finite non-negative values"
        "adaptive_clip_tighten_thresholds must be strictly increasing"
        c.adaptive_clip_tighten_thresholds
    validate_thresholds "adaptive_clip_relax_thresholds must contain exactly 3 values for L1-L3"
        "adaptive_clip_relax_thresholds must contain finite non-negative values"
        "adaptive_clip_relax_thresholds must be strictly increasing"
        c.adaptive_clip_relax_thresholds
    validate_levels c

  abbrev pub check_capacity : Option f.F → Result (Unit {0})
  check_capacity none = ok tt
  check_capacity (some rps) = do
    field_positive "adaptive_clip_capacity_rps" rps
    field_finite "adaptive_clip_capacity_rps" rps

  -- `AdmissionControlConfig.model_validate`
  unfoldable pub validate : AdmissionControlConfig → Result (Unit {0})
  validate c = do
    field_ge "clip_max_tokens" (pos 1) c.clip_max_tokens
    field_positive "adaptive_clip_ewma_tau_s" c.adaptive_clip_ewma_tau_s
    field_finite "adaptive_clip_ewma_tau_s" c.adaptive_clip_ewma_tau_s
    field_nonneg "adaptive_clip_tighten_hold_s" c.adaptive_clip_tighten_hold_s
    field_finite "adaptive_clip_tighten_hold_s" c.adaptive_clip_tighten_hold_s
    field_nonneg "adaptive_clip_relax_hold_s" c.adaptive_clip_relax_hold_s
    field_finite "adaptive_clip_relax_hold_s" c.adaptive_clip_relax_hold_s
    check_capacity c.adaptive_clip_capacity_rps
    learned_clip_source_has_estimator c
    validate_adaptive_clip_contract c
