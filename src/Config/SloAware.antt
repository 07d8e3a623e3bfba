-- ===== src/Config/SloAware.antt =====
-- `SloAwareConfig` of config.py.
use sloserve.Prelude.{
  ℤ, pos, Bool, true, false, ◌&&◌, String, Option, Result, raise_if, value_error, ◌>>◌,
}
use sloserve.Float.{Float, ◌≺◌, ◌⊕◌, eq, zero_f}
use sloserve.Config.Base.{LengthSource, learned, field_ge, field_positive, field_nonneg}
use sloserve.Config.Admission.{is_none}

abbrev pub is_learned_source : LengthSource → Bool
is_learned_source learned = true
is_learned_source _ = false

module _ ⦃f : Float⦄ where
  pub record SloAwareConfig : Type 0 where
    pub input_token_seconds : f.F
    pub output_token_seconds : f.F
    pub cost_weight : f.F
    pub slack_weight : f.F
    pub waiting_weight : f.F
    pub aging_threshold_s : f.F
    pub disable_length_estimate : Bool
    pub aging_levels : ℤ
    pub adaptive_ceiling : Bool
    pub ceiling_margin : f.F
    pub ceiling_floor_s : f.F
    pub ceiling_cap_s : f.F
    pub length_source : LengthSource
    pub length_estimator_path : Option String

  -- The constraints of the fields, and then the three model validators.
  unfoldable pub validate : SloAwareConfig → Result (Unit {0})
  validate c = do
    field_nonneg "input_token_seconds" c.input_token_seconds
    field_nonneg "output_token_seconds" c.output_token_seconds
    field_nonneg "cost_weight" c.cost_weight
    field_nonneg "slack_weight" c.slack_weight
    field_nonneg "waiting_weight" c.waiting_weight
    field_positive "aging_threshold_s" c.aging_threshold_s
    field_ge "aging_levels" (pos 1) c.aging_levels
    field_positive "ceiling_margin" c.ceiling_margin
    field_positive "ceiling_floor_s" c.ceiling_floor_s
    field_positive "ceiling_cap_s" c.ceiling_cap_s
    raise_if (eq (c.cost_weight ⊕ c.slack_weight ⊕ c.waiting_weight) zero_f)
        (value_error "at least one SLO-aware scoring weight must be positive")
    raise_if (c.ceiling_cap_s ≺ c.ceiling_floor_s)
        (value_error "ceiling floor must not exceed ceiling cap")
    raise_if (is_learned_source c.length_source && is_none c.length_estimator_path)
        (value_error "learned length source requires length_estimator_path")
