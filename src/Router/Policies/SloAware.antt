-- ===== src/Router/Policies/SloAware.antt =====
-- src/sloserve/router/policies/slo_aware.py: the policy's fields, its estimate of the output length
-- and its key.
use sloserve.Prelude.{
  ℤ, pos, ltb_ℤ, eq_ℤ, ◌-ℤ◌, Bool, List, Option, none, some, Result, ok, err, value_error,
  runtime_error, ◌>>=◌, ◌>>◌, raise_if, if◌then◌else◌, String,
}
use sloserve.Prelude.Sorting.{lex}
use sloserve.Float.{Float, ◌⊖◌, min_f, max_f, ◌⊗◌, ◌⊕◌, ◌⊘◌, ◌≼◌, zero_f, float}
use sloserve.Statistics.{median}
use sloserve.Config.{LengthSource, true_length, advertised, learned}
use sloserve.Config.SloAware.{SloAwareConfig}
use sloserve.Workload.LengthPredictor.{LengthPredictor, predict}
use sloserve.Router.Models.{RequestEnvelope, or_else, clip_applied, effective_max_output_tokens}

module _ ⦃f : Float⦄ where
  pub record SloAwarePolicy : Type 0 where
    pub input_token_seconds : f.F
    pub output_token_seconds : f.F
    pub cost_weight : f.F
    pub slack_weight : f.F
    pub waiting_weight : f.F
    pub aging_threshold_s : f.F
    pub disable_length_estimate : Bool
    pub aging_levels : ℤ
    pub adaptive_ceiling : Bool
    pub ceiling_margin : f.F
    pub ceiling_floor_s : f.F
    pub ceiling_cap_s : f.F
    pub length_source : LengthSource
    pub length_predictor : Option LengthPredictor

  load_predictor :
      (String → Result LengthPredictor)
      → LengthSource
      → Option String
      → Result (Option LengthPredictor)
  load_predictor load learned none =
      err (value_error "learned length source requires length_estimator_path")
  load_predictor load learned (some path) = do p ← load path; ok (some p)
  load_predictor load _ path = ok none

  -- `__init__`
  unfoldable pub build_slo_aware :
      (String → Result LengthPredictor) → SloAwareConfig → Result SloAwarePolicy
  unfolding load_predictor
  build_slo_aware load c = do
    predictor ← load_predictor load c.length_source c.length_estimator_path
    ok (record {
      input_token_seconds = c.input_token_seconds;
      output_token_seconds = c.output_token_seconds;
      cost_weight = c.cost_weight;
      slack_weight = c.slack_weight;
      waiting_weight = c.waiting_weight;
      aging_threshold_s = c.aging_threshold_s;
      disable_length_estimate = c.disable_length_estimate;
      aging_levels = c.aging_levels;
      adaptive_ceiling = c.adaptive_ceiling;
      ceiling_margin = c.ceiling_margin;
      ceiling_floor_s = c.ceiling_floor_s;
      ceiling_cap_s = c.ceiling_cap_s;
      length_source = c.length_source;
      length_predictor = predictor;
    })

  abbrev pub predict_with : Option LengthPredictor → RequestEnvelope → Result f.F
  predict_with none r = err (runtime_error "learned length predictor was not loaded")
  predict_with (some p) r = ok (
      predict p r.request_class r.input_tokens r.prompt_kind
        (or_else r.advertised_cap_tokens r.max_output_tokens))

  -- The estimate that the configured source shows.
  abbrev pub visible_estimate : LengthSource → Option LengthPredictor → RequestEnvelope → Result f.F
  visible_estimate true_length p r = ok (float r.max_output_tokens)
  visible_estimate advertised p r = ok (float (or_else r.advertised_cap_tokens r.max_output_tokens))
  visible_estimate learned p r = predict_with p r

  -- `_estimated_output_tokens`: the estimate, bounded by the cap of a request that was clipped.
  unfoldable pub estimated_output_tokens : SloAwarePolicy → RequestEnvelope → Result f.F
  estimated_output_tokens p r = do
    estimate ← visible_estimate p.length_source p.length_predictor r
    ok (if clip_applied r then min_f estimate (float (effective_max_output_tokens r)) else estimate)

  -- A tuple of three floats, compared from the left.
  abbrev pub SloKey : Type 0
  SloKey = f.F × (f.F × f.F)

  abbrev pub slo_less : SloKey → SloKey → Bool
  slo_less = lex f.lt (lex f.lt f.lt)

  abbrev pub service_time : SloAwarePolicy → RequestEnvelope → Result f.F
  service_time p r = if p.disable_length_estimate then ok zero_f else do
    tokens ← estimated_output_tokens p r
    ok (p.input_token_seconds ⊗ float r.input_tokens ⊕ p.output_token_seconds ⊗ tokens)

  -- `budget`, where 1e-9 replaces a budget that is not positive.
  abbrev pub budget : RequestEnvelope → f.F
  budget r =
      let span = r.deadline_time_s ⊖ r.arrival_time_s in
      if span ≼ zero_f then f.of_decimal (pos 1) 9 else span

  unfoldable pub score : SloAwarePolicy → RequestEnvelope → f.F → f.F → f.F
  score p r now service =
      p.cost_weight ⊗ (service ⊘ budget r)
      ⊕ p.slack_weight ⊗ ((r.deadline_time_s ⊖ now ⊖ service) ⊘ budget r)
      ⊖ p.waiting_weight ⊗ ((now ⊖ r.arrival_time_s) ⊘ budget r)

  -- `min(int(waiting // step), self.aging_levels)`
  unfoldable pub age_tier : SloAwarePolicy → RequestEnvelope → f.F → f.F → Result ℤ
  age_tier p r now step = do
    tier ← f.floor_div (now ⊖ r.arrival_time_s) step
    ok (if ltb_ℤ p.aging_levels tier then p.aging_levels else tier)

  unfoldable pub key_of_tier : SloAwarePolicy → RequestEnvelope → ℤ → f.F → SloKey
  key_of_tier p r tier s =
      if eq_ℤ tier p.aging_levels
      then (zero_f, (r.arrival_time_s, float r.sequence_id))
      else (float (p.aging_levels -ℤ tier), (s, float r.sequence_id))

  -- `_key`
  unfoldable pub slo_key : SloAwarePolicy → RequestEnvelope → f.F → f.F → Result SloKey
  unfolding key_of_tier
  slo_key p r now threshold = do
    service ← service_time p r
    let step = threshold ⊘ float p.aging_levels
    raise_if (step ≼ zero_f) (value_error "aging tier step must be positive")
    tier ← age_tier p r now step
    ok (key_of_tier p r tier (score p r now service))

  -- `_effective_threshold`
  unfoldable pub effective_threshold : SloAwarePolicy → List f.F → Result f.F
  effective_threshold p waits = do
    congestion ← median waits
    ok (min_f p.ceiling_cap_s (max_f p.ceiling_floor_s (p.ceiling_margin ⊗ congestion)))
