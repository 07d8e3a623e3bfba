-- ===== src/Router/Clipping.antt =====
-- src/sloserve/router/clipping.py: the cap on the backend's output tokens, fixed before the queue or
-- chosen at dispatch.
pub mod Caps
use sloserve.Prelude.{
  ℤ, pos, ltb_ℤ, leb_ℤ, Bool, true, false, not, ◌&&◌, ◌||◌, String, Option, none, some, Result, ok,
  err, raise_if, value_error, runtime_error, ◌>>=◌, ◌>>◌, if◌then◌else◌,
}
use sloserve.Float.{Float, ◌≼◌, float}
use sloserve.Config.{ClipSource, advertised_cap, learned_length}
use sloserve.Config.Admission.{AdmissionControlConfig, is_learned}
use sloserve.Workload.LengthPredictor.{LengthPredictor, predict}
use sloserve.Router.Models.{RequestEnvelope, or_else, construct}

module _ ⦃f : Float⦄ where
  pub record OutputClipper : Type 0 where
    pub config : AdmissionControlConfig
    pub predictor : Option LengthPredictor

  load_from : (String → Result LengthPredictor) → Option String → Result (Option LengthPredictor)
  load_from load none = err (value_error "learned clip source requires clip_estimator_path")
  load_from load (some path) = do p ← load path; ok (some p)

  -- `__init__`
  unfoldable pub build_clipper :
      (String → Result LengthPredictor) → AdmissionControlConfig → Result OutputClipper
  unfolding load_from
  build_clipper load c = do
    p ←
        if c.clip_enabled && is_learned c.clip_source
        then load_from load c.clip_estimator_path
        else ok none
    ok (record { config = c; predictor = p })

  abbrev pub predict_with : Option LengthPredictor → RequestEnvelope → Result f.F
  predict_with none r = err (runtime_error "learned clip predictor was not loaded")
  predict_with (some p) r = ok (
      predict p r.request_class r.input_tokens r.prompt_kind
        (or_else r.advertised_cap_tokens r.max_output_tokens))

  abbrev pub estimate_from : ClipSource → Option LengthPredictor → RequestEnvelope → Result f.F
  estimate_from advertised_cap p r =
      ok (float (or_else r.advertised_cap_tokens r.max_output_tokens))
  estimate_from learned_length p r = predict_with p r

  -- `_estimated_output_tokens`
  unfoldable pub estimated_output_tokens : OutputClipper → RequestEnvelope → Result f.F
  estimated_output_tokens c r = estimate_from c.config.clip_source c.predictor r

  unfoldable pub apply : OutputClipper → RequestEnvelope → Result RequestEnvelope
  apply c r = if not c.config.clip_enabled then ok r else do
    estimate ← estimated_output_tokens c r
    let cap = c.config.clip_max_tokens
    if estimate ≼ float cap || leb_ℤ r.max_output_tokens cap
        then ok r
        else construct (record r { backend_max_output_tokens = some cap })

  abbrev apply_cap : OutputClipper → RequestEnvelope → Option ℤ → Result RequestEnvelope
  apply_cap c r none = ok r
  apply_cap c r (some cap) = do
    raise_if (ltb_ℤ cap (pos 1)) (value_error "adaptive cap must be positive")
    estimate ← estimated_output_tokens c r
    if estimate ≼ float cap || leb_ℤ r.max_output_tokens cap
        then ok r
        else construct (record r { backend_max_output_tokens = some cap })

  unfoldable pub apply_adaptive_cap :
      OutputClipper → RequestEnvelope → Option ℤ → Result RequestEnvelope
  apply_adaptive_cap c r cap_tokens = do
    raise_if (not c.config.adaptive_clip_enabled)
        (value_error "adaptive cap application requires adaptive_clip_enabled=true")
    apply_cap c r cap_tokens
