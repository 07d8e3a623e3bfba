-- ===== src/Experiments/Sweep.antt =====
-- src/sloserve/experiments/sweep.py: the points of a sweep over a base configuration. Reading the
-- YAML file is not modelled, and the labels of files are not either.
pub mod Points
pub mod Merging
use text.Mathlib.Text.{◌==◌ as str_eq}
use sloserve.Prelude.{
  ℤ, pos, Bool, true, false, String, Option, none, some, List, [], ◌∷◌, Result, ok, raise_if,
  value_error, ◌>>◌, ◌>>=◌, if◌then◌else◌, ◌||◌,
}
use sloserve.Float.{Float, ◌≺◌, zero_f, one_f}
use sloserve.Config.{
  SchedulerPolicyName, LengthSource, ClipSource, AdaptiveClipSignal, RouterConfig, field_positive,
  field_ge, field_nonneg,
}
use sloserve.Config.Admission.{AdmissionControlConfig}
use sloserve.Config.SloAware.{SloAwareConfig}
use sloserve.Config.Workload.{WorkloadConfig}
use sloserve.Config.Experiment.{ExperimentConfig}
use sloserve.Config.Validation.{model_validate}

-- An override that is given replaces the value.
abbrev pub override {ℓ} : {A : Type ℓ} → Option A → A → A
override none a = a
override (some b) a = b

abbrev pub override_option {ℓ} : {A : Type ℓ} → Option A → Option A → Option A
override_option none a = a
override_option (some b) a = some b

module _ ⦃f : Float⦄ where
  pub record SweepPoint : Type 0 where
    pub label : String
    pub policy : Option SchedulerPolicyName
    pub request_rate_rps : Option f.F
    pub random_seed : Option ℤ
    pub interactive_fraction : Option f.F
    pub max_in_flight : Option ℤ
    pub aging_threshold_s : Option f.F
    pub cost_weight : Option f.F
    pub slack_weight : Option f.F
    pub waiting_weight : Option f.F
    pub disable_length_estimate : Option Bool
    pub length_source : Option LengthSource
    pub length_estimator_path : Option String
    pub clip_enabled : Option Bool
    pub clip_max_tokens : Option ℤ
    pub clip_source : Option ClipSource
    pub clip_estimator_path : Option String
    pub adaptive_clip_enabled : Option Bool
    pub adaptive_clip_signal : Option AdaptiveClipSignal
    pub adaptive_clip_caps : Option (List ℤ)
    pub adaptive_clip_tighten_thresholds : Option (List f.F)
    pub adaptive_clip_relax_thresholds : Option (List f.F)
    pub adaptive_clip_ewma_tau_s : Option f.F
    pub adaptive_clip_tighten_hold_s : Option f.F
    pub adaptive_clip_relax_hold_s : Option f.F
    pub adaptive_clip_capacity_rps : Option f.F
    pub aging_levels : Option ℤ
    pub adaptive_ceiling : Option Bool
    pub ceiling_margin : Option f.F
    pub ceiling_floor_s : Option f.F
    pub ceiling_cap_s : Option f.F

  -- The updates of the four sections.
  -- A field that is given keeps its constraint.
  abbrev pub optional {ℓ} : {A : Type ℓ} → (A → Result (Unit {0})) → Option A → Result (Unit {0})
  optional check none = ok tt
  optional check (some x) = check x

  -- The constraints of the fields.
  unfoldable pub validate_point : SweepPoint → Result (Unit {0})
  validate_point p = do
    raise_if (str_eq p.label "") (value_error "label")
    optional (field_positive "request_rate_rps") p.request_rate_rps
    optional (field_ge "random_seed" (pos 0)) p.random_seed
    optional (λ x. raise_if (x ≺ zero_f || one_f ≺ x) (value_error "interactive_fraction"))
        p.interactive_fraction
    optional (field_ge "max_in_flight" (pos 1)) p.max_in_flight
    optional (field_positive "aging_threshold_s") p.aging_threshold_s
    optional (field_nonneg "cost_weight") p.cost_weight
    optional (field_nonneg "slack_weight") p.slack_weight
    optional (field_nonneg "waiting_weight") p.waiting_weight
    optional (field_ge "clip_max_tokens" (pos 1)) p.clip_max_tokens
    optional (field_positive "adaptive_clip_ewma_tau_s") p.adaptive_clip_ewma_tau_s
    optional (field_nonneg "adaptive_clip_tighten_hold_s") p.adaptive_clip_tighten_hold_s
    optional (field_nonneg "adaptive_clip_relax_hold_s") p.adaptive_clip_relax_hold_s
    optional (field_positive "adaptive_clip_capacity_rps") p.adaptive_clip_capacity_rps
    optional (field_ge "aging_levels" (pos 1)) p.aging_levels
    optional (field_positive "ceiling_margin") p.ceiling_margin
    optional (field_positive "ceiling_floor_s") p.ceiling_floor_s
    optional (field_positive "ceiling_cap_s") p.ceiling_cap_s

  unfoldable pub router_for : SweepPoint → RouterConfig → RouterConfig
  router_for p c = record c {
    policy = override p.policy c.policy;
    max_in_flight = override p.max_in_flight c.max_in_flight;
  }

  unfoldable pub workload_for : SweepPoint → WorkloadConfig → WorkloadConfig
  workload_for p c = record c {
    request_rate_rps = override p.request_rate_rps c.request_rate_rps;
    random_seed = override p.random_seed c.random_seed;
    interactive_fraction = override p.interactive_fraction c.interactive_fraction;
  }

  unfoldable pub slo_aware_for : SweepPoint → SloAwareConfig → SloAwareConfig
  slo_aware_for p c = record c {
    aging_threshold_s = override p.aging_threshold_s c.aging_threshold_s;
    cost_weight = override p.cost_weight c.cost_weight;
    slack_weight = override p.slack_weight c.slack_weight;
    waiting_weight = override p.waiting_weight c.waiting_weight;
    disable_length_estimate = override p.disable_length_estimate c.disable_length_estimate;
    length_source = override p.length_source c.length_source;
    length_estimator_path = override_option p.length_estimator_path c.length_estimator_path;
    aging_levels = override p.aging_levels c.aging_levels;
    adaptive_ceiling = override p.adaptive_ceiling c.adaptive_ceiling;
    ceiling_margin = override p.ceiling_margin c.ceiling_margin;
    ceiling_floor_s = override p.ceiling_floor_s c.ceiling_floor_s;
    ceiling_cap_s = override p.ceiling_cap_s c.ceiling_cap_s;
  }

  unfoldable pub admission_for : SweepPoint → AdmissionControlConfig → AdmissionControlConfig
  admission_for p c = record c {
    clip_enabled = override p.clip_enabled c.clip_enabled;
    clip_max_tokens = override p.clip_max_tokens c.clip_max_tokens;
    clip_source = override p.clip_source c.clip_source;
    clip_estimator_path = override_option p.clip_estimator_path c.clip_estimator_path;
    adaptive_clip_enabled = override p.adaptive_clip_enabled c.adaptive_clip_enabled;
    adaptive_clip_signal = override p.adaptive_clip_signal c.adaptive_clip_signal;
    adaptive_clip_caps = override p.adaptive_clip_caps c.adaptive_clip_caps;
    adaptive_clip_tighten_thresholds =
        override p.adaptive_clip_tighten_thresholds c.adaptive_clip_tighten_thresholds;
    adaptive_clip_relax_thresholds =
        override p.adaptive_clip_relax_thresholds c.adaptive_clip_relax_thresholds;
    adaptive_clip_ewma_tau_s = override p.adaptive_clip_ewma_tau_s c.adaptive_clip_ewma_tau_s;
    adaptive_clip_tighten_hold_s =
        override p.adaptive_clip_tighten_hold_s c.adaptive_clip_tighten_hold_s;
    adaptive_clip_relax_hold_s = override p.adaptive_clip_relax_hold_s c.adaptive_clip_relax_hold_s;
    adaptive_clip_capacity_rps =
        override_option p.adaptive_clip_capacity_rps c.adaptive_clip_capacity_rps;
  }

  abbrev pub updated : SweepPoint → ExperimentConfig → ExperimentConfig
  updated p c = record c {
    router = router_for p c.router;
    workload = workload_for p c.workload;
    slo_aware = slo_aware_for p c.slo_aware;
    admission = admission_for p c.admission;
  }

  module _ (is_revision : String → Bool) (isclose : f.F → f.F → Bool)
      (urlsplit : String → Option String × Option ℤ) where
    unfoldable pub config_for_point : ExperimentConfig → SweepPoint → Result ExperimentConfig
    unfolding router_for workload_for slo_aware_for admission_for
    config_for_point base p = model_validate is_revision isclose urlsplit (updated p base)

    abbrev no_points : List SweepPoint → Bool
    no_points [] = true
    no_points (p ∷ ps) = false

    unfoldable pub configs_of : ExperimentConfig → List SweepPoint → Result (List ExperimentConfig)
    unfolding config_for_point
    configs_of base [] = ok []
    configs_of base (p ∷ ps) = do
      c ← config_for_point base p
      rest ← configs_of base ps
      ok (c ∷ rest)

    -- The configurations that `run_sweep` runs, in their order.
    unfoldable pub sweep_configs :
        ExperimentConfig → List SweepPoint → String → Result (List ExperimentConfig)
    unfolding configs_of
    sweep_configs base points env_version = do
      raise_if (str_eq env_version "") (value_error "env_version must not be empty")
      raise_if (no_points points) (value_error "points must not be empty")
      configs_of base points

-- A YAML value: a mapping, or anything else.
mutual
  pub data Value : Type 0 where
    leaf : String → Value
    mapping : Entries → Value

  pub data Entries : Type 0 where
    end_of : Entries
    entry : String → Value → Entries → Entries

-- `merged.get(key)`
abbrev pub get : String → Entries → Option Value
get key end_of = none
get key (entry k v rest) = let found = get key rest in if str_eq k key then some v else found

-- `merged[key] = value`
abbrev pub put : String → Value → Entries → Entries
put key value end_of = entry key value end_of
put key value (entry k v rest) =
    let others = put key value rest in if str_eq k key then entry k value rest else entry k v others

-- `_merge_mappings`
unfoldable mutual
  pub merge_mappings : Entries → Entries → Entries
  merge_mappings base end_of = base
  merge_mappings base (entry key value rest) =
      merge_mappings (put key (merged_value (get key base) value) base) rest

  pub merged_value : Option Value → Value → Value
  merged_value none value = value
  merged_value (some current) (leaf text) = leaf text
  merged_value (some (leaf text)) (mapping overrides) = mapping overrides
  merged_value (some (mapping current)) (mapping overrides) =
      mapping (merge_mappings current overrides)
