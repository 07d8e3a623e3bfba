-- ===== src/Experiments/Sweep/Points.antt =====
-- About config_for_point of experiments/sweep.py.
use sloserve.Prelude.{
  ℤ, Bool, String, Option, none, some, ok, ◌≡◌, refl, >>-eq-ok, ok_inj, ap, sym, subst,
}
use sloserve.Float.{Float}
use sloserve.Config.{RouterConfig, validate_router}
use sloserve.Config.Admission
use sloserve.Config.SloAware
use sloserve.Config.Validation.{model_validate, validate_backend}
use sloserve.Config.Admission.{AdmissionControlConfig}
use sloserve.Config.SloAware.{SloAwareConfig}
use sloserve.Config.Workload.{WorkloadConfig, validate_workload}
use sloserve.Config.Experiment.{
  ExperimentConfig, validate_server, validate_metrics, server_matches_backend_url,
  server_admits_router_concurrency,
}
use sloserve.Experiments.Sweep.{
  SweepPoint, override, override_option, router_for, workload_for, slo_aware_for, admission_for,
  config_for_point, updated, model_validate,
}

override_idem {ℓ} : {A : Type ℓ} (o : Option A) (a : A) → override o (override o a) ≡ override o a
override_idem none a = refl
override_idem (some b) a = refl

override_option_idem {ℓ} :
    {A : Type ℓ} (o a : Option A) → override_option o (override_option o a) ≡ override_option o a
override_option_idem none a = refl
override_option_idem (some b) a = refl

module _ ⦃f : Float⦄ where
  router_for_idem :
      (p : SweepPoint) (c : RouterConfig) → router_for p (router_for p c) ≡ router_for p c
  unfolding router_for
  router_for_idem p c =
      rw (override_idem p.policy c.policy, override_idem p.max_in_flight c.max_in_flight) refl

  workload_for_idem :
      (p : SweepPoint) (c : WorkloadConfig) → workload_for p (workload_for p c) ≡ workload_for p c
  unfolding workload_for
  workload_for_idem p c =
      rw
        (
          override_idem p.request_rate_rps c.request_rate_rps,
          override_idem p.random_seed c.random_seed,
          override_idem p.interactive_fraction c.interactive_fraction,
        )
        refl

  slo_aware_for_idem :
      (p : SweepPoint) (c : SloAwareConfig)
      → slo_aware_for p (slo_aware_for p c) ≡ slo_aware_for p c
  unfolding slo_aware_for
  slo_aware_for_idem p c =
      rw
        (
          override_idem p.aging_threshold_s c.aging_threshold_s,
          override_idem p.cost_weight c.cost_weight,
          override_idem p.slack_weight c.slack_weight,
          override_idem p.waiting_weight c.waiting_weight,
          override_idem p.disable_length_estimate c.disable_length_estimate,
          override_idem p.length_source c.length_source,
          override_option_idem p.length_estimator_path c.length_estimator_path,
          override_idem p.aging_levels c.aging_levels,
          override_idem p.adaptive_ceiling c.adaptive_ceiling,
          override_idem p.ceiling_margin c.ceiling_margin,
          override_idem p.ceiling_floor_s c.ceiling_floor_s,
          override_idem p.ceiling_cap_s c.ceiling_cap_s,
        )
        refl

  admission_for_idem :
      (p : SweepPoint) (c : AdmissionControlConfig)
      → admission_for p (admission_for p c) ≡ admission_for p c
  unfolding admission_for
  admission_for_idem p c =
      rw
        (
          override_idem p.clip_enabled c.clip_enabled,
          override_idem p.clip_max_tokens c.clip_max_tokens,
          override_idem p.clip_source c.clip_source,
          override_option_idem p.clip_estimator_path c.clip_estimator_path,
          override_idem p.adaptive_clip_enabled c.adaptive_clip_enabled,
          override_idem p.adaptive_clip_signal c.adaptive_clip_signal,
          override_idem p.adaptive_clip_caps c.adaptive_clip_caps,
          override_idem p.adaptive_clip_tighten_thresholds c.adaptive_clip_tighten_thresholds,
          override_idem p.adaptive_clip_relax_thresholds c.adaptive_clip_relax_thresholds,
          override_idem p.adaptive_clip_ewma_tau_s c.adaptive_clip_ewma_tau_s,
          override_idem p.adaptive_clip_tighten_hold_s c.adaptive_clip_tighten_hold_s,
          override_idem p.adaptive_clip_relax_hold_s c.adaptive_clip_relax_hold_s,
          override_option_idem p.adaptive_clip_capacity_rps c.adaptive_clip_capacity_rps,
        )
        refl

  updated_idem : (p : SweepPoint) (c : ExperimentConfig) → updated p (updated p c) ≡ updated p c
  updated_idem p c =
      rw
        (
          router_for_idem p c.router,
          workload_for_idem p c.workload,
          slo_aware_for_idem p c.slo_aware,
          admission_for_idem p c.admission,
        )
        refl

  module _ (is_revision : String → Bool) (isclose : f.F → f.F → Bool)
      (urlsplit : String → Option String × Option ℤ) where
    model_validate-ok :
        (c d : ExperimentConfig) → model_validate is_revision isclose urlsplit c ≡ ok d → c ≡ d
    unfolding model_validate
    model_validate-ok c d h =
        let (_, h) = >>-eq-ok (validate_backend is_revision isclose urlsplit c.backend) _ h in
        let (_, h) = >>-eq-ok (validate_server c.server) _ h in
        let (_, h) = >>-eq-ok (validate_router c.router) _ h in
        let (_, h) = >>-eq-ok (Admission.validate c.admission) _ h in
        let (_, h) = >>-eq-ok (SloAware.validate c.slo_aware) _ h in
        let (_, h) = >>-eq-ok (validate_workload isclose c.workload) _ h in
        let (_, h) = >>-eq-ok (validate_metrics c.metrics) _ h in
        let (_, h) = >>-eq-ok (server_matches_backend_url urlsplit c) _ h in
        let (_, h) = >>-eq-ok (server_admits_router_concurrency c) _ h in ok_inj h

    -- The configuration of a point is valid as it stands, and applying the point to it once more
    -- changes nothing. It keeps the backend, the server and the metrics of the base.
    pub config_for_point_idem :
        (base : ExperimentConfig) (p : SweepPoint) (c : ExperimentConfig)
        → config_for_point is_revision isclose urlsplit base p ≡ ok c
        → (model_validate is_revision isclose urlsplit c ≡ ok c)
          × (config_for_point is_revision isclose urlsplit c p ≡ ok c)
          × (c.backend ≡ base.backend)
          × (c.server ≡ base.server)
          × (c.metrics ≡ base.metrics)
    unfolding config_for_point
    config_for_point_idem base p c h =
        let same : updated p base ≡ c = model_validate-ok (updated p base) c h in
        let again : updated p c ≡ c = subst (λ d. updated p d ≡ d) same (updated_idem p base) in
        let valid : model_validate is_revision isclose urlsplit c ≡ ok c =
          subst (λ d. model_validate is_revision isclose urlsplit d ≡ ok c) same h in
        (
          valid,
          subst (λ d. model_validate is_revision isclose urlsplit d ≡ ok c) (sym again) valid,
          ap (λ d. d.backend) (sym same),
          ap (λ d. d.server) (sym same),
          ap (λ d. d.metrics) (sym same),
        )
