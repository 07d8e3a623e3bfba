-- ===== src/Config/Validation.antt =====
-- The whole experiment of config.py: the sections in their order, and then the model validators. The
-- pattern of a revision, `math.isclose` and `urlsplit` are parameters.
use text.Mathlib.Text.{◌==◌ as str_eq}
use sloserve.Prelude.{ℤ, Bool, not, String, Option, Result, ok, raise_if, value_error, ◌>>◌}
use sloserve.Float.{Float}
use sloserve.Config.Base.{BackendConfig, field_positive, validate_router}
use sloserve.Config.Admission
use sloserve.Config.SloAware
use sloserve.Config.Workload.{validate_workload}
use sloserve.Config.Experiment.{
  ExperimentConfig, validate_server, validate_metrics, server_matches_backend_url,
  server_admits_router_concurrency,
}

module _ ⦃f : Float⦄ (is_revision : String → Bool) (isclose : f.F → f.F → Bool)
    (urlsplit : String → Option String × Option ℤ) where
  unfoldable pub validate_backend : BackendConfig → Result (Unit {0})
  validate_backend c = do
    raise_if (str_eq c.base_url "") (value_error "base_url")
    raise_if (str_eq c.model "") (value_error "model")
    raise_if (not (is_revision c.model_revision)) (value_error "model_revision")
    raise_if (not (is_revision c.tokenizer_revision)) (value_error "tokenizer_revision")
    field_positive "request_timeout_s" c.request_timeout_s

  -- `ExperimentConfig.model_validate`
  unfoldable pub model_validate : ExperimentConfig → Result ExperimentConfig
  unfolding validate_backend
  model_validate c = do
    validate_backend c.backend
    validate_server c.server
    validate_router c.router
    Admission.validate c.admission
    SloAware.validate c.slo_aware
    validate_workload isclose c.workload
    validate_metrics c.metrics
    server_matches_backend_url urlsplit c
    server_admits_router_concurrency c
    ok c
