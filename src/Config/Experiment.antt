-- ===== src/Config/Experiment.antt =====
-- The server's and the results' sections of config.py, the whole experiment, and the command line of
-- the server. `urlsplit` and `str` are parameters.
use sloserve.Prelude.{
  ℤ, pos, ltb_ℤ, eq_ℤ, Bool, true, false, not, ◌&&◌, ◌||◌, String, Option, none, some, List, [],
  ◌∷◌, ◌++◌, Result, ok, raise_if, value_error, ◌>>◌, if◌then◌else◌,
}
use text.Mathlib.Text.{◌==◌ as str_eq}
use sloserve.Float.{Float, ◌≺◌, one_f}
use sloserve.Config.Base.{BackendConfig, RouterConfig, field_ge, field_positive}
use sloserve.Config.Admission.{AdmissionControlConfig}
use sloserve.Config.SloAware.{SloAwareConfig}
use sloserve.Config.Workload.{WorkloadConfig}

pub data TorchDtype : Type 0 where
  auto bfloat16 float16 : TorchDtype

-- The value of the enumeration's member.
abbrev pub dtype_value : TorchDtype → String
dtype_value auto = "auto"
dtype_value bfloat16 = "bfloat16"
dtype_value float16 = "float16"

-- A flag that is set, cleared or left to the server.
abbrev pub switch : String → String → Option Bool → List String
switch on off none = []
switch on off (some true) = on ∷ []
switch on off (some false) = off ∷ []

module _ ⦃f : Float⦄ where
  pub record ServerConfig : Type 0 where
    pub host : String
    pub port : ℤ
    pub gpu_memory_utilization : f.F
    pub max_model_len : ℤ
    pub max_num_seqs : ℤ
    pub max_num_batched_tokens : Option ℤ
    pub enable_chunked_prefill : Option Bool
    pub enable_prefix_caching : Option Bool
    pub dtype : TorchDtype
    pub enforce_eager : Bool

  pub record MetricsConfig : Type 0 where
    pub output_directory : String
    pub gpu_sample_interval_s : f.F
    pub save_jsonl : Bool
    pub save_csv : Bool

  -- The constraint of the interval, and `at_least_one_raw_format`.
  unfoldable pub validate_metrics : MetricsConfig → Result (Unit {0})
  validate_metrics c = do
    field_positive "gpu_sample_interval_s" c.gpu_sample_interval_s
    raise_if (not c.save_jsonl && not c.save_csv)
        (value_error "at least one raw result format must be enabled")

  -- `value is not None and value < 1` fails the constraint of the batch of tokens.
  abbrev check_batched : Option ℤ → Result (Unit {0})
  check_batched none = ok tt
  check_batched (some n) = field_ge "max_num_batched_tokens" (pos 1) n

  unfoldable pub validate_server : ServerConfig → Result (Unit {0})
  validate_server c = do
    raise_if (str_eq c.host "") (value_error "host")
    field_ge "port" (pos 1) c.port
    raise_if (ltb_ℤ (pos 65535) c.port) (value_error "port")
    field_positive "gpu_memory_utilization" c.gpu_memory_utilization
    raise_if (one_f ≺ c.gpu_memory_utilization) (value_error "gpu_memory_utilization")
    field_ge "max_model_len" (pos 1) c.max_model_len
    field_ge "max_num_seqs" (pos 1) c.max_num_seqs
    check_batched c.max_num_batched_tokens

  pub record ExperimentConfig : Type 0 where
    pub backend : BackendConfig
    pub server : ServerConfig
    pub router : RouterConfig
    pub admission : AdmissionControlConfig
    pub slo_aware : SloAwareConfig
    pub workload : WorkloadConfig
    pub metrics : MetricsConfig

  abbrev pub same_host : Option String → String → Bool
  same_host none host = false
  same_host (some name) host = str_eq name host

  abbrev pub same_port : Option ℤ → ℤ → Bool
  same_port none port = false
  same_port (some n) port = eq_ℤ n port

  unfoldable pub server_matches_backend_url :
      (String → Option String × Option ℤ) → ExperimentConfig → Result (Unit {0})
  server_matches_backend_url urlsplit c =
      let (hostname, port) = urlsplit c.backend.base_url in
      raise_if (not (same_host hostname c.server.host) || not (same_port port c.server.port))
        (value_error "server host/port must match backend.base_url host/port")

  unfoldable pub server_admits_router_concurrency : ExperimentConfig → Result (Unit {0})
  server_admits_router_concurrency c =
      raise_if (ltb_ℤ c.server.max_num_seqs c.router.max_in_flight) (
        value_error
          "server.max_num_seqs must be >= router.max_in_flight so the external router bounds concurrency")

  abbrev batched_args : (ℤ → String) → Option ℤ → List String
  batched_args str none = []
  batched_args str (some n) = "--max-num-batched-tokens" ∷ str n ∷ []

  unfoldable pub vllm_serve_args : (ℤ → String) → (f.F → String) → ExperimentConfig → List String
  vllm_serve_args str str_float c =
      ("serve"
        ∷ c.backend.model
        ∷ "--revision"
        ∷ c.backend.model_revision
        ∷ "--tokenizer-revision"
        ∷ c.backend.tokenizer_revision
        ∷ "--served-model-name"
        ∷ c.backend.model
        ∷ "--host"
        ∷ c.server.host
        ∷ "--port"
        ∷ str c.server.port
        ∷ "--gpu-memory-utilization"
        ∷ str_float c.server.gpu_memory_utilization
        ∷ "--max-model-len"
        ∷ str c.server.max_model_len
        ∷ "--max-num-seqs"
        ∷ str c.server.max_num_seqs
        ∷ "--dtype"
        ∷ dtype_value c.server.dtype
        ∷ [])
      ++ (if c.server.enforce_eager then "--enforce-eager" ∷ [] else [])
      ++ batched_args str c.server.max_num_batched_tokens
      ++ switch "--enable-chunked-prefill" "--no-enable-chunked-prefill"
          c.server.enable_chunked_prefill
      ++ switch "--enable-prefix-caching" "--no-enable-prefix-caching"
          c.server.enable_prefix_caching
