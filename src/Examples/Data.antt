-- ===== src/Examples/Data.antt =====
-- The data of the examples.
use sloserve.Router.Policies.{SloAwarePolicy}
use sloserve.Router.Clipping.{OutputClipper}
use sloserve.Router.Controller.{AdaptiveClipController, level_0}
use sloserve.Prelude.{ℕ, ℤ, pos, true, false, none, some, List, [], ◌∷◌, String, Result, ok, err}
use sloserve.Float.Integers.{integers}
use sloserve.Config.{
  fcfs, advertised_cap, queue_depth_ewma, advertised, RouterConfig, BackendConfig,
}
use sloserve.Config.{poisson, realistic}
use sloserve.Config.Workload.{RequestProfileConfig, RealisticLengthConfig, WorkloadConfig}
use sloserve.Workload.Random.{Random}
use sloserve.Config.Admission.{AdmissionControlConfig}
use sloserve.Config.SloAware.{SloAwareConfig}
use sloserve.Workload.LengthPredictor.{LengthPredictor}
use sloserve.Router.Models.{RequestEnvelope, RequestClass, interactive, batch}
use sloserve.Router.Admission.{Envelope}

abbrev pub request : String → ℤ → RequestClass → ℤ → RequestEnvelope
request id n class arrival = record {
  request_id = id;
  sequence_id = n;
  request_class = class;
  arrival_time_s = arrival;
  input_tokens = pos 100;
  max_output_tokens = pos 2048;
  deadline_time_s = pos 100;
  advertised_cap_tokens = some (pos 4096);
  prompt_kind = some "chat";
  backend_max_output_tokens = none;
  force_exact_output_tokens = false;
}

abbrev pub chat : RequestEnvelope
chat = request "chat" (pos 0) interactive (pos 5)

abbrev pub report : RequestEnvelope
report = request "report" (pos 1) batch (pos 2)

abbrev pub clipped_chat : RequestEnvelope
clipped_chat = record chat { backend_max_output_tokens = some (pos 512) }

abbrev pub chats : List RequestEnvelope
chats = chat ∷ report ∷ []

abbrev pub clipping : AdmissionControlConfig
clipping = record {
  clip_enabled = true;
  clip_max_tokens = pos 1024;
  clip_source = advertised_cap;
  clip_estimator_path = none;
  adaptive_clip_enabled = true;
  adaptive_clip_signal = queue_depth_ewma;
  adaptive_clip_caps = pos 2048 ∷ pos 1024 ∷ pos 512 ∷ [];
  adaptive_clip_tighten_thresholds = pos 4 ∷ pos 8 ∷ pos 16 ∷ [];
  adaptive_clip_relax_thresholds = pos 2 ∷ pos 6 ∷ pos 12 ∷ [];
  adaptive_clip_ewma_tau_s = pos 10;
  adaptive_clip_tighten_hold_s = pos 3;
  adaptive_clip_relax_hold_s = pos 5;
  adaptive_clip_capacity_rps = none;
}

abbrev pub slo_config : SloAwareConfig
slo_config = record {
  input_token_seconds = pos 1;
  output_token_seconds = pos 1;
  cost_weight = pos 1;
  slack_weight = pos 1;
  waiting_weight = pos 1;
  aging_threshold_s = pos 8;
  disable_length_estimate = false;
  aging_levels = pos 4;
  adaptive_ceiling = false;
  ceiling_margin = pos 2;
  ceiling_floor_s = pos 4;
  ceiling_cap_s = pos 60;
  length_source = advertised;
  length_estimator_path = none;
}

-- An artifact's loader that knows one predictor.
abbrev pub loader : String → Result LengthPredictor
loader path =
    ok (record { bucket_medians = (("interactive", none), pos 700) ∷ []; global_median = pos 900 })

abbrev pub router : RouterConfig
router = record {
  policy = fcfs;
  listen_host = "localhost";
  listen_port = pos 8080;
  max_in_flight = pos 1;
  queue_capacity = pos 2;
}

abbrev pub backend : BackendConfig
backend = record {
  base_url = "http://localhost:8000";
  model = "model";
  model_revision = "0";
  tokenizer_revision = "0";
  request_timeout_s = pos 60;
}

abbrev pub clock : ℕ → ℤ
clock n = pos n

abbrev pub chat_envelope : Envelope
chat_envelope = record { object = 0; request = chat }

abbrev pub report_envelope : Envelope
report_envelope = record { object = 1; request = report }

abbrev pub slo_policy : SloAwarePolicy
slo_policy = record {
  input_token_seconds = pos 1;
  output_token_seconds = pos 1;
  cost_weight = pos 1;
  slack_weight = pos 1;
  waiting_weight = pos 1;
  aging_threshold_s = pos 8;
  disable_length_estimate = false;
  aging_levels = pos 4;
  adaptive_ceiling = false;
  ceiling_margin = pos 2;
  ceiling_floor_s = pos 4;
  ceiling_cap_s = pos 60;
  length_source = advertised;
  length_predictor = none;
}

abbrev pub clipper : OutputClipper
clipper = record { config = clipping; predictor = none }

abbrev pub controller : AdaptiveClipController
controller = record {
  caps = pos 2048 ∷ pos 1024 ∷ pos 512 ∷ [];
  tighten_thresholds = pos 4 ∷ pos 8 ∷ pos 16 ∷ [];
  relax_thresholds = pos 2 ∷ pos 6 ∷ pos 12 ∷ [];
  tau_s = pos 10;
  tighten_hold_s = pos 3;
  relax_hold_s = pos 5;
  level = level_0;
  q_inst = pos 0;
  q_bar = pos 0;
  last_update_s = none;
  tighten_since_s = none ∷ none ∷ none ∷ [];
  relax_since_s = none;
}

-- The value of a computation that is known to return.
abbrev pub value_or {ℓ} : {A : Type ℓ} → A → Result A → A
value_or a (ok b) = b
value_or a (err e) = a

-- After the first reading, of nine waiting requests at time 1.
abbrev pub read_controller : AdaptiveClipController
read_controller = record controller {
  q_inst = pos 9;
  q_bar = pos 0;
  last_update_s = some (pos 1);
  tighten_since_s = some (pos 1) ∷ some (pos 1) ∷ none ∷ [];
}

-- Draws at their lower bounds, and a gap of one second between arrivals.
abbrev pub draws : Random
draws = record {
  State = ℕ;
  seeded = λ seed. 0;
  random = λ s. (pos 0, s);
  randint = λ low high s. (low, s);
  choices = λ n weights s. (0, s);
  lognormvariate = λ mu sigma s. (mu, s);
  expovariate = λ rate s. (pos 1, s);
}

abbrev pub profile : RequestProfileConfig
profile = record {
  input_tokens = record { minimum = pos 10; maximum = pos 20 };
  output_tokens = record { minimum = pos 30; maximum = pos 40 };
  ttft_slo_ms = pos 1000;
  end_to_end_slo_ms = pos 9000;
}

abbrev pub lengths : RealisticLengthConfig
lengths = record {
  kinds = "short" ∷ "long" ∷ [];
  kind_fractions = pos 1 ∷ pos 0 ∷ [];
  log_mu_by_kind = pos 100 ∷ pos 900 ∷ [];
  log_sigma = pos 1;
  advertised_cap_tokens = pos 2048;
  clamp_min = pos 8;
  clamp_max = pos 2048;
  force_exact_output_tokens = false;
}

abbrev pub workload : WorkloadConfig
workload = record {
  arrival_process = poisson;
  request_rate_rps = pos 1;
  total_requests = pos 2;
  interactive_fraction = pos 1;
  random_seed = pos 7;
  warmup_requests = pos 1;
  repetitions = pos 1;
  interactive = profile;
  batch = profile;
  length_model = realistic;
  realistic_length = some lengths;
}
