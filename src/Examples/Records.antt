-- ===== src/Examples/Records.antt =====
-- The records of a small run, over hundredths, and the ceiling on them.
use sloserve.Prelude.{pos, ◌*ℤ◌, some, none, List, [], ◌∷◌, arith}
use sloserve.Float.{IsOrdered}
use sloserve.Float.Integers.{integers-IsStrictOrder}
use sloserve.Float.Hundredths.{hundredths, ceil}
use sloserve.Config.{poisson, uniform_cap, fcfs}
use sloserve.Config.Workload.{RequestProfileConfig, WorkloadConfig}
use sloserve.Workload.Dispatcher.{success, rejected}
use sloserve.Router.Models.{interactive, batch}
use sloserve.Metrics.Records.{RequestRecord}
use sloserve.Analysis.Percentiles.{IsCeiling}

pub ordered : IsOrdered
ordered = integers-IsStrictOrder

pub ceiling : IsCeiling ceil
unfolding ◌*ℤ◌
ceiling = record {
  half_low = λ n. ground arith;
  half-le-most = λ n. ground arith;
  most-le-nearly_all = λ n. ground arith;
  nearly_all_high = λ n. ground arith;
}

-- Arrived at 1 s, dispatched at 2 s, answered from 3 s to 5 s; and a request that the full queue
-- rejected.
abbrev pub answered : RequestRecord
answered = record {
  request_id = "req-0";
  sequence_id = pos 0;
  request_class = interactive;
  arrival_time_s = pos 100;
  enqueue_time_s = pos 100;
  dispatch_time_s = some (pos 200);
  first_token_time_s = some (pos 300);
  completion_time_s = pos 500;
  input_tokens = pos 10;
  output_tokens = pos 5;
  status = success;
  error_type = none;
  policy_name = fcfs;
  config_hash = "0";
  repetition_index = pos 0;
  env_version = "1";
  requested_output_tokens = some (pos 20);
  backend_max_output_tokens = some (pos 5);
  finish_reason = some "length";
}

abbrev pub refused : RequestRecord
refused = record answered {
  request_id = "req-1";
  sequence_id = pos 1;
  request_class = batch;
  enqueue_time_s = pos 150;
  dispatch_time_s = none;
  first_token_time_s = none;
  completion_time_s = pos 150;
  output_tokens = pos 0;
  status = rejected;
  error_type = some "queue is full";
  finish_reason = none;
}

-- It waited while the first one did.
abbrev pub waited : RequestRecord
waited = record answered {
  request_id = "req-2";
  sequence_id = pos 2;
  enqueue_time_s = pos 150;
  dispatch_time_s = some (pos 250);
}

abbrev pub run : List RequestRecord
run = answered ∷ refused ∷ waited ∷ []

abbrev pub slow_profile : RequestProfileConfig
slow_profile = record {
  input_tokens = record { minimum = pos 10; maximum = pos 20 };
  output_tokens = record { minimum = pos 30; maximum = pos 40 };
  ttft_slo_ms = pos 300000;
  end_to_end_slo_ms = pos 900000;
}

abbrev pub steady : WorkloadConfig
steady = record {
  arrival_process = poisson;
  request_rate_rps = pos 100;
  total_requests = pos 3;
  interactive_fraction = pos 50;
  random_seed = pos 7;
  warmup_requests = pos 0;
  repetitions = pos 1;
  interactive = slow_profile;
  batch = slow_profile;
  length_model = uniform_cap;
  realistic_length = none;
}
