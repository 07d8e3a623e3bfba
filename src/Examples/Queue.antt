-- ===== src/Examples/Queue.antt =====
-- A queue with one slot: two requests, of which the second waits until the first one's task ends.
use sloserve.Prelude.Sorting.{sorted}
use sloserve.Config.{validate_router}
use sloserve.Config.Experiment.{ExperimentConfig, server_admits_router_concurrency, auto}
use sloserve.Prelude.{
  length, ◌≤ℤ◌, pos, none, refl, true, false, List, [], ◌∷◌, ok, ◌≡◌, ◌-ℤ◌, ◌+ℤ◌,
}
use sloserve.Float.Integers.{integers}
use sloserve.Examples.Data.{
  router, backend, clock, clipping, slo_config, workload, chat_envelope, report_envelope, value_or,
}
use sloserve.Router.Policies.{fcfs_policy, order}
use sloserve.Router.Admission.{
  AdmissionQueue, has_room, admit_loop, waiting_envelopes, find_envelope, complete,
  in_flight_entries,
}
use sloserve.Router.Admission.Handlers.{
  run, submit, backend_done, pending, Event, starts, submits, backend_ends, returned, step, start,
  timer_fires, watch_timeout,
}
use sloserve.Router.Admission.Construction.{build_queue, built_run-Sound, in_flight-le-max_num_seqs}
use sloserve.Router.Admission.Finality.{IsFinal}
use sloserve.Router.Admission.Results.{run-IsFinal}
use sloserve.Router.Admission.Progress.{submit-fills, backend_done-fills}

abbrev pub new_queue : AdmissionQueue
new_queue = record {
  queue_capacity = pos 2;
  max_in_flight = pos 1;
  request_timeout_s = pos 60;
  policy = fcfs_policy;
  controller = none;
  clipper = none;
  heap = [];
  waiting = [];
  entries = [];
  started = false;
  closing = false;
  closed = false;
  decisions = [];
  reads = 0;
}

abbrev day : List Event
day = starts ∷ submits chat_envelope ∷ submits report_envelope ∷ backend_ends 0 returned ∷ []

pub valid_router : validate_router router ≡ ok tt
unfolding validate_router
valid_router = refl

pub queue-builds : build_queue router backend none none none ≡ ok new_queue
unfolding build_queue
queue-builds = refl

unfoldable evening : AdmissionQueue
unfolding run
evening = value_or new_queue (run clock new_queue day)

day_runs : run clock new_queue day ≡ ok evening
unfolding run step start submit admit_loop waiting_envelopes order sorted find_envelope ◌-ℤ◌
    backend_done complete evening
day_runs = refl

abbrev experiment : ExperimentConfig
experiment = record {
  backend = backend;
  server = record {
    host = "localhost";
    port = pos 8000;
    gpu_memory_utilization = pos 1;
    max_model_len = pos 4096;
    max_num_seqs = pos 4;
    max_num_batched_tokens = none;
    enable_chunked_prefill = none;
    enable_prefix_caching = none;
    dtype = auto;
    enforce_eager = false;
  };
  router = router;
  admission = clipping;
  slo_aware = slo_config;
  workload = workload;
  metrics = record {
    output_directory = "results";
    gpu_sample_interval_s = pos 1;
    save_jsonl = true;
    save_csv = false;
  };
}

experiment_admits : server_admits_router_concurrency experiment ≡ ok tt
unfolding server_admits_router_concurrency
experiment_admits = refl

in_flight-le-max_num_seqs_example : pos (length (in_flight_entries evening)) ≤ℤ pos 4
in_flight-le-max_num_seqs_example =
    in_flight-le-max_num_seqs clock experiment none none none day new_queue evening valid_router
      experiment_admits queue-builds day_runs

abbrev morning : AdmissionQueue
morning = record new_queue { started = true }

unfoldable noon : AdmissionQueue
unfolding run
noon = value_or new_queue (run clock morning (submits chat_envelope ∷ submits report_envelope ∷ []))

unfoldable busy : AdmissionQueue
unfolding run
busy = value_or new_queue (run clock morning (submits chat_envelope ∷ []))

chat_submitted : submit clock morning chat_envelope ≡ ok (pending 0, busy)
unfolding run step start submit admit_loop waiting_envelopes order sorted find_envelope ◌-ℤ◌
    backend_done complete busy
chat_submitted = refl

submit-fills_example : has_room clock busy ≡ false
submit-fills_example = submit-fills clock morning busy chat_envelope 0 chat_submitted

chat_done : backend_done clock noon 0 returned ≡ ok evening
unfolding run step start submit admit_loop waiting_envelopes order sorted find_envelope ◌-ℤ◌
    backend_done complete noon evening
chat_done = refl

backend_done-fills_example : has_room clock evening ≡ false
backend_done-fills_example = backend_done-fills clock noon evening 0 returned chat_done

unfoldable night : AdmissionQueue
unfolding run
night = value_or new_queue (run clock evening (timer_fires 0 ∷ backend_ends 1 returned ∷ []))

evening_runs : run clock evening (timer_fires 0 ∷ backend_ends 1 returned ∷ []) ≡ ok night
unfolding run evening night step watch_timeout start submit admit_loop waiting_envelopes order
    sorted find_envelope ◌-ℤ◌ backend_done complete ◌+ℤ◌
evening_runs = refl

run-IsFinal_example : IsFinal evening.heap night.heap
run-IsFinal_example =
    run-IsFinal clock (timer_fires 0 ∷ backend_ends 1 returned ∷ []) evening night
      (built_run-Sound clock router backend none none none day new_queue evening valid_router
        queue-builds day_runs).0
      evening_runs
