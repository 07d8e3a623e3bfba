-- ===== src/Examples/Experiments.antt =====
-- Evidence and reports of a small run.
use sloserve.Prelude.{
  ◌↔◌, ℤ, pos, ◌≤ℤ◌, true, false, String, Option, none, some, [], ◌∷◌, All, ok, ◌≡◌, refl, ◌⊎◌,
  ◌*ℤ◌, List,
}
use sloserve.Float.{◌⊕◌}
use sloserve.Float.Hundredths.{hundredths, ceil}
use sloserve.Config.{fcfs}
use sloserve.Router.Models.{RequestEnvelope, interactive, effective_max_output_tokens}
use sloserve.Router.Admission.{AdmissionResult}
use sloserve.Workload.Dispatcher.{success, rejected}
use sloserve.Workload.HttpBackend.{HttpCallTelemetry}
use sloserve.Metrics.Records.{build_record, from_envelope}
use sloserve.Experiments.Correctness.{
  Observed, facts_of, PolicyCorrectness, analyze_policy, max_queue_depth_of, within_bound,
}
use sloserve.Experiments.Correctness.Waiting.{max_queue_depth-greatest, waiting_at}
use sloserve.Experiments.Correctness.Verdict.{analyze_policy-verdict, WaitedWithin, IsTerminal}
use sloserve.Experiments.Benchmark.{join_repetition, put_all}
use sloserve.Experiments.Benchmark.Join.{join_repetition-Aligned, Aligned}
use sloserve.Examples.Records.{ordered, ceiling, answered, refused, waited, run}

max_queue_depth-greatest_example :
    ((t : ℤ) → pos (waiting_at t run) ≤ℤ max_queue_depth_of run)
    × ((max_queue_depth_of run ≡ pos 0)
        ⊎ ((t : ℤ) × (max_queue_depth_of run ≡ pos (waiting_at t run))))
max_queue_depth-greatest_example = max_queue_depth-greatest ordered run (refl, (tt, (refl, tt)))

-- The run, of which the last request has the status "running".
abbrev observed : List Observed
observed =
    record { facts = answered; status = some success }
    ∷ record { facts = refused; status = some rejected }
    ∷ record { facts = waited; status = none }
    ∷ []

analyze_policy-verdict_example :
    (r : PolicyCorrectness) × (analyze_policy ceil observed "fcfs" (pos 1000) (pos 200) ≡ ok r)
    × ((r.all_terminal ≡ true) ↔ All IsTerminal observed)
    × ((r.verdict ≡ within_bound)
        → (pos 2 ≤ℤ r.max_queue_depth)
          × All IsTerminal observed
          × All (WaitedWithin (pos 1000 ⊕ pos 200)) (facts_of observed))
unfolding ◌*ℤ◌
analyze_policy-verdict_example =
    analyze_policy-verdict ceil ceiling ordered observed "fcfs" (pos 1000) (pos 200) refl refl refl
      refl

abbrev asked : RequestEnvelope
asked = record {
  request_id = "req-0";
  sequence_id = pos 0;
  request_class = interactive;
  arrival_time_s = pos 100;
  input_tokens = pos 10;
  max_output_tokens = pos 20;
  deadline_time_s = pos 900;
  advertised_cap_tokens = none;
  prompt_kind = none;
  backend_max_output_tokens = some (pos 5);
  force_exact_output_tokens = false;
}

abbrev outcome : AdmissionResult
outcome = record {
  request_id = "req-0";
  sequence_id = pos 0;
  status = success;
  enqueue_time_s = pos 100;
  dispatch_time_s = some (pos 200);
  completion_time_s = pos 500;
  effective_envelope = asked;
  error_message = none;
}

abbrev calls : String → Option HttpCallTelemetry
calls request_id = some (record {
  first_token_time_s = some (pos 300);
  output_tokens = pos 5;
  http_status = some (pos 200);
  finish_reason = some "length";
  error = none;
})

joined :
    join_repetition (λ hash. true) calls fcfs "0" (pos 0) "1" (asked ∷ []) (outcome ∷ [])
    ≡ ok (answered ∷ [])
unfolding join_repetition from_envelope build_record effective_max_output_tokens ◌*ℤ◌
joined = refl

join_repetition-Aligned_example : Aligned (put_all [] (outcome ∷ [])) (asked ∷ []) (answered ∷ [])
join_repetition-Aligned_example =
    join_repetition-Aligned (λ hash. true) calls fcfs "0" (pos 0) "1" (asked ∷ []) (outcome ∷ [])
      (answered ∷ []) joined
