-- ===== src/Examples/Workload.antt =====
-- A drawn workload, and the record of a request.
use sloserve.Config.Workload.{validate_workload}
use sloserve.Prelude.{
  ℕ, ℤ, pos, none, some, refl, true, false, not, List, [], ◌∷◌, length, All, String, ok, ◌≡◌, ◌≤ℤ◌,
  ◌+ℤ◌, ltb_ℤ, Bool, arith, ◌*ℤ◌, ◌↔◌,
}
use sloserve.Prelude.Sorting.Laws.{Pairs}
use sloserve.Float.Integers.{integers, integers-IsStrictOrder}
use sloserve.Float.{◌≺◌, zero_f}
use sloserve.Config.{fcfs}
use sloserve.Examples.Data.{draws, workload, clipped_chat, value_or}
use sloserve.Router.Models.{RequestEnvelope, construct}
use sloserve.Router.Models
use sloserve.Router.Models.Validity.{construct-ok_iff}
use sloserve.Workload.Random.{IsRandom}
use sloserve.Workload.Arrivals.{
  arrival_times, poisson_rate, arrival_schedule_from_config, build_poisson, ArrivalSchedule,
}
use sloserve.Workload.Arrivals.Monotone.{IsMonotoneSum, poisson_arrivals}
use sloserve.Workload.Generator.{generate_requests, schedule_or}
use sloserve.Workload.Generator.Numbered.{AreNumbered, generate_requests-AreNumbered}
use sloserve.Workload.LengthPredictor.{LengthTrainingPair}
use sloserve.Workload.Training.{
  build_training_pairs, build_training_pairs_count, training_config, AreLabelled,
}
use sloserve.Analysis.Queueing.{LinearServiceFit, Mg1Estimate, estimate_mg1_wait, stable, total}
use sloserve.Analysis.Queueing.Estimate.{estimate_mg1_wait_iff}
use sloserve.Float.Integers.{div_ℤ}
use sloserve.Workload.Dispatcher.{success}
use sloserve.Metrics.Records.{
  RequestRecord, record_of, build_record, from_envelope, clip_applied, cap_reduction_tokens,
  is_some,
}
use sloserve.Metrics.Records.Timeline.{
  IsDispatched, build_record_timeline, from_envelope-clip_applied,
}

draws-IsRandom : IsRandom draws
draws-IsRandom = record {
  randint_bounds = λ low high s h. (ground arith, h);
  choices_index = λ n weights s h. h;
  expovariate_nonneg = λ rate s h. refl;
}

integers-IsMonotoneSum : IsMonotoneSum
unfolding ◌+ℤ◌
integers-IsMonotoneSum = λ a b h. ground arith

abbrev times : List ℤ
times = pos 0 ∷ pos 1 ∷ pos 2 ∷ []

times_drawn : arrival_times draws (poisson_rate (pos 1) (pos 7)) (pos 3) ≡ ok times
unfolding arrival_times ◌+ℤ◌
times_drawn = refl

poisson_arrivals_example :
    (pos (length times) ≡ pos 3)
    × All (λ t. (t ≺ zero_f) ≡ false) times
    × Pairs (λ x y. (y ≺ x) ≡ false) times
poisson_arrivals_example =
    poisson_arrivals integers-IsStrictOrder integers-IsMonotoneSum draws draws-IsRandom (pos 1)
      (pos 7) (pos 3) times refl times_drawn

abbrev rounded : ℤ → ℤ
rounded x = x

abbrev request_name : ℕ → String
request_name n = "request"

unfoldable drawn : List RequestEnvelope
unfolding generate_requests
drawn = value_or [] (generate_requests draws rounded request_name workload none)

requests_drawn : generate_requests draws rounded request_name workload none ≡ ok drawn
unfolding generate_requests drawn arrival_schedule_from_config build_poisson arrival_times ◌+ℤ◌
    construct Models.post_init
requests_drawn = refl

generate_requests-AreNumbered_example :
    (chosen : ArrivalSchedule) × (times : List ℤ) × (schedule_or draws rounded request_name workload
        none
      ≡ ok chosen)
    × (arrival_times draws chosen (workload.warmup_requests +ℤ workload.total_requests) ≡ ok times)
    × AreNumbered workload 0 times drawn
    × (pos (length drawn) ≡ workload.warmup_requests +ℤ workload.total_requests)
generate_requests-AreNumbered_example =
    generate_requests-AreNumbered draws rounded request_name workload none drawn requests_drawn

abbrev close : ℤ → ℤ → Bool
close a b = not (ltb_ℤ a b)

unfoldable pairs : List LengthTrainingPair
unfolding build_training_pairs
pairs = value_or [] (build_training_pairs close draws rounded request_name workload (pos 3) (pos 2))

pairs_drawn :
    build_training_pairs close draws rounded request_name workload (pos 3) (pos 2) ≡ ok pairs
unfolding build_training_pairs pairs validate_workload ◌+ℤ◌ generate_requests
    arrival_schedule_from_config build_poisson arrival_times construct Models.post_init
pairs_drawn = refl

build_training_pairs_count_example :
    (requests : List RequestEnvelope) × (generate_requests draws rounded request_name
        (training_config close draws rounded request_name workload (pos 3) (pos 2))
        none
      ≡ ok requests)
    × AreLabelled close draws rounded request_name requests pairs
    × (pos (length pairs) ≡ pos 2)
build_training_pairs_count_example =
    build_training_pairs_count close draws rounded request_name workload (pos 3) (pos 2) pairs
      pairs_drawn

abbrev digest : String → Bool
digest text = true

abbrev chat_record : RequestRecord
chat_record =
    record_of clipped_chat (pos 6) (some (pos 7)) (some (pos 8)) (pos 9) (pos 512) success none fcfs
      "digest" (pos 0) "version" (some "length")

record-builds : build_record digest chat_record ≡ ok chat_record
unfolding build_record Models.effective_max_output_tokens
record-builds = refl

build_record_timeline_example :
    (chat_record ≡ chat_record)
    × ((chat_record.enqueue_time_s ≺ chat_record.arrival_time_s) ≡ false)
    × IsDispatched chat_record chat_record.dispatch_time_s chat_record.first_token_time_s
    × (chat_record.status ≡ success
        → (is_some chat_record.dispatch_time_s ≡ true)
          × (is_some chat_record.first_token_time_s ≡ true)
          × (pos 1 ≤ℤ chat_record.output_tokens))
build_record_timeline_example = build_record_timeline digest chat_record chat_record record-builds

clipped_chat-made : construct clipped_chat ≡ ok clipped_chat
unfolding construct Models.post_init
clipped_chat-made = refl

chat_recorded :
    from_envelope digest clipped_chat
      (pos 6)
      (some (pos 7))
      (some (pos 8))
      (pos 9)
      (pos 512)
      success
      none
      fcfs
      "digest"
      (pos 0)
      "version"
      (some "length")
    ≡ ok chat_record
unfolding from_envelope build_record Models.effective_max_output_tokens
chat_recorded = refl

from_envelope-clip_applied_example :
    (clip_applied chat_record ≡ some (Models.clip_applied clipped_chat))
    × ((n : ℤ) × (cap_reduction_tokens chat_record ≡ some n) × (pos 0 ≤ℤ n))
from_envelope-clip_applied_example =
    from_envelope-clip_applied digest clipped_chat (pos 6) (some (pos 7)) (some (pos 8)) (pos 9)
      (pos 512) success none fcfs "digest" (pos 0) "version" (some "length") chat_record
      ((construct-ok_iff clipped_chat).0 clipped_chat-made) chat_recorded

abbrev mean : List ℤ → ℤ
mean xs = div_ℤ (total xs) (pos (length xs))

abbrev fit : LinearServiceFit
fit = record {
  seconds_per_output_token = pos 0;
  intercept_s = pos 1;
  r_squared = pos 1;
  sample_count = pos 2;
}

abbrev saturated : Mg1Estimate
saturated = record {
  arrival_rate_rps = pos 2;
  concurrency = pos 1;
  mean_service_s = pos 1;
  second_moment_service_s2 = pos 1;
  utilization = pos 2;
  mean_queue_wait_s = none;
}

saturated_estimate : estimate_mg1_wait mean (pos 5 ∷ pos 6 ∷ []) (pos 2) fit (pos 1) ≡ ok saturated
unfolding estimate_mg1_wait ◌+ℤ◌ ◌*ℤ◌
saturated_estimate = refl

estimate_mg1_wait_example :
    ((zero_f ≺ pos 2) ≡ true)
    × (pos 1 ≤ℤ pos 1)
    × ((is_some saturated.mean_queue_wait_s ≡ true) ↔ (stable saturated ≡ true))
estimate_mg1_wait_example =
    estimate_mg1_wait_iff mean (pos 5 ∷ pos 6 ∷ []) (pos 2) fit (pos 1) saturated saturated_estimate
