-- ===== src/Analysis/Metrics.antt =====
-- src/sloserve/analysis/metrics.py: the summary of a run's records. `math.ceil` is a parameter.
pub mod Totals
pub mod Classes
use sloserve.Prelude.{
  ℤ, pos, ◌+◌, ◌-ℤ◌, ltb_ℤ, leb_ℤ, Bool, true, false, not, ◌&&◌, String, Option, none, some, List,
  [], ◌∷◌, length, count, select, filter_map, map, any, ◌==◌, Result, ok, raise_if, value_error,
  ◌>>◌, ◌>>=◌, if◌then◌else◌, ◌+ℤ◌,
}
use sloserve.Float.{Float, ◌≺◌, ◌⊖◌, ◌⊗◌, ◌⊘◌, zero_f, one_f, float}
use sloserve.Float.Sequences.{maximum, minimum}
use sloserve.Config.Workload.{WorkloadConfig}
use sloserve.Workload.Dispatcher.{DispatchStatus, error, timeout, cancelled, rejected}
use sloserve.Router.Models.{RequestClass, interactive, batch}
use sloserve.Metrics.Records.{RequestRecord, is_success, clip_applied, cap_reduction_tokens}
use sloserve.Analysis.Queueing.{total}
use sloserve.Analysis.Percentiles.{Percentiles, percentiles}
use sloserve.Analysis.Attainment.{AttainmentSummary, attainment}
use text.Mathlib.Text.{◌==◌ as str_eq}

abbrev pub is_error : DispatchStatus → Bool
is_error error = true
is_error _ = false

abbrev pub is_timeout : DispatchStatus → Bool
is_timeout timeout = true
is_timeout _ = false

abbrev pub is_cancelled : DispatchStatus → Bool
is_cancelled cancelled = true
is_cancelled _ = false

abbrev pub is_rejected : DispatchStatus → Bool
is_rejected rejected = true
is_rejected _ = false

-- `a is b`
abbrev pub is_class : RequestClass → RequestClass → Bool
is_class interactive interactive = true
is_class batch batch = true
is_class _ _ = false

abbrev pub is_true : Option Bool → Bool
is_true none = false
is_true (some b) = b

abbrev pub is_present {ℓ} : {A : Type ℓ} → Option A → Bool
is_present none = false
is_present (some a) = true

abbrev pub is_length : Option String → Bool
is_length none = false
is_length (some reason) = str_eq reason "length"

abbrev pub keep {ℓ} : {A : Type ℓ} → Bool → A → Option A
keep true a = some a
keep false a = none

abbrev pub is_none_left {ℓ} : {A : Type ℓ} → List A → Bool
is_none_left [] = true
is_none_left _ = false

-- The built-in `sum` of integers.
abbrev pub total_ℤ : List ℤ → ℤ
total_ℤ xs = sum_from (pos 0) xs
  where
    sum_from : ℤ → List ℤ → ℤ
    sum_from acc [] = acc
    sum_from acc (x ∷ xs) = sum_from (acc +ℤ x) xs

module _ ⦃f : Float⦄ where
  pub record MetricsSummary : Type 0 where
    pub request_count : ℤ
    pub success_count : ℤ
    pub error_count : ℤ
    pub timeout_count : ℤ
    pub cancelled_count : ℤ
    pub rejected_count : ℤ
    pub success_output_tokens : ℤ
    pub wall_clock_window_s : Option f.F
    pub token_throughput_per_s : Option f.F
    pub ttft_s : Percentiles
    pub tpot_s : Percentiles
    pub end_to_end_s : Percentiles
    pub queue_wait_s : Percentiles
    pub queue_wait_mean_s : Option f.F
    pub longest_queue_wait_s : Option f.F
    pub clip_applied_count : ℤ
    pub clip_applied_rate : Option f.F
    pub realized_truncation_count : ℤ
    pub realized_truncation_rate : Option f.F
    pub mean_cap_reduction_tokens : Option f.F
    pub slo_overall : AttainmentSummary
    pub slo_by_class : List (RequestClass × AttainmentSummary)
    pub slo_attainment_gap : f.F
    pub jain_fairness_index : f.F

  abbrev pub difference : Option f.F → Option f.F → Option f.F
  difference (some a) (some b) = some (a ⊖ b)
  difference _ _ = none

  abbrev pub or_zero : Option f.F → f.F
  or_zero none = zero_f
  or_zero (some x) = x

  -- The elements of the comprehensions.
  abbrev pub ttft_of : RequestRecord → Option f.F
  ttft_of r = difference r.first_token_time_s (some r.arrival_time_s)

  abbrev pub tpot_of : RequestRecord → Option f.F → Option f.F
  tpot_of r none = none
  tpot_of r (some first) =
      keep (leb_ℤ (pos 2) r.output_tokens)
        ((r.completion_time_s ⊖ first) ⊘ float (r.output_tokens -ℤ pos 1))

  abbrev pub queue_wait_of : RequestRecord → Option f.F
  queue_wait_of r = difference r.dispatch_time_s (some r.arrival_time_s)

  abbrev pub mean_or_none : List f.F → Option f.F
  mean_or_none [] = none
  mean_or_none xs = some (total xs ⊘ float (pos (length xs)))

  abbrev pub mean_or_none_ℤ : List ℤ → Option f.F
  mean_or_none_ℤ [] = none
  mean_or_none_ℤ xs = some (float (total_ℤ xs) ⊘ float (pos (length xs)))

  -- `len(part) / len(whole) if whole else None`
  abbrev pub share : List RequestRecord → List RequestRecord → Option f.F
  share part whole =
      keep (not (is_none_left whole)) (float (pos (length part)) ⊘ float (pos (length whole)))

  abbrev pub throughput : ℤ → Option f.F → Option f.F
  throughput tokens none = none
  throughput tokens (some window) = keep (zero_f ≺ window) (float tokens ⊘ window)

  -- The summaries of the classes that appear, in the order of `RequestClass`.
  abbrev pub class_summary :
      List RequestRecord → WorkloadConfig → RequestClass → Option (RequestClass × AttainmentSummary)
  class_summary records c class =
      keep (any (λ r. is_class r.request_class class) records)
        (class, attainment (select (λ r. is_class r.request_class class) records) c)

  unfoldable pub slo_by_class_of :
      List RequestRecord → WorkloadConfig → List (RequestClass × AttainmentSummary)
  slo_by_class_of records c = filter_map (class_summary records c) (interactive ∷ batch ∷ [])

  unfoldable pub jain_index : List f.F → f.F
  jain_index rates =
      let rate_sum = total rates in
      let squared_rate_sum = total (map (λ rate. rate ⊗ rate) rates) in
      if zero_f ≺ squared_rate_sum
      then rate_sum ⊗ rate_sum ⊘ (float (pos (length rates)) ⊗ squared_rate_sum)
      else one_f

  -- The records that report whether a clip applied, those where it did, and of these the ones that
  -- the backend cut off.
  unfoldable pub instrumented : List RequestRecord → List RequestRecord
  instrumented = select (λ r. is_present (clip_applied r))

  unfoldable pub clipped : List RequestRecord → List RequestRecord
  unfolding instrumented
  clipped records = select (λ r. is_true (clip_applied r)) (instrumented records)

  unfoldable pub truncated : List RequestRecord → List RequestRecord
  unfolding clipped
  truncated records = select (λ r. is_length r.finish_reason) (clipped records)

  abbrev pub having : (DispatchStatus → Bool) → List RequestRecord → List RequestRecord
  having is = select (λ r. is r.status)

  -- The summary that is returned.
  unfoldable pub summary_of :
      List RequestRecord
      → WorkloadConfig
      → (ttft tpot end_to_end queue_wait : Percentiles) → MetricsSummary
  unfolding slo_by_class_of jain_index truncated
  summary_of records c ttft tpot end_to_end queue_wait =
      let successes = having is_success records in
      let waits = filter_map queue_wait_of successes in
      let tokens = total_ℤ (map (λ r. r.output_tokens) successes) in
      let window =
        difference (maximum (map (λ r. r.completion_time_s) records))
          (minimum (map (λ r. r.arrival_time_s) records)) in
      let by_class = slo_by_class_of records c in
      let class_rates = map (λ s. s.1.rate) by_class in
      record {
        request_count = pos (length records);
        success_count = pos (length successes);
        error_count = pos (length (having is_error records));
        timeout_count = pos (length (having is_timeout records));
        cancelled_count = pos (length (having is_cancelled records));
        rejected_count = pos (length (having is_rejected records));
        success_output_tokens = tokens;
        wall_clock_window_s = window;
        token_throughput_per_s = throughput tokens window;
        ttft_s = ttft;
        tpot_s = tpot;
        end_to_end_s = end_to_end;
        queue_wait_s = queue_wait;
        queue_wait_mean_s = mean_or_none waits;
        longest_queue_wait_s = maximum (filter_map queue_wait_of records);
        clip_applied_count = pos (length (clipped records));
        clip_applied_rate = share (clipped records) (instrumented records);
        realized_truncation_count = pos (length (truncated records));
        realized_truncation_rate = share (truncated records) (instrumented records);
        mean_cap_reduction_tokens =
            mean_or_none_ℤ (filter_map cap_reduction_tokens (clipped records));
        slo_overall = attainment records c;
        slo_by_class = by_class;
        slo_attainment_gap = or_zero (difference (maximum class_rates) (minimum class_rates));
        jain_fairness_index = jain_index class_rates;
      }

  module _ (ceil : f.F → ℤ) where
    unfoldable pub calculate_metrics : List RequestRecord → WorkloadConfig → Result MetricsSummary
    unfolding summary_of
    calculate_metrics records c = do
      let successes = having is_success records
      let error_count = length (having is_error records)
      let timeout_count = length (having is_timeout records)
      let cancelled_count = length (having is_cancelled records)
      let rejected_count = length (having is_rejected records)
      raise_if
          (not (
            length successes + error_count + timeout_count + cancelled_count + rejected_count
            == length records))
          (value_error "every request must have a supported terminal status")
      ttft ← percentiles ceil (filter_map ttft_of successes)
      tpot ← percentiles ceil (filter_map (λ r. tpot_of r r.first_token_time_s) successes)
      end_to_end ← percentiles ceil (map (λ r. r.completion_time_s ⊖ r.arrival_time_s) successes)
      queue_wait ← percentiles ceil (filter_map queue_wait_of successes)
      ok (summary_of records c ttft tpot end_to_end queue_wait)
