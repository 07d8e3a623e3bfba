-- ===== src/Experiments/Completeness.antt =====
-- src/sloserve/experiments/benchmark.py: the report of which results a run has.
pub mod Fields
use sloserve.Prelude.{
  ℤ, pos, ◌+ℤ◌, eq_ℤ, Bool, true, false, not, ◌||◌, ◌&&◌, String, Option, none, some, List, [], ◌∷◌,
  ◌++◌, length, map, filter_map, Result, ok, err, raise_if, value_error, ◌>>◌, ◌>>=◌, if◌then◌else◌,
}
use sloserve.Float.{Float, ◌⊘◌, float}
use sloserve.Float.Sequences.{maximum}
use sloserve.Router.Models.{RequestClass, interactive, batch, value}
use sloserve.Analysis.Queueing.{total}
use sloserve.Analysis.Percentiles.{Percentiles}
use sloserve.Analysis.Attainment.{AttainmentSummary}
use sloserve.Analysis.Metrics.{MetricsSummary, is_class, is_present}

module _ ⦃f : Float⦄ where
  pub record GpuSample : Type 0 where
    pub timestamp_s : f.F
    pub utilization_percent : f.F
    pub memory_used_mib : f.F
    pub power_w : Option f.F

  -- The values that the report holds: a number, a truth value, an attainment, or the mean and the peak
  -- of a series of which one may be left out.
  pub data ReportValue : Type 0 where
    int_value : ℤ → ReportValue
    float_value : f.F → ReportValue
    bool_value : Bool → ReportValue
    attainment_value : (request_count met_count : ℤ) (rate : f.F) → ReportValue
    series_value : (mean : Option f.F) (peak : Option f.F) → ReportValue

  pub record ReportField : Type 0 where
    pub value : Option ReportValue
    pub missing_reason : Option String

  pub record CompletenessReport : Type 0 where
    pub scope_note : String
    pub request_scope : String
    pub metrics : List (String × ReportField)
    pub gpu : List (String × ReportField)

  abbrev same_truth : Bool → Bool → Bool
  same_truth true b = b
  same_truth false b = not b

  -- The constructor with `__post_init__`.
  unfoldable pub build_field : Option ReportValue → Option String → Result ReportField
  build_field value missing_reason = do
    raise_if (same_truth (not (is_present value)) (not (is_present missing_reason)))
        (value_error "report field must contain exactly one of value or missing_reason")
    ok (record { value = value; missing_reason = missing_reason })

  -- `_value_field`, `_missing_field` and `_optional_field`
  unfoldable pub value_field : ReportValue → Result ReportField
  unfolding build_field
  value_field value = build_field (some value) none

  unfoldable pub missing_field : String → Result ReportField
  unfolding build_field
  missing_field reason = build_field none (some reason)

  unfoldable pub optional_field : Option f.F → String → Result ReportField
  unfolding value_field missing_field
  optional_field none reason = missing_field reason
  optional_field (some x) reason = value_field (float_value x)

  -- `_attainment_field`
  unfoldable pub attainment_field : AttainmentSummary → Result ReportField
  unfolding value_field
  attainment_field s = value_field (attainment_value s.request_count s.met_count s.rate)

  abbrev mean_of : List f.F → f.F
  mean_of xs = total xs ⊘ float (pos (length xs))

  unfoldable pub power_field : List f.F → Result ReportField
  unfolding value_field missing_field
  power_field [] = missing_field "device did not report power"
  power_field (x ∷ xs) = value_field (series_value (some (mean_of (x ∷ xs))) (maximum (x ∷ xs)))

  -- The fields of a report, each built in turn.
  abbrev pub Entries : Type 0
  Entries = List (String × Result ReportField)

  unfoldable pub collect : Entries → Result (List (String × ReportField))
  collect [] = ok []
  collect ((name, field) ∷ entries) = do
    built ← field
    rest ← collect entries
    ok ((name, built) ∷ rest)

  -- `_gpu_report`
  unfoldable pub gpu_entries : String → List GpuSample → Entries
  unfolding value_field missing_field power_field
  gpu_entries reason [] =
      ("utilization_percent", missing_field reason)
      ∷ ("memory_used_mib", missing_field reason)
      ∷ ("power_w", missing_field reason)
      ∷ []
  gpu_entries reason (s ∷ ss) =
      let utilization = map (λ sample. sample.utilization_percent) (s ∷ ss) in
      let memory = map (λ sample. sample.memory_used_mib) (s ∷ ss) in
      let power = filter_map (λ sample. sample.power_w) (s ∷ ss) in
      (
        "utilization_percent",
        value_field (series_value (some (mean_of utilization)) (maximum utilization)),
      )
      ∷ ("memory_used_mib", value_field (series_value none (maximum memory)))
      ∷ ("power_w", power_field power)
      ∷ []

  -- The names and the reasons of a group's percentiles.
  unfoldable pub group_entries :
      (p50_field p95_field p99_field : String × String) → Percentiles → Entries
  unfolding optional_field
  group_entries p50_field p95_field p99_field p =
      (p50_field.0, optional_field p.p50 p50_field.1)
      ∷ (p95_field.0, optional_field p.p95 p95_field.1)
      ∷ (p99_field.0, optional_field p.p99 p99_field.1)
      ∷ []

  -- `metrics.slo_by_class.get(request_class)`
  abbrev pub summary_for :
      RequestClass → List (RequestClass × AttainmentSummary) → Option AttainmentSummary
  summary_for class [] = none
  summary_for class ((c, s) ∷ rest) =
      let found = summary_for class rest in if is_class c class then some s else found

  unfoldable pub class_field : Option AttainmentSummary → Result ReportField
  unfolding attainment_field missing_field
  class_field none = missing_field "no formal requests of this class"
  class_field (some s) = attainment_field s

  unfoldable pub count_entries : MetricsSummary → Entries
  unfolding value_field optional_field attainment_field
  count_entries m =
      ("formal_request_count", value_field (int_value m.request_count))
      ∷ (
        "token_throughput_per_s",
        optional_field m.token_throughput_per_s "formal request wall-clock window is empty or zero",
      )
      ∷ ("success_count", value_field (int_value m.success_count))
      ∷ ("error_count", value_field (int_value m.error_count))
      ∷ ("timeout_count", value_field (int_value m.timeout_count))
      ∷ ("cancelled_count", value_field (int_value m.cancelled_count))
      ∷ ("rejected_count", value_field (int_value m.rejected_count))
      ∷ ("clip_applied_count", value_field (int_value m.clip_applied_count))
      ∷ (
        "clip_applied_rate",
        optional_field m.clip_applied_rate "request facts predate clipping instrumentation",
      )
      ∷ ("realized_truncation_count", value_field (int_value m.realized_truncation_count))
      ∷ (
        "realized_truncation_rate",
        optional_field m.realized_truncation_rate "request facts predate clipping instrumentation",
      )
      ∷ (
        "mean_cap_reduction_tokens",
        optional_field m.mean_cap_reduction_tokens
            "no formal request had its backend output cap reduced",
      )
      ∷ (
        "terminal_count_matches_request_count",
        value_field (
            bool_value (
              eq_ℤ
                (m.success_count +ℤ m.error_count +ℤ m.timeout_count +ℤ m.cancelled_count
                  +ℤ m.rejected_count)
                m.request_count)),
      )
      ∷ (
        "longest_queue_wait_s",
        optional_field m.longest_queue_wait_s "no formal request was dispatched",
      )
      ∷ (
        "queue_wait_mean_s",
        optional_field m.queue_wait_mean_s "no successful formal request was dispatched",
      )
      ∷ ("slo_overall", attainment_field m.slo_overall)
      ∷ ("slo_attainment_gap", value_field (float_value m.slo_attainment_gap))
      ∷ ("jain_fairness_index", value_field (float_value m.jain_fairness_index))
      ∷ []

  unfoldable pub class_entries : MetricsSummary → Entries
  unfolding class_field
  class_entries m =
      ("slo_interactive", class_field (summary_for interactive m.slo_by_class))
      ∷ ("slo_batch", class_field (summary_for batch m.slo_by_class))
      ∷ []

  unfoldable pub metric_entries : MetricsSummary → Entries
  unfolding group_entries count_entries class_entries
  metric_entries m =
      group_entries ("ttft_p50_s", "no formal requests eligible for ttft p50")
        ("ttft_p95_s", "no formal requests eligible for ttft p95")
        ("ttft_p99_s", "no formal requests eligible for ttft p99") m.ttft_s
      ++ group_entries ("tpot_p50_s", "no formal requests eligible for tpot p50")
          ("tpot_p95_s", "no formal requests eligible for tpot p95")
          ("tpot_p99_s", "no formal requests eligible for tpot p99") m.tpot_s
      ++ group_entries ("end_to_end_p50_s", "no formal requests eligible for end_to_end p50")
          ("end_to_end_p95_s", "no formal requests eligible for end_to_end p95")
          ("end_to_end_p99_s", "no formal requests eligible for end_to_end p99") m.end_to_end_s
      ++ group_entries ("queue_wait_p50_s", "no formal requests eligible for queue_wait p50")
          ("queue_wait_p95_s", "no formal requests eligible for queue_wait p95")
          ("queue_wait_p99_s", "no formal requests eligible for queue_wait p99") m.queue_wait_s
      ++ count_entries m
      ++ class_entries m

  -- `build_completeness_report`, with the notes that it copies.
  unfoldable pub build_completeness_report :
      (scope_note gpu_reason : String) → MetricsSummary → List GpuSample → Result CompletenessReport
  unfolding collect metric_entries gpu_entries
  build_completeness_report scope_note gpu_reason m samples = do
    metrics ← collect (metric_entries m)
    gpu ← collect (gpu_entries gpu_reason samples)
    ok (record {
      scope_note = scope_note;
      request_scope = "formal requests only; warmup records are persisted but excluded";
      metrics = metrics;
      gpu = gpu;
    })
