-- ===== src/Analysis/Metrics/Totals.antt =====
-- About the counts of the summary of analysis/metrics.py.
use sloserve.Prelude.{
  ℕ, if◌then◌else◌, ℤ, pos, ◌+◌, ◌≤◌, ◌+ℤ◌, ◌≤ℤ◌, ==_iff, List, [], ◌∷◌, length, count,
  length-select_le, filter_map, map, ok, ◌≡◌, refl, arith, suc, ℕ,
}
use sloserve.Float.{Float, IsOrdered, ◌⊖◌}
use sloserve.Config.Workload.{WorkloadConfig}
use sloserve.Workload.Dispatcher.{DispatchStatus, success, error, timeout, cancelled, rejected}
use sloserve.Metrics.Records.{RequestRecord, is_success, clip_applied}
use sloserve.Analysis.Percentiles.{IsCeiling}
use sloserve.Analysis.Percentiles.Ranks.{percentiles_total}
use sloserve.Analysis.Attainment.{attainment, meets_slo}
use sloserve.Analysis.Metrics.{
  MetricsSummary, summary_of, calculate_metrics, having, is_error, is_timeout, is_cancelled,
  is_rejected, is_true, is_present, is_length, instrumented, clipped, truncated, queue_wait_of,
  ttft_of, tpot_of,
}

module _ ⦃f : Float⦄ where
  one_status :
      (s : DispatchStatus) (a b c d e n : ℕ)
      → a + b + c + d + e ≡ n
      → (if is_success s then suc a else a)
          + (if is_error s then suc b else b)
          + (if is_timeout s then suc c else c)
          + (if is_cancelled s then suc d else d)
          + (if is_rejected s then suc e else e)
        ≡ suc n
  one_status success a b c d e n h = omega arith
  one_status error a b c d e n h = omega arith
  one_status timeout a b c d e n h = omega arith
  one_status cancelled a b c d e n h = omega arith
  one_status rejected a b c d e n h = omega arith

  statuses_add_up :
      (rs : List RequestRecord)
      → length (having is_success rs)
          + length (having is_error rs)
          + length (having is_timeout rs)
          + length (having is_cancelled rs)
          + length (having is_rejected rs)
        ≡ length rs
  statuses_add_up [] = refl
  statuses_add_up (r ∷ rs) = ground (arith, statuses_add_up rs, one_status r.status)

  met-le-success :
      (c : WorkloadConfig) (rs : List RequestRecord)
      → count (meets_slo c) rs ≤ length (having is_success rs)
  unfolding meets_slo
  met-le-success c [] = omega arith
  met-le-success c (r ∷ rs) = ground (arith, met-le-success c rs)

  clipped-le : (rs : List RequestRecord) → length (clipped rs) ≤ length rs
  unfolding clipped instrumented
  clipped-le rs = omega (
    arith,
    length-select_le (λ r. is_true (clip_applied r)) (instrumented rs),
    length-select_le (λ r. is_present (clip_applied r)) rs,
  )

  module _ (ceil : f.F → ℤ) (ceiling : IsCeiling ceil) (ordered : IsOrdered) where
    -- The summary of any records is calculated: the statuses add up to the records, what met its
    -- objectives succeeded, and the truncated are among the clipped and those among all.
    pub calculate_metrics_total :
        (records : List RequestRecord) (c : WorkloadConfig)
        → (s : MetricsSummary) × (calculate_metrics ceil records c ≡ ok s)
          × (s.request_count ≡ pos (length records))
          × (s.success_count +ℤ s.error_count +ℤ s.timeout_count +ℤ s.cancelled_count
                +ℤ s.rejected_count
              ≡ s.request_count)
          × (s.slo_overall.met_count ≤ℤ s.success_count)
          × (s.realized_truncation_count ≤ℤ s.clip_applied_count)
          × (s.clip_applied_count ≤ℤ s.request_count)
    unfolding calculate_metrics summary_of attainment instrumented clipped truncated ◌+ℤ◌
    calculate_metrics_total records c =
        let successes = having is_success records in
        let (ttft, e₁) = percentiles_total ceil ordered ceiling (filter_map ttft_of successes) in
        let (tpot, e₂) =
          percentiles_total ceil ordered ceiling
            (filter_map (λ r. tpot_of r r.first_token_time_s) successes) in
        let (end_to_end, e₃) =
          percentiles_total ceil ordered ceiling
            (map (λ r. r.completion_time_s ⊖ r.arrival_time_s) successes) in
        let (wait, e₄) =
          percentiles_total ceil ordered ceiling (filter_map queue_wait_of successes) in
        let sums = (==_iff _ _).1 (statuses_add_up records) in
        (
          summary_of records c ttft tpot end_to_end wait,
          rw (sums, e₁, e₂, e₃, e₄) refl,
          refl,
          ground (arith, statuses_add_up records),
          ground (arith, met-le-success c records),
          omega (arith, length-select_le (λ r. is_length r.finish_reason) (clipped records)),
          omega (arith, clipped-le records),
        )
