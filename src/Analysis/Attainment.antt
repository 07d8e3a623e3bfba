-- ===== src/Analysis/Attainment.antt =====
-- src/sloserve/analysis/metrics.py: whether a request met its objectives, and how many did.
use sloserve.Prelude.{
  ℤ, pos, Bool, false, ◌&&◌, Option, none, some, List, length, count, ◌==◌, if◌then◌else◌,
}
use sloserve.Float.{Float, ◌≼◌, ◌⊖◌, ◌⊘◌, zero_f, float}
use sloserve.Config.Workload.{WorkloadConfig, RequestProfileConfig}
use sloserve.Metrics.Records.{RequestRecord, is_success}
use sloserve.Router.Models.{RequestClass, interactive, batch}

module _ ⦃f : Float⦄ where
  pub record AttainmentSummary : Type 0 where
    pub request_count : ℤ
    pub met_count : ℤ
    pub rate : f.F

  -- `_profile_for_class`
  unfoldable pub profile_for_class : RequestClass → WorkloadConfig → RequestProfileConfig
  profile_for_class interactive c = c.interactive
  profile_for_class batch c = c.batch

  abbrev pub within : RequestRecord → RequestProfileConfig → Option f.F → Bool
  within r profile none = false
  within r profile (some first_token_time_s) =
      let ttft_s = first_token_time_s ⊖ r.arrival_time_s in
      let end_to_end_s = r.completion_time_s ⊖ r.arrival_time_s in
      (ttft_s ≼ profile.ttft_slo_ms ⊘ float (pos 1000))
      && (end_to_end_s ≼ profile.end_to_end_slo_ms ⊘ float (pos 1000))

  -- `_meets_slo`
  unfoldable pub meets_slo : WorkloadConfig → RequestRecord → Bool
  unfolding profile_for_class
  meets_slo c r =
      if is_success r.status
      then within r (profile_for_class r.request_class c) r.first_token_time_s
      else false

  -- `_attainment`
  unfoldable pub attainment : List RequestRecord → WorkloadConfig → AttainmentSummary
  attainment records c =
      let met_count = count (meets_slo c) records in
      let request_count = length records in
      record {
        request_count = pos request_count;
        met_count = pos met_count;
        rate =
            if request_count == 0
            then zero_f
            else float (pos met_count) ⊘ float (pos request_count);
      }
