-- ===== src/Analysis/Gates.antt =====
-- src/sloserve/analysis/expl.py: the gates that a run of the experiment must pass. The failures that a
-- message joins are not part of it here.
pub mod Thrash
use sloserve.Prelude.{
  ℕ, ℤ, pos, ltb, ltb_ℤ, eq_ℤ, leb_ℤ, Bool, true, false, not, ◌&&◌, ◌||◌, String, Option, none,
  some, List, [], ◌∷◌, ◌++◌, length, any, select, map, Result, ok, raise_if, value_error,
  pre_registration_failure, ◌>>◌, ◌>>=◌, if◌then◌else◌,
}
use sloserve.Prelude.Sorting.{sorted}
use sloserve.Float.{Float, ◌≺◌, ◌≼◌, ◌⊖◌, ◌⊗◌, ◌⊘◌, zero_f, float, max_f}
use sloserve.Analysis.Seeds.{
  SeedValues, IntervalEstimate, paired_difference_interval, paired_ratio_interval,
}
use sloserve.Router.Controller.{AdaptiveClipLevel, AdaptiveClipTrigger, int}

module _ ⦃f : Float⦄ where
  pub record DecisionFact : Type 0 where
    pub request_id : String
    pub repetition_index : ℤ
    pub decision_time_s : f.F
    pub q_inst : ℤ
    pub q_bar : f.F
    pub old_level : AdaptiveClipLevel
    pub new_level : AdaptiveClipLevel
    pub selected_cap : Option ℤ
    pub trigger_reason : AdaptiveClipTrigger

  -- `DecisionFact.pressure`
  unfoldable pub pressure_of : DecisionFact → f.F
  pressure_of d = max_f (float d.q_inst) d.q_bar

  pub record LowLoadEvidence : Type 0 where
    pub clip_applied_count : ℤ
    pub realized_truncation_count : ℤ
    pub every_backend_cap_matches_request : Bool
    pub every_decision_is_l0 : Bool
    pub paired_trace_equal : Bool
    pub no_clip_throughput_by_seed : SeedValues
    pub adaptive_throughput_by_seed : SeedValues

  module _ (ceil : f.F → ℤ) (fmean : List f.F → f.F) where
    unfoldable pub check_low_load_gate : LowLoadEvidence → Result IntervalEstimate
    check_low_load_gate e = do
      ratio ←
          paired_ratio_interval ceil fmean e.adaptive_throughput_by_seed
            e.no_clip_throughput_by_seed
      raise_if
          (not (eq_ℤ e.clip_applied_count (pos 0))
            || not (eq_ℤ e.realized_truncation_count (pos 0))
            || not e.every_backend_cap_matches_request
            || not e.every_decision_is_l0
            || not e.paired_trace_equal
            || ratio.low_95 ≺ f.of_decimal (pos 95) 2
            || f.of_decimal (pos 105) 2 ≺ ratio.high_95)
          (pre_registration_failure "low-load zero-utility gate failed")
      ok ratio

    unfoldable pub check_latency_benefit :
        (no_clip_wait adaptive_wait no_clip_slo adaptive_slo : SeedValues)
        → Result (IntervalEstimate × IntervalEstimate)
    check_latency_benefit no_clip_wait adaptive_wait no_clip_slo adaptive_slo = do
      wait_improvement ← paired_difference_interval ceil fmean no_clip_wait adaptive_wait
      slo_improvement ← paired_difference_interval ceil fmean adaptive_slo no_clip_slo
      raise_if (wait_improvement.low_95 ≼ zero_f || slo_improvement.low_95 ≼ zero_f) (
          pre_registration_failure
            "high-load latency benefit is not stable: a paired 95% interval contains zero")
      ok (wait_improvement, slo_improvement)

    unfoldable pub check_utility_recovery :
        (fixed_throughput adaptive_throughput fixed_truncation adaptive_truncation : SeedValues)
        → Result (IntervalEstimate × IntervalEstimate)
    check_utility_recovery fixed_throughput adaptive_throughput fixed_truncation
          adaptive_truncation =
        do
          throughput_gain ←
              paired_difference_interval ceil fmean adaptive_throughput fixed_throughput
          truncation_reduction ←
              paired_difference_interval ceil fmean fixed_truncation adaptive_truncation
          raise_if (throughput_gain.low_95 ≼ zero_f && truncation_reduction.low_95 ≼ zero_f) (
              pre_registration_failure
                "adaptive clipping neither stably improves throughput nor stably reduces truncation")
          ok (throughput_gain, truncation_reduction)

  -- `new_level > old_level`, and `new_level != old_level`.
  abbrev pub tightens : DecisionFact → Bool
  tightens d = ltb (int d.old_level) (int d.new_level)

  abbrev pub changes : DecisionFact → Bool
  changes d = ltb (int d.old_level) (int d.new_level) || ltb (int d.new_level) (int d.old_level)

  abbrev pub relaxes : DecisionFact → Bool
  relaxes d = ltb (int d.new_level) (int d.old_level)

  -- `_transition_facts`
  unfoldable pub transition_facts : List DecisionFact → List DecisionFact
  transition_facts = select changes

  -- `itertools.pairwise(facts)`
  abbrev pub pairwise {ℓ} : {A : Type ℓ} → List A → List (A × A)
  pairwise [] = []
  pairwise (x ∷ []) = []
  pairwise (x ∷ y ∷ ys) = (x, y) ∷ pairwise (y ∷ ys)

  abbrev same_bool : Bool → Bool → Bool
  same_bool true b = b
  same_bool false b = not b

  -- A change of direction within a repetition.
  abbrev pub reverses : DecisionFact → DecisionFact → Bool
  reverses previous current =
      eq_ℤ previous.repetition_index current.repetition_index
      && not (same_bool (tightens previous) (tightens current))

  pub record ReverseInterval : Type 0 where
    pub from_tighten : Bool
    pub to_relax : Bool
    pub interval_s : f.F
    pub required_hold_s : f.F

  pub record ThrashReport : Type 0 where
    pub transition_count : ℤ
    pub formal_dispatch_count : ℤ
    pub switch_fraction : f.F
    pub reverse_intervals : List ReverseInterval
    pub tighten_relax_retighten_cycles_s : List f.F

  module _ (tighten_hold_s relax_hold_s : f.F) where
    abbrev pub required_hold : DecisionFact → f.F
    required_hold previous = if tightens previous then relax_hold_s else tighten_hold_s

    unfoldable pub reverse_intervals_of : List (DecisionFact × DecisionFact) → List ReverseInterval
    reverse_intervals_of [] = []
    reverse_intervals_of ((previous, current) ∷ pairs) =
        let rest = reverse_intervals_of pairs in
        if reverses previous current
        then (record {
          from_tighten = tightens previous;
          to_relax = not (tightens current);
          interval_s = current.decision_time_s ⊖ previous.decision_time_s;
          required_hold_s = required_hold previous;
        })
          ∷ rest
        else rest

    unfoldable pub cycles_of : List DecisionFact → List f.F
    cycles_of [] = []
    cycles_of (a ∷ []) = []
    cycles_of (a ∷ b ∷ []) = []
    cycles_of (a ∷ b ∷ c ∷ rest) =
        let others = cycles_of (b ∷ c ∷ rest) in
        if eq_ℤ a.repetition_index b.repetition_index
          && eq_ℤ b.repetition_index c.repetition_index
          && tightens a
          && relaxes b
          && tightens c
        then (c.decision_time_s ⊖ a.decision_time_s) ∷ others
        else others

    unfoldable pub check_thrash : List DecisionFact → ℤ → Result ThrashReport
    unfolding transition_facts reverse_intervals_of cycles_of
    check_thrash decisions formal_dispatch_count = do
      raise_if (leb_ℤ formal_dispatch_count (pos 0))
          (value_error "formal_dispatch_count must be positive")
      let transitions = transition_facts decisions
      let intervals = reverse_intervals_of (pairwise transitions)
      raise_if (any (λ i. i.interval_s ≺ i.required_hold_s) intervals)
          (pre_registration_failure "control transition hold invariant failed")
      raise_if
          (float formal_dispatch_count ⊗ f.of_decimal (pos 10) 2 ≺ float (pos (length transitions)))
          (pre_registration_failure "adaptive level switches exceed 10% of formal dispatches")
      ok (record {
        transition_count = pos (length transitions);
        formal_dispatch_count = formal_dispatch_count;
        switch_fraction = float (pos (length transitions)) ⊘ float formal_dispatch_count;
        reverse_intervals = intervals;
        tighten_relax_retighten_cycles_s = cycles_of transitions;
      })

  -- The decisions of each repetition, in the order in which the repetitions first appear.
  abbrev pub group_into : DecisionFact → List (ℤ × List DecisionFact) → List (ℤ × List DecisionFact)
  group_into d [] = (d.repetition_index, d ∷ []) ∷ []
  group_into d ((n, facts) ∷ groups) =
      let rest = group_into d groups in
      if eq_ℤ n d.repetition_index then (n, facts ++ d ∷ []) ∷ groups else (n, facts) ∷ rest

  unfoldable pub by_repetition :
      List (ℤ × List DecisionFact) → List DecisionFact → List (ℤ × List DecisionFact)
  by_repetition groups [] = groups
  by_repetition groups (d ∷ ds) = by_repetition (group_into d groups) ds

  abbrev pub is_anomaly : DecisionFact × DecisionFact → Bool
  is_anomaly (previous, current) =
      ltb_ℤ previous.q_inst current.q_inst
      && (pressure_of current ≺ pressure_of previous
          || ltb (int current.new_level) (int previous.new_level))

  abbrev pub anomalies_of : List (ℤ × List DecisionFact) → List (DecisionFact × DecisionFact)
  anomalies_of [] = []
  anomalies_of ((n, facts) ∷ groups) =
      select is_anomaly (pairwise (sorted f.lt (λ d. d.decision_time_s) facts))
      ++ anomalies_of groups

  unfoldable pub check_directionality : List DecisionFact → Result (Unit {0})
  unfolding by_repetition
  check_directionality decisions = do
    raise_if (ltb 0 (length (anomalies_of (by_repetition [] decisions))))
        (pre_registration_failure "q_inst rose while persisted pressure or level became looser")
