-- ===== src/Experiments/Correctness.antt =====
-- src/sloserve/experiments/correctness.py: what a run shows about starvation. The terminal statuses
-- are all five, but Python holds no record to the annotation of its status, so the analysis meets
-- others too. `math.ceil` is a parameter.
pub mod Depth
pub mod Waiting
pub mod Verdict
use sloserve.Prelude.{
  ℤ, pos, negsuc, ◌+ℤ◌, ◌-ℤ◌, ltb_ℤ, eq_ℤ, Bool, true, false, not, ◌&&◌, ◌||◌, String, Option, none,
  some, List, [], ◌∷◌, length, count, select, filter_map, map, any, Result, ok, raise_if,
  value_error, ◌>>◌, ◌>>=◌, if◌then◌else◌,
}
use sloserve.Prelude.Sorting.{sorted, lex}
use sloserve.Float.{Float, ◌≺◌, ◌≼◌, ◌⊕◌, ◌⊖◌, zero_f}
use sloserve.Float.Sequences.{maximum}
use sloserve.Workload.Dispatcher.{DispatchStatus}
use sloserve.Router.Models.{RequestClass, interactive, batch, value}
use sloserve.Metrics.Records.{RequestRecord, is_success, is_some}
use sloserve.Analysis.Percentiles.{nearest_rank, most}
use sloserve.Analysis.Metrics.{
  is_error, is_timeout, is_cancelled, is_rejected, is_class, queue_wait_of, or_zero, difference,
}

pub data StarvationVerdict : Type 0 where
  no_contention within_bound bound_exceeded : StarvationVerdict

-- `record.status in _TERMINAL_STATUSES`
-- A status that is no member of the enumeration is `none`.
abbrev pub is_terminal : Option DispatchStatus → Bool
is_terminal none = false
is_terminal (some s) = is_success s || is_error s || is_timeout s || is_cancelled s || is_rejected s

abbrev pub is_rejection : Option DispatchStatus → Bool
is_rejection none = false
is_rejection (some s) = is_rejected s

-- `_verdict`
unfoldable pub verdict_of :
    (max_queue_depth : ℤ) (all_terminal : Bool) (unfinished_count : ℤ) (within_aging_bound : Bool)
    → StarvationVerdict
verdict_of max_queue_depth all_terminal unfinished_count within_aging_bound =
    if ltb_ℤ max_queue_depth (pos 2)
    then no_contention
    else if all_terminal && eq_ℤ unfinished_count (pos 0) && within_aging_bound
    then within_bound
    else bound_exceeded

module _ ⦃f : Float⦄ where
  -- A record with the status that the analysis finds in it; the one in `facts` is not read.
  pub record Observed : Type 0 where
    pub facts : RequestRecord
    pub status : Option DispatchStatus

  abbrev pub facts_of : List Observed → List RequestRecord
  facts_of = map (λ o. o.facts)

  pub record ClassWaitSummary : Type 0 where
    pub request_class : String
    pub dispatched_count : ℤ
    pub max_queue_wait_s : Option f.F
    pub p95_queue_wait_s : Option f.F

  pub record PolicyCorrectness : Type 0 where
    pub policy_name : String
    pub formal_count : ℤ
    pub terminal_count : ℤ
    pub all_terminal : Bool
    pub dispatched_count : ℤ
    pub rejected_count : ℤ
    pub unfinished_count : ℤ
    pub max_queue_wait_s : f.F
    pub max_queue_depth : ℤ
    pub observed_max_service_s : f.F
    pub aging_threshold_s : f.F
    pub bound_margin_s : f.F
    pub aging_bound_s : f.F
    pub within_aging_bound : Bool
    pub class_waits : List ClassWaitSummary
    pub verdict : StarvationVerdict

  -- The arrival and the departure of a record that was dispatched.
  abbrev pub add_events : f.F → Option f.F → List (f.F × ℤ) → List (f.F × ℤ)
  add_events enqueue none events = events
  add_events enqueue (some dispatch) events = (enqueue, pos 1) ∷ (dispatch, negsuc 0) ∷ events

  unfoldable pub events_of : List RequestRecord → List (f.F × ℤ)
  events_of [] = []
  events_of (r ∷ rs) = add_events r.enqueue_time_s r.dispatch_time_s (events_of rs)

  abbrev pub max_ℤ : ℤ → ℤ → ℤ
  max_ℤ a b = if ltb_ℤ a b then b else a

  -- The loop over the events in order.
  unfoldable pub sweep : (depth peak : ℤ) → List (f.F × ℤ) → ℤ
  sweep depth peak [] = peak
  sweep depth peak (event ∷ events) =
      sweep (depth +ℤ event.1) (max_ℤ peak (depth +ℤ event.1)) events

  -- `_max_queue_depth`
  unfoldable pub max_queue_depth_of : List RequestRecord → ℤ
  unfolding events_of sweep
  max_queue_depth_of records =
      sweep (pos 0) (pos 0) (sorted (lex f.lt ltb_ℤ) (λ event. event) (events_of records))

  abbrev pub service_of : RequestRecord → Option f.F
  service_of r = difference (some r.completion_time_s) r.dispatch_time_s

  abbrev pub last : List f.F → Option f.F
  last [] = none
  last (x ∷ []) = some x
  last (x ∷ y ∷ ys) = last (y ∷ ys)

  -- The summaries that are returned.
  abbrev pub wait_summary : RequestClass → List f.F → Option f.F → ClassWaitSummary
  wait_summary class waits p95 = record {
    request_class = value class;
    dispatched_count = pos (length waits);
    max_queue_wait_s = last waits;
    p95_queue_wait_s = p95;
  }

  unfoldable pub evidence :
      List Observed
      → String
      → (aging_threshold_s bound_margin_s : f.F) → List ClassWaitSummary
      → PolicyCorrectness
  unfolding max_queue_depth_of verdict_of
  evidence formal policy_name aging_threshold_s bound_margin_s class_waits =
      let formal_count = pos (length formal) in
      let terminal_count = pos (count (λ r. is_terminal r.status) formal) in
      let all_terminal = eq_ℤ terminal_count formal_count in
      let unfinished_count = formal_count -ℤ terminal_count in
      let dispatched = select (λ r. is_some r.dispatch_time_s) (facts_of formal) in
      let max_queue_wait_s = or_zero (maximum (filter_map queue_wait_of dispatched)) in
      let max_queue_depth = max_queue_depth_of (facts_of formal) in
      let aging_bound_s = aging_threshold_s ⊕ bound_margin_s in
      let within_aging_bound = max_queue_wait_s ≼ aging_bound_s in
      record {
        policy_name = policy_name;
        formal_count = formal_count;
        terminal_count = terminal_count;
        all_terminal = all_terminal;
        dispatched_count = pos (length dispatched);
        rejected_count = pos (count (λ r. is_rejection r.status) formal);
        unfinished_count = unfinished_count;
        max_queue_wait_s = max_queue_wait_s;
        max_queue_depth = max_queue_depth;
        observed_max_service_s = or_zero (maximum (filter_map service_of dispatched));
        aging_threshold_s = aging_threshold_s;
        bound_margin_s = bound_margin_s;
        aging_bound_s = aging_bound_s;
        within_aging_bound = within_aging_bound;
        class_waits = class_waits;
        verdict = verdict_of max_queue_depth all_terminal unfinished_count within_aging_bound;
      }

  module _ (ceil : f.F → ℤ) where
    -- `_class_wait_summary`
    unfoldable pub class_wait_summary : List RequestRecord → RequestClass → Result ClassWaitSummary
    class_wait_summary dispatched class = do
      let chosen = select (λ r. is_class r.request_class class) dispatched
      let waits = sorted f.lt (λ x. x) (filter_map queue_wait_of chosen)
      p95 ← nearest_rank ceil waits most
      ok (wait_summary class waits p95)

    unfoldable pub analyze_policy :
        List Observed → String → (aging_threshold_s bound_margin_s : f.F) → Result PolicyCorrectness
    unfolding class_wait_summary evidence
    analyze_policy formal policy_name aging_threshold_s bound_margin_s = do
      raise_if (not (f.is_finite aging_threshold_s) || aging_threshold_s ≼ zero_f)
          (value_error "aging_threshold_s must be finite and positive")
      raise_if (not (f.is_finite bound_margin_s) || bound_margin_s ≺ zero_f)
          (value_error "bound_margin_s must be finite and non-negative")
      let dispatched = select (λ r. is_some r.dispatch_time_s) (facts_of formal)
      interactive_waits ← class_wait_summary dispatched interactive
      batch_waits ← class_wait_summary dispatched batch
      ok (
          evidence formal policy_name aging_threshold_s bound_margin_s
            (interactive_waits ∷ batch_waits ∷ []))
