-- ===== src/Experiments/Benchmark.antt =====
-- src/sloserve/experiments/benchmark.py: the requests of a repetition on the clock, and the join of
-- the queue's results with the backend's telemetry. The SHA-256 pattern is a parameter.
pub mod Join
use text.Mathlib.Text.{◌==◌ as str_eq}
use sloserve.Prelude.{
  ℕ, ℤ, pos, ltb_ℤ, leb_ℤ, eq_ℤ, Bool, true, false, not, ◌&&◌, ◌||◌, ◌==◌, String, Option, none,
  some, List, [], ◌∷◌, length, select, map, Result, ok, err, raise_if, runtime_error, ◌>>◌, ◌>>=◌,
  if◌then◌else◌,
}
use sloserve.Float.{Float, ◌≺◌, ◌⊕◌, ◌⊖◌, zero_f}
use sloserve.Config.{SchedulerPolicyName}
use sloserve.Config.Workload.{WorkloadConfig}
use sloserve.Router.Models.{RequestEnvelope, construct}
use sloserve.Router.Clipping.{OutputClipper, apply}
use sloserve.Router.Admission.{AdmissionResult}
use sloserve.Metrics.Records.{RequestRecord, from_envelope}
use sloserve.Workload.HttpBackend.{HttpCallTelemetry}

module _ ⦃f : Float⦄ where
  -- `_place_on_clock`
  unfoldable pub place_on_clock : RequestEnvelope → f.F → Result RequestEnvelope
  place_on_clock e start = construct (record e {
    arrival_time_s = start ⊕ e.arrival_time_s;
    deadline_time_s = start ⊕ e.deadline_time_s;
  })

  -- The envelopes of a repetition: placed on the clock, and clipped here unless the queue does it.
  unfoldable pub envelopes_of :
      Bool → OutputClipper → f.F → List RequestEnvelope → Result (List RequestEnvelope)
  unfolding place_on_clock
  envelopes_of adaptive clipper start [] = ok []
  envelopes_of adaptive clipper start (e ∷ es) = do
    placed ← place_on_clock e start
    envelope ← (if adaptive then ok placed else apply clipper placed)
    rest ← envelopes_of adaptive clipper start es
    ok (envelope ∷ rest)

  -- `_submit_at_arrival`: the delay that is slept before the submission, where there is one.
  unfoldable pub delay_before : RequestEnvelope → f.F → Option f.F
  delay_before e now =
      let delay_s = e.arrival_time_s ⊖ now in if zero_f ≺ delay_s then some delay_s else none

  -- `{result.sequence_id: result for result in results}`
  abbrev pub put : AdmissionResult → List AdmissionResult → List AdmissionResult
  put r [] = r ∷ []
  put r (x ∷ xs) =
      let rest = put r xs in if eq_ℤ x.sequence_id r.sequence_id then r ∷ xs else x ∷ rest

  abbrev pub put_all : List AdmissionResult → List AdmissionResult → List AdmissionResult
  put_all by_sequence [] = by_sequence
  put_all by_sequence (r ∷ rs) = put_all (put r by_sequence) rs

  abbrev pub lookup : ℤ → List AdmissionResult → Option AdmissionResult
  lookup n [] = none
  lookup n (x ∷ xs) = let rest = lookup n xs in if eq_ℤ x.sequence_id n then some x else rest

  abbrev pub or_missing : Option AdmissionResult → Result AdmissionResult
  or_missing none = err (runtime_error "missing admission result for sequence")
  or_missing (some r) = ok r

  -- Telemetry is read for a dispatched request only.
  abbrev pub telemetry_of :
      (String → Option HttpCallTelemetry) → AdmissionResult → Option f.F → Option HttpCallTelemetry
  telemetry_of telemetry_by_request r none = none
  telemetry_of telemetry_by_request r (some dispatch) = telemetry_by_request r.request_id

  abbrev pub first_token_of : Option HttpCallTelemetry → Option f.F
  first_token_of none = none
  first_token_of (some t) = t.first_token_time_s

  abbrev pub output_tokens_of : Option HttpCallTelemetry → ℤ
  output_tokens_of none = pos 0
  output_tokens_of (some t) = t.output_tokens

  abbrev pub error_of : Option HttpCallTelemetry → Option String
  error_of none = none
  error_of (some t) = t.error

  abbrev pub finish_reason_of : Option HttpCallTelemetry → Option String
  finish_reason_of none = none
  finish_reason_of (some t) = t.finish_reason

  -- `result.error_message or other`
  abbrev pub or_other : Option String → Option String → Option String
  or_other none other = other
  or_other (some text) other = if str_eq text "" then other else some text

  module _ (fullmatch : String → Bool) (telemetry_by_request : String → Option HttpCallTelemetry)
      (policy_name : SchedulerPolicyName) (config_hash : String) (repetition_index : ℤ)
      (env_version : String) where
    -- The record of one request.
    abbrev pub record_from : AdmissionResult → Option HttpCallTelemetry → Result RequestRecord
    record_from r t =
        from_envelope fullmatch r.effective_envelope r.enqueue_time_s r.dispatch_time_s
          (first_token_of t) r.completion_time_s (output_tokens_of t) r.status
          (or_other r.error_message (error_of t)) policy_name config_hash repetition_index
          env_version (finish_reason_of t)

    -- The body of the loop.
    unfoldable pub join_one : List AdmissionResult → RequestEnvelope → Result RequestRecord
    join_one by_sequence e = do
      r ← or_missing (lookup e.sequence_id by_sequence)
      raise_if
          (not (str_eq r.request_id e.request_id)
            || not (str_eq r.request_id r.effective_envelope.request_id))
          (runtime_error "admission result identity does not match generated request")
      raise_if (not (eq_ℤ r.sequence_id r.effective_envelope.sequence_id))
          (runtime_error "effective envelope sequence does not match admission result")
      record_from r (telemetry_of telemetry_by_request r r.dispatch_time_s)

    unfoldable pub join_each :
        List AdmissionResult → List RequestEnvelope → Result (List RequestRecord)
    unfolding join_one
    join_each by_sequence [] = ok []
    join_each by_sequence (e ∷ es) = do
      r ← join_one by_sequence e
      rest ← join_each by_sequence es
      ok (r ∷ rest)

    -- `_join_repetition`
    unfoldable pub join_repetition :
        List RequestEnvelope → List AdmissionResult → Result (List RequestRecord)
    unfolding join_each
    join_repetition envelopes results = do
      let by_sequence = put_all [] results
      raise_if (not (length by_sequence == length envelopes))
          (runtime_error "admission results do not map one-to-one to generated requests")
      join_each by_sequence envelopes

  -- The records that are not of the warm-up.
  unfoldable pub formal_records : WorkloadConfig → List RequestRecord → List RequestRecord
  formal_records c = select (λ r. leb_ℤ c.warmup_requests r.sequence_id)
