-- ===== src/Experiments/Benchmark/Join.antt =====
-- About the join of experiments/benchmark.py.
use text.Mathlib.Text.{◌==◌ as str_eq}
use text.Mathlib.TextEquality.{eq_iff}
use sloserve.Prelude.{
  if◌then◌else◌, refl, ◌==◌, ℤ, pos, eq_ℤ, Bool, true, false, not, ◌||◌, String, Option, none, some,
  List, [], ◌∷◌, length, ok, raise_if, raise_if-ok, >>-eq-ok, >>=-eq-ok, ◌≡◌, arith, if-cases, inl,
  inr, ap, ◌∙◌, sym, subst,
}
use sloserve.Float.{Float}
use sloserve.Config.{SchedulerPolicyName}
use sloserve.Router.Models.{RequestEnvelope}
use sloserve.Router.Admission.{AdmissionResult}
use sloserve.Metrics.Records.{RequestRecord, from_envelope}
use sloserve.Metrics.Records.Timeline.{build_record_timeline}
use sloserve.Workload.HttpBackend.{HttpCallTelemetry}
use sloserve.Experiments.Benchmark.{
  lookup, or_missing, join_one, join_each, join_repetition, telemetry_of, put_all, first_token_of,
  output_tokens_of, finish_reason_of, error_of, or_other,
}

eq_ℤ-eq : (a b : ℤ) → eq_ℤ a b ≡ true → a ≡ b
eq_ℤ-eq a b h = ground arith

not-eq_ℤ-eq : (a b : ℤ) → not (eq_ℤ a b) ≡ false → a ≡ b
not-eq_ℤ-eq a b h = ground arith

str_eq-eq : (s t : String) → not (str_eq s t) ≡ false → s ≡ t
str_eq-eq s t h = (eq_iff s t).0 (ground arith)

module _ ⦃f : Float⦄ where
  -- An error message of the queue, where there is one.
  abbrev pub own_message : Option String → Option String
  own_message none = none
  own_message (some text) = if str_eq text "" then none else some text

  or_other-own_message : (o : Option String) → or_other o none ≡ own_message o
  or_other-own_message none = refl
  or_other-own_message (some text) = refl

  or_missing-ok :
      (o : Option AdmissionResult) (r : AdmissionResult) → or_missing o ≡ ok r → o ≡ some r
  or_missing-ok none r h = absurd (cc)
  or_missing-ok (some a) r h = ground arith

  lookup-sequence_id :
      (n : ℤ) (rs : List AdmissionResult) (r : AdmissionResult)
      → lookup n rs ≡ some r
      → r.sequence_id ≡ n
  lookup-sequence_id n [] r h = absurd (cc)
  lookup-sequence_id n (x ∷ xs) r h = elim (if-cases (eq_ℤ x.sequence_id n) _ _ h) [
    | inl (e, k) ↦
        let same : x ≡ r = cc in ap (λ y. y.sequence_id) (sym same) ∙ eq_ℤ-eq x.sequence_id n e
    | inr (e, k) ↦ lookup-sequence_id n xs r k
  ]

  -- A record stands for its request and for the queue's result on it, and takes nothing of the
  -- telemetry where the request was not dispatched: its error is then the queue's own message, if
  -- that is not empty.
  pub record StandsFor (results : List AdmissionResult) (e : RequestEnvelope) (r : RequestRecord)
      : Type 0 where
    pub result : AdmissionResult
    pub found : lookup e.sequence_id results ≡ some result
    pub same_id : r.request_id ≡ e.request_id
    pub same_sequence : r.sequence_id ≡ e.sequence_id
    pub same_status : r.status ≡ result.status
    pub same_enqueue : r.enqueue_time_s ≡ result.enqueue_time_s
    pub same_dispatch : r.dispatch_time_s ≡ result.dispatch_time_s
    pub same_completion : r.completion_time_s ≡ result.completion_time_s
    pub untouched :
        r.dispatch_time_s ≡ none
        → (r.first_token_time_s ≡ none)
          × (r.output_tokens ≡ pos 0)
          × (r.finish_reason ≡ none)
          × (r.error_type ≡ own_message result.error_message)

  abbrev pub Aligned : List AdmissionResult → List RequestEnvelope → List RequestRecord → Type 0
  Aligned results [] [] = Unit
  Aligned results (e ∷ es) (r ∷ rs) = StandsFor results e r × Aligned results es rs
  Aligned results _ _ = ⊥

  module _ (fullmatch : String → Bool) (telemetry_by_request : String → Option HttpCallTelemetry)
      (policy_name : SchedulerPolicyName) (config_hash : String) (repetition_index : ℤ)
      (env_version : String) where
    join_one-StandsFor :
        (rs : List AdmissionResult) (e : RequestEnvelope) (r : RequestRecord)
        → join_one fullmatch telemetry_by_request policy_name config_hash repetition_index
            env_version rs e
          ≡ ok r
        → StandsFor rs e r
    unfolding join_one from_envelope
    join_one-StandsFor rs e r h =
        let (a, found, h) = >>=-eq-ok (or_missing (lookup e.sequence_id rs)) _ h in
        let (ids, h) =
          >>-eq-ok
            (raise_if
              (not (str_eq a.request_id e.request_id)
                || not (str_eq a.request_id a.effective_envelope.request_id))
              _)
            _ h in
        let (seqs, built) =
          >>-eq-ok (raise_if (not (eq_ℤ a.sequence_id a.effective_envelope.sequence_id)) _) _ h in
        let (same, _, _, _) = build_record_timeline fullmatch _ r built in
        let none_raised = raise_if-ok _ _ ids in
        let id₁ = str_eq-eq a.request_id e.request_id (ground arith) in
        let id₂ = str_eq-eq a.request_id a.effective_envelope.request_id (ground arith) in
        let at = lookup-sequence_id e.sequence_id rs a (or_missing-ok _ a found) in
        let seq =
          not-eq_ℤ-eq a.sequence_id a.effective_envelope.sequence_id (raise_if-ok _ _ seqs) in
        record {
          result = a;
          found = or_missing-ok _ a found;
          same_status = ap (λ x. x.status) same;
          same_enqueue = ap (λ x. x.enqueue_time_s) same;
          same_dispatch = ap (λ x. x.dispatch_time_s) same;
          same_completion = ap (λ x. x.completion_time_s) same;
          same_id = ap (λ x. x.request_id) same ∙ sym id₂ ∙ id₁;
          same_sequence = ap (λ x. x.sequence_id) same ∙ sym seq ∙ at;
          untouched = λ undispatched.
              let none_sent : a.dispatch_time_s ≡ none =
                sym (ap (λ x. x.dispatch_time_s) same) ∙ undispatched in
              let no_call : telemetry_of telemetry_by_request a a.dispatch_time_s ≡ none =
                ap (telemetry_of telemetry_by_request a) none_sent in
              (
                ap (λ x. x.first_token_time_s) same ∙ ap first_token_of no_call,
                ap (λ x. x.output_tokens) same ∙ ap output_tokens_of no_call,
                ap (λ x. x.finish_reason) same ∙ ap finish_reason_of no_call,
                ap (λ x. x.error_type) same
                    ∙ ap (λ t. or_other a.error_message (error_of t)) no_call
                    ∙ or_other-own_message a.error_message,
              );
        }

    join_each-Aligned :
        (rs : List AdmissionResult) (es : List RequestEnvelope) (records : List RequestRecord)
        → join_each fullmatch telemetry_by_request policy_name config_hash repetition_index
            env_version rs es
          ≡ ok records
        → Aligned rs es records
    unfolding join_each
    join_each-Aligned rs [] [] h = tt
    join_each-Aligned rs [] (r ∷ records) h = absurd (ground arith)
    join_each-Aligned rs (e ∷ es) records h =
        let (r, one, h) =
          >>=-eq-ok
            (join_one fullmatch telemetry_by_request policy_name config_hash repetition_index
              env_version rs e)
            _ h in
        let (others, each, h) =
          >>=-eq-ok
            (join_each fullmatch telemetry_by_request policy_name config_hash repetition_index
              env_version rs es)
            _ h in
        let same : (r ∷ others) ≡ records = ground arith in
        subst (Aligned rs (e ∷ es)) same
          (join_one-StandsFor rs e r one, join_each-Aligned rs es others each)

    -- A join that returns gives one record for each request, in the order of the requests: with its
    -- ids, with the status and the times of the queue's result on it, and with nothing of the
    -- telemetry (neither first token, tokens, finish reason nor error) where there was no dispatch.
    pub join_repetition-Aligned :
        (envelopes : List RequestEnvelope) (results : List AdmissionResult)
        (records : List RequestRecord)
        → join_repetition fullmatch telemetry_by_request policy_name config_hash repetition_index
            env_version envelopes results
          ≡ ok records
        → Aligned (put_all [] results) envelopes records
    unfolding join_repetition
    join_repetition-Aligned envelopes results records h =
        let (_, each) =
          >>-eq-ok (raise_if (not (length (put_all [] results) == length envelopes)) _) _ h in
        join_each-Aligned (put_all [] results) envelopes records each
