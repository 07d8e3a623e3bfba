-- ===== src/Metrics/Records/Timeline.antt =====
-- About the constructor and `from_envelope` of metrics/records.py.
use sloserve.Prelude.{
  raise_if, raise_if-ok, value_error, ℤ, pos, ◌≤ℤ◌, ◌-ℤ◌, Bool, true, false, Option, none, some,
  String, ok, ◌≡◌, refl, arith, >>-eq-ok, ap,
}
use sloserve.Float.{Float, ◌≺◌}
use sloserve.Config.{SchedulerPolicyName}
use sloserve.Router.Models.{RequestEnvelope, effective_max_output_tokens}
use sloserve.Router.Models
use sloserve.Router.Models.Validity.{IsValid, effective_max_output_tokens_bounds}
use sloserve.Metrics.Records.{
  RequestRecord, build_record, from_envelope, record_of, check_fields, check_timeline,
  check_dispatch, check_success, clip_applied, cap_reduction_tokens, is_some,
}
use sloserve.Workload.Dispatcher.{DispatchStatus, success}

sub_nonneg_ℤ : (a b : ℤ) → a ≤ℤ b → pos 0 ≤ℤ b -ℤ a
unfolding ◌-ℤ◌
sub_nonneg_ℤ a b h = ground arith

module _ ⦃f : Float⦄ where
  -- Nothing happens before what it follows: the first token comes between dispatch and completion,
  -- and brings at least one token.
  abbrev pub IsDispatched : RequestRecord → Option f.F → Option f.F → Type 0
  IsDispatched r none none = (r.completion_time_s ≺ r.enqueue_time_s) ≡ false
  IsDispatched r none (some first) = ⊥
  IsDispatched r (some dispatch) none =
      ((dispatch ≺ r.enqueue_time_s) ≡ false) × ((r.completion_time_s ≺ dispatch) ≡ false)
  IsDispatched r (some dispatch) (some first) =
      ((dispatch ≺ r.enqueue_time_s) ≡ false)
      × ((first ≺ dispatch) ≡ false)
      × ((r.completion_time_s ≺ first) ≡ false)
      × (pos 1 ≤ℤ r.output_tokens)

  dispatch_timeline :
      (r : RequestRecord) (dispatch first : Option f.F)
      → r.first_token_time_s ≡ first
      → check_dispatch r dispatch ≡ ok tt
      → IsDispatched r dispatch first
  dispatch_timeline r none none e h = ground arith
  dispatch_timeline r none (some first) e h = absurd (ground arith)
  dispatch_timeline r (some dispatch) none e h = ground arith
  dispatch_timeline r (some dispatch) (some first) e h = ground arith

  timeline-parts :
      (r : RequestRecord)
      → check_timeline r ≡ ok tt
      → ((r.enqueue_time_s ≺ r.arrival_time_s) ≡ false)
        × (check_dispatch r r.dispatch_time_s ≡ ok tt)
        × (check_success r ≡ ok tt)
  unfolding check_timeline
  timeline-parts r h =
      let (_, h₁) = >>-eq-ok (raise_if _ (value_error "timestamps must be finite")) _ h in
      let (_, h₂) = >>-eq-ok (raise_if _ (value_error "timestamps must be non-negative")) _ h₁ in
      let (_, h₃) =
        >>-eq-ok (raise_if _ (value_error "dispatch_time_s must be finite when present")) _ h₂ in
      let (_, h₄) =
        >>-eq-ok (raise_if _ (value_error "first_token_time_s must be finite when present")) _ h₃ in
      let (after, h₅) = >>-eq-ok (raise_if (r.enqueue_time_s ≺ r.arrival_time_s) _) _ h₄ in
      let (sent, k) = >>-eq-ok (check_dispatch r r.dispatch_time_s) (check_success r) h₅ in
      (raise_if-ok _ _ after, sent, k)

  success_needs :
      (r : RequestRecord)
      → r.status ≡ success
      → check_success r ≡ ok tt
      → (is_some r.dispatch_time_s ≡ true)
        × (is_some r.first_token_time_s ≡ true)
        × (pos 1 ≤ℤ r.output_tokens)
  success_needs r k h = ground arith

  -- A record that the constructor accepts has a coherent timeline, and a success was dispatched and
  -- brought a first token.
  pub build_record_timeline :
      (fullmatch : String → Bool) (r s : RequestRecord)
      → build_record fullmatch r ≡ ok s
      → (s ≡ r)
        × ((r.enqueue_time_s ≺ r.arrival_time_s) ≡ false)
        × IsDispatched r r.dispatch_time_s r.first_token_time_s
        × (r.status ≡ success
            → (is_some r.dispatch_time_s ≡ true)
              × (is_some r.first_token_time_s ≡ true)
              × (pos 1 ≤ℤ r.output_tokens))
  unfolding build_record check_timeline
  build_record_timeline fullmatch r s h =
      let (_, h₁) = >>-eq-ok (check_fields fullmatch r) _ h in
      let (t, last) = >>-eq-ok (check_timeline r) _ h₁ in
      let (after, sent, done_) = timeline-parts r t in
      (
        cc,
        after,
        dispatch_timeline r r.dispatch_time_s r.first_token_time_s refl sent,
        λ k. success_needs r k done_,
      )

  -- The record of a valid envelope reports clipping as the envelope does, and no negative reduction.
  pub from_envelope-clip_applied :
      (fullmatch : String → Bool) (e : RequestEnvelope) (enqueue : f.F)
      (dispatch first : Option f.F) (completion : f.F) (tokens : ℤ) (status : DispatchStatus)
      (error_type : Option String) (policy : SchedulerPolicyName) (hash : String) (index : ℤ)
      (version : String) (finish : Option String) (r : RequestRecord)
      → IsValid e
      → from_envelope fullmatch e enqueue dispatch first completion tokens status error_type policy
          hash index version finish
        ≡ ok r
      → (clip_applied r ≡ some (Models.clip_applied e))
        × ((n : ℤ) × (cap_reduction_tokens r ≡ some n) × (pos 0 ≤ℤ n))
  unfolding from_envelope build_record clip_applied cap_reduction_tokens Models.clip_applied
  from_envelope-clip_applied fullmatch e enqueue dispatch first completion tokens status error_type
        policy hash index version finish r v h =
      let (same, _, _, _) =
        build_record_timeline fullmatch
          (record_of e enqueue dispatch first completion tokens status error_type policy hash index
            version finish)
          r h in
      let target : r.requested_output_tokens ≡ some e.max_output_tokens =
        ap (λ s. s.requested_output_tokens) same in
      let cap : r.backend_max_output_tokens ≡ some (effective_max_output_tokens e) =
        ap (λ s. s.backend_max_output_tokens) same in
      let (_, high, _) = effective_max_output_tokens_bounds e v in
      rw (target, cap)
        (
          refl,
          (
            e.max_output_tokens -ℤ effective_max_output_tokens e,
            refl,
            sub_nonneg_ℤ (effective_max_output_tokens e) e.max_output_tokens high,
          ),
        )
