-- ===== src/Metrics/Serialization/Fields.antt =====
-- About the fields of metrics/serialization.py: what each format gives back of what it was given.
use text.Mathlib.Text.{◌==◌ as str_eq}
use sloserve.Prelude.{
  ℤ, pos, ltb_ℤ, Bool, true, false, not, String, Option, none, some, ok, ◌≡◌, refl, arith, >>-eq-ok,
  raise_if, raise_if-ok, value_error,
}
use sloserve.Float.{Float}
use sloserve.Config.{SchedulerPolicyName, fcfs, static_priority, slo_aware}
use sloserve.Workload.Dispatcher.{DispatchStatus, success, error, timeout, cancelled, rejected}
use sloserve.Router.Models.{RequestClass, interactive, batch, value}
use sloserve.Metrics.Records.{
  RequestRecord, build_record, check_fields, check_timeline, is_empty_text, is_infinite,
}
use sloserve.Metrics.Serialization.{
  Values, member, classes, statuses, policies, status_value, policy_value, present, or_null,
}

pub class-member : (c : RequestClass) → member value classes (some (value c)) ≡ ok c
class-member interactive = refl
class-member batch = refl

pub status-member :
    (s : DispatchStatus) → member status_value statuses (some (status_value s)) ≡ ok s
status-member success = refl
status-member error = refl
status-member timeout = refl
status-member cancelled = refl
status-member rejected = refl

pub policy-member :
    (p : SchedulerPolicyName) → member policy_value policies (some (policy_value p)) ≡ ok p
policy-member fcfs = refl
policy-member static_priority = refl
policy-member slo_aware = refl

module _ ⦃f : Float⦄ where
  -- What the formats promise: a value written is read back, a float where it is finite.
  pub record IsFaithful (v : Values) : Type 0 where
    pub null_empty : v.is_null_or_empty v.null ≡ true
    pub int_present : (n : ℤ) → v.is_null_or_empty (v.of_int n) ≡ false
    pub float_present : (x : f.F) → v.is_null_or_empty (v.of_float x) ≡ false
    pub text_present : (s : String) → v.is_null_or_empty (v.of_text s) ≡ str_eq s ""
    pub as_text-of_text : (s : String) → v.as_text (v.of_text s) ≡ some s
    pub str-of_text : (s : String) → v.str (v.of_text s) ≡ s
    pub int-of_int : (n : ℤ) → v.int (v.of_int n) ≡ ok n
    pub float-of_float : (x : f.F) → f.is_finite x ≡ true → v.float (v.of_float x) ≡ ok x

  module _ (v : Values) (faithful : IsFaithful v) where
    pub present-int : (o : Option ℤ) → present v v.int (or_null v v.of_int o) ≡ ok o
    present-int none = rw (present, faithful.null_empty) refl
    present-int (some n) = rw (present, faithful.int_present n, faithful.int-of_int n) refl

    pub present-float :
        (o : Option f.F) → is_infinite o ≡ false → present v v.float (or_null v v.of_float o) ≡ ok o
    present-float none h = rw (present, faithful.null_empty) refl
    present-float (some x) h =
        let finite : f.is_finite x ≡ true = ground arith in
        rw (present, faithful.float_present x, faithful.float-of_float x finite) refl

    pub present-text :
        (o : Option String)
        → is_empty_text o ≡ false
        → present v (λ raw. ok (v.str raw)) (or_null v v.of_text o) ≡ ok o
    present-text none h = rw (present, faithful.null_empty) refl
    present-text (some s) h = rw (present, faithful.text_present s, h, faithful.str-of_text s) refl

  -- What the round trip needs of a record that its constructor accepts.
  pub record IsWritable (r : RequestRecord) : Type 0 where
    pub error_type : is_empty_text r.error_type ≡ false
    pub finish_reason : is_empty_text r.finish_reason ≡ false
    pub arrival : f.is_finite r.arrival_time_s ≡ true
    pub enqueue : f.is_finite r.enqueue_time_s ≡ true
    pub completion : f.is_finite r.completion_time_s ≡ true
    pub dispatch : is_infinite r.dispatch_time_s ≡ false
    pub first_token : is_infinite r.first_token_time_s ≡ false

  -- The checks on the texts, and those before them, which read no optional number.
  pub check_fields-parts :
      (fullmatch : String → Bool) (r : RequestRecord)
      → check_fields fullmatch r ≡ ok tt
      → (str_eq r.request_id "" ≡ false)
        × (ltb_ℤ r.sequence_id (pos 0) ≡ false)
        × (ltb_ℤ r.input_tokens (pos 1) ≡ false)
        × (ltb_ℤ r.output_tokens (pos 0) ≡ false)
        × (ltb_ℤ r.repetition_index (pos 0) ≡ false)
        × (str_eq r.env_version "" ≡ false)
        × (not (fullmatch r.config_hash) ≡ false)
        × (is_empty_text r.error_type ≡ false)
        × (is_empty_text r.finish_reason ≡ false)
  unfolding check_fields
  check_fields-parts fullmatch r h =
      let (a, h) = >>-eq-ok (raise_if (str_eq r.request_id "") _) _ h in
      let (b, h) = >>-eq-ok (raise_if (ltb_ℤ r.sequence_id (pos 0)) _) _ h in
      let (c, h) = >>-eq-ok (raise_if (ltb_ℤ r.input_tokens (pos 1)) _) _ h in
      let (d, h) = >>-eq-ok (raise_if (ltb_ℤ r.output_tokens (pos 0)) _) _ h in
      let (e, h) = >>-eq-ok (raise_if (ltb_ℤ r.repetition_index (pos 0)) _) _ h in
      let (g, h) = >>-eq-ok (raise_if (str_eq r.env_version "") _) _ h in
      let (i, h) = >>-eq-ok (raise_if (not (fullmatch r.config_hash)) _) _ h in
      let (j, h) = >>-eq-ok (raise_if (is_empty_text r.error_type) _) _ h in
      let (k, _) = >>-eq-ok (raise_if (is_empty_text r.finish_reason) _) _ h in
      (
        raise_if-ok _ _ a,
        raise_if-ok _ _ b,
        raise_if-ok _ _ c,
        raise_if-ok _ _ d,
        raise_if-ok _ _ e,
        raise_if-ok _ _ g,
        raise_if-ok _ _ i,
        raise_if-ok _ _ j,
        raise_if-ok _ _ k,
      )

  pub build_record-IsWritable :
      (fullmatch : String → Bool) (r s : RequestRecord)
      → build_record fullmatch r ≡ ok s
      → IsWritable r
  unfolding build_record check_timeline
  build_record-IsWritable fullmatch r s h =
      let (fields, h) = >>-eq-ok (check_fields fullmatch r) _ h in
      let (timeline, _) = >>-eq-ok (check_timeline r) _ h in
      let (_, _, _, _, _, _, _, e, k) = check_fields-parts fullmatch r fields in
      let (finite, h) =
        >>-eq-ok (raise_if _ (value_error "timestamps must be finite")) _ timeline in
      let (_, h) = >>-eq-ok (raise_if _ (value_error "timestamps must be non-negative")) _ h in
      let (d, h) = >>-eq-ok (raise_if (is_infinite r.dispatch_time_s) _) _ h in
      let (t, _) = >>-eq-ok (raise_if (is_infinite r.first_token_time_s) _) _ h in
      record {
        error_type = e;
        finish_reason = k;
        arrival = ground arith;
        enqueue = ground arith;
        completion = ground arith;
        dispatch = raise_if-ok _ _ d;
        first_token = raise_if-ok _ _ t;
      }
