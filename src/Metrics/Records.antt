-- ===== src/Metrics/Records.antt =====
-- src/sloserve/metrics/records.py: the terminal facts of a request, with the checks of their timeline.
-- The match of the SHA-256 pattern is a parameter.
pub mod Timeline
use text.Mathlib.Text.{◌==◌ as str_eq}
use sloserve.Prelude.{
  ℤ, pos, ltb_ℤ, ◌-ℤ◌, Bool, true, false, not, ◌&&◌, ◌||◌, String, Option, none, some, List, [],
  ◌∷◌, any, Result, ok, raise_if, value_error, ◌>>◌, ◌>>=◌, if◌then◌else◌,
}
use sloserve.Float.{Float, ◌≺◌, zero_f}
use sloserve.Config.{SchedulerPolicyName}
use sloserve.Router.Models.{RequestEnvelope, RequestClass, below_one}
use sloserve.Router.Models
use sloserve.Workload.Dispatcher.{DispatchStatus, success}

abbrev pub is_success : DispatchStatus → Bool
is_success success = true
is_success _ = false

-- `value == ""`
abbrev pub is_empty_text : Option String → Bool
is_empty_text none = false
is_empty_text (some text) = str_eq text ""

abbrev pub is_some {ℓ} : {A : Type ℓ} → Option A → Bool
is_some none = false
is_some (some a) = true

module _ ⦃f : Float⦄ where
  pub record RequestRecord : Type 0 where
    pub request_id : String
    pub sequence_id : ℤ
    pub request_class : RequestClass
    pub arrival_time_s : f.F
    pub enqueue_time_s : f.F
    pub dispatch_time_s : Option f.F
    pub first_token_time_s : Option f.F
    pub completion_time_s : f.F
    pub input_tokens : ℤ
    pub output_tokens : ℤ
    pub status : DispatchStatus
    pub error_type : Option String
    pub policy_name : SchedulerPolicyName
    pub config_hash : String
    pub repetition_index : ℤ
    pub env_version : String
    pub requested_output_tokens : Option ℤ
    pub backend_max_output_tokens : Option ℤ
    pub finish_reason : Option String

  -- A time that is there and not finite.
  abbrev pub is_infinite : Option f.F → Bool
  is_infinite none = false
  is_infinite (some t) = not (f.is_finite t)

  abbrev pub check_limit : Option ℤ → Option ℤ → Result (Unit {0})
  check_limit requested none = ok tt
  check_limit none (some cap) =
      raise_if (ltb_ℤ cap (pos 1))
        (value_error "backend_max_output_tokens must be positive when present")
  check_limit (some requested) (some cap) = do
    raise_if (ltb_ℤ cap (pos 1))
        (value_error "backend_max_output_tokens must be positive when present")
    raise_if (ltb_ℤ requested cap)
        (value_error "backend_max_output_tokens must not exceed requested_output_tokens")

  -- The statements about the fields other than the times.
  unfoldable pub check_fields : (String → Bool) → RequestRecord → Result (Unit {0})
  check_fields fullmatch r = do
    raise_if (str_eq r.request_id "") (value_error "request_id must not be empty")
    raise_if (ltb_ℤ r.sequence_id (pos 0)) (value_error "sequence_id must be non-negative")
    raise_if (ltb_ℤ r.input_tokens (pos 1)) (value_error "input_tokens must be positive")
    raise_if (ltb_ℤ r.output_tokens (pos 0)) (value_error "output_tokens must be non-negative")
    raise_if (ltb_ℤ r.repetition_index (pos 0))
        (value_error "repetition_index must be non-negative")
    raise_if (str_eq r.env_version "") (value_error "env_version must not be empty")
    raise_if (not (fullmatch r.config_hash))
        (value_error "config_hash must be a lowercase SHA-256 hex digest")
    raise_if (is_empty_text r.error_type)
        (value_error "error_type must be null or a non-empty string")
    raise_if (is_empty_text r.finish_reason)
        (value_error "finish_reason must be null or a non-empty string")
    raise_if (below_one r.requested_output_tokens)
        (value_error "requested_output_tokens must be positive when present")
    check_limit r.requested_output_tokens r.backend_max_output_tokens

  abbrev pub check_first_token : RequestRecord → f.F → Option f.F → Result (Unit {0})
  check_first_token r dispatch none = ok tt
  check_first_token r dispatch (some first) = do
    raise_if (first ≺ dispatch) (value_error "first_token_time_s must not precede dispatch_time_s")
    raise_if (r.completion_time_s ≺ first)
        (value_error "completion_time_s must not precede first_token_time_s")
    raise_if (ltb_ℤ r.output_tokens (pos 1))
        (value_error "a first token requires output_tokens to be positive")

  abbrev pub check_dispatch : RequestRecord → Option f.F → Result (Unit {0})
  check_dispatch r none = do
    raise_if (is_some r.first_token_time_s)
        (value_error "records without dispatch cannot have first_token_time_s")
    raise_if (is_success r.status) (value_error "success records require dispatch_time_s")
    raise_if (r.completion_time_s ≺ r.enqueue_time_s)
        (value_error "completion_time_s must not precede enqueue_time_s")
  check_dispatch r (some dispatch) = do
    raise_if (dispatch ≺ r.enqueue_time_s)
        (value_error "dispatch_time_s must not precede enqueue_time_s")
    raise_if (r.completion_time_s ≺ dispatch)
        (value_error "completion_time_s must not precede dispatch_time_s")
    check_first_token r dispatch r.first_token_time_s

  -- `if self.status is DispatchStatus.SUCCESS:`
  abbrev pub check_success : RequestRecord → Result (Unit {0})
  check_success r = do
    raise_if (is_success r.status && not (is_some r.dispatch_time_s))
        (value_error "success records require dispatch_time_s")
    raise_if (is_success r.status && not (is_some r.first_token_time_s))
        (value_error "success records require first_token_time_s")
    raise_if (is_success r.status && ltb_ℤ r.output_tokens (pos 1))
        (value_error "success records require output_tokens to be positive")

  -- The statements about the times, and about a success.
  unfoldable pub check_timeline : RequestRecord → Result (Unit {0})
  check_timeline r = do
    let timestamps = r.arrival_time_s ∷ r.enqueue_time_s ∷ r.completion_time_s ∷ []
    raise_if (any (λ t. not (f.is_finite t)) timestamps) (value_error "timestamps must be finite")
    raise_if (any (λ t. t ≺ zero_f) timestamps) (value_error "timestamps must be non-negative")
    raise_if (is_infinite r.dispatch_time_s)
        (value_error "dispatch_time_s must be finite when present")
    raise_if (is_infinite r.first_token_time_s)
        (value_error "first_token_time_s must be finite when present")
    raise_if (r.enqueue_time_s ≺ r.arrival_time_s)
        (value_error "enqueue_time_s must not precede arrival_time_s")
    check_dispatch r r.dispatch_time_s
    check_success r

  -- The constructor with `__post_init__`.
  unfoldable pub build_record : (String → Bool) → RequestRecord → Result RequestRecord
  unfolding check_fields check_timeline
  build_record fullmatch r = do check_fields fullmatch r; check_timeline r; ok r

  -- The arguments that `RequestRecord.from_envelope` gives the constructor.
  abbrev pub record_of :
      RequestEnvelope
      → (enqueue : f.F) (dispatch first : Option f.F) (completion : f.F) → ℤ
      → DispatchStatus
      → Option String
      → SchedulerPolicyName
      → String
      → ℤ
      → String
      → Option String
      → RequestRecord
  record_of e enqueue dispatch first completion tokens status error_type policy hash index version
        finish =
      record {
        request_id = e.request_id;
        sequence_id = e.sequence_id;
        request_class = e.request_class;
        arrival_time_s = e.arrival_time_s;
        enqueue_time_s = enqueue;
        dispatch_time_s = dispatch;
        first_token_time_s = first;
        completion_time_s = completion;
        input_tokens = e.input_tokens;
        output_tokens = tokens;
        status = status;
        error_type = error_type;
        policy_name = policy;
        config_hash = hash;
        repetition_index = index;
        env_version = version;
        requested_output_tokens = some e.max_output_tokens;
        backend_max_output_tokens = some (Models.effective_max_output_tokens e);
        finish_reason = finish;
      }

  -- `RequestRecord.from_envelope`
  unfoldable pub from_envelope :
      (String → Bool)
      → RequestEnvelope
      → (enqueue : f.F) (dispatch first : Option f.F) (completion : f.F) → ℤ
      → DispatchStatus
      → Option String
      → SchedulerPolicyName
      → String
      → ℤ
      → String
      → Option String
      → Result RequestRecord
  from_envelope fullmatch e enqueue dispatch first completion tokens status error_type policy hash
        index version finish =
      build_record fullmatch (
        record_of e enqueue dispatch first completion tokens status error_type policy hash index
          version finish)

  abbrev pub both : {A : Type 0} → (ℤ → ℤ → A) → Option ℤ → Option ℤ → Option A
  both g (some a) (some b) = some (g a b)
  both g _ _ = none

  unfoldable pub clip_applied : RequestRecord → Option Bool
  clip_applied r =
      both (λ requested cap. ltb_ℤ cap requested) r.requested_output_tokens
        r.backend_max_output_tokens

  unfoldable pub cap_reduction_tokens : RequestRecord → Option ℤ
  cap_reduction_tokens r =
      both (λ requested cap. requested -ℤ cap) r.requested_output_tokens r.backend_max_output_tokens
