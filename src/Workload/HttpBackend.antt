-- ===== src/Workload/HttpBackend.antt =====
-- src/sloserve/workload/http_backend.py: what one streaming call leaves in its telemetry. The HTTP
-- client, `json.loads`, the tests of types on what it gives, and the prefix of a line are parameters.
pub mod Stream
use text.Mathlib.Text.{◌==◌ as str_eq}
use sloserve.Prelude.{
  pre_registration_failure, zero_division_error, integrity_error, overflow_error, ℕ, ℤ, pos, suc,
  ◌+◌, ltb_ℤ, Bool, true, false, not, ◌&&◌, String, Option, none, some, List, [], ◌∷◌, ◌++◌, Result,
  ok, err, Exception, value_error, runtime_error, not_implemented_error, index_error, key_error,
  ◌>>=◌, if◌then◌else◌,
}
use sloserve.Float.{Float}
use sloserve.Router.Models.{RequestEnvelope, effective_max_output_tokens}

-- Values that `json.loads` gives, by their `isinstance` tests. An integer is not a Boolean.
pub record JsonTree : Type 1 where
  pub J : Type 0
  pub loads : String → Result J
  pub as_object : J → Option (String → Option J)
  pub as_list : J → Option (List J)
  pub as_text : J → Option String
  pub as_int : J → Option ℤ

-- `value.get(...)` and a type test, one after the other.
abbrev pub and_then {ℓ κ} : {A : Type ℓ} {B : Type κ} → Option A → (A → Option B) → Option B
and_then none next = none
and_then (some a) next = next a

abbrev pub head {ℓ} : {A : Type ℓ} → List A → Option A
head [] = none
head (x ∷ xs) = some x

abbrev pub is_given {ℓ} : {A : Type ℓ} → Option A → Bool
is_given none = false
is_given (some a) = true

-- The later of two values where both are there.
abbrev pub later_of {ℓ} : {A : Type ℓ} → Option A → Option A → Option A
later_of earlier none = earlier
later_of earlier (some a) = some a

abbrev pub or_count : Option ℤ → ℕ → ℤ
or_count none count = pos count
or_count (some usage) count = usage

-- The body of the call.
pub record Body : Type 0 where
  pub model : String
  pub max_tokens : ℤ
  pub min_tokens : Option ℤ

-- `str(exc)`
abbrev pub message : Exception → String
message (value_error text) = text
message (runtime_error text) = text
message (pre_registration_failure text) = text
message (zero_division_error text) = text
message (integrity_error text) = text
message (overflow_error text) = text
message (not_implemented_error text) = text
message (index_error text) = text
message (key_error text) = text

-- What the client gives: a line, or an exception while waiting for one.
pub data Piece : Type 0 where
  line : String → Piece
  broken : Exception → Piece

-- No answer at all, an answer whose status is not a success (with what `raise_for_status` raises), or
-- a stream.
pub data Response : Type 0 where
  failed : Exception → Response
  refused : ℤ → Exception → Response
  streamed : ℤ → List Piece → Response

module _ ⦃f : Float⦄ where
  unfoldable pub body_of : String → RequestEnvelope → Body
  body_of model r = record {
    model = model;
    max_tokens = effective_max_output_tokens r;
    min_tokens = if r.force_exact_output_tokens then some (effective_max_output_tokens r) else none;
  }

  pub record HttpCallTelemetry : Type 0 where
    pub first_token_time_s : Option f.F
    pub output_tokens : ℤ
    pub http_status : Option ℤ
    pub finish_reason : Option String
    pub error : Option String

  -- The telemetry with the two local variables.
  pub record Call : Type 0 where
    pub telemetry : HttpCallTelemetry
    pub content_delta_count : ℕ
    pub usage_output_tokens : Option ℤ

  unfoldable pub new_call : Call
  new_call = record {
    telemetry = record {
      first_token_time_s = none;
      output_tokens = pos 0;
      http_status = none;
      finish_reason = none;
      error = none;
    };
    content_delta_count = 0;
    usage_output_tokens = none;
  }

  module _ (json : JsonTree) where
    abbrev first_choice : (String → Option json.J) → Option (String → Option json.J)
    first_choice chunk =
        and_then (and_then (and_then (chunk "choices") json.as_list) head) json.as_object

    -- `isinstance(content, str) and content`
    abbrev non_empty : String → Option String
    non_empty text = if str_eq text "" then none else some text

    unfoldable pub content_of : (String → Option json.J) → Option String
    content_of chunk =
        and_then
          (and_then (first_choice chunk) (λ choice. and_then (choice "delta") json.as_object))
          (λ delta. and_then (and_then (delta "content") json.as_text) non_empty)

    unfoldable pub finish_reason_of : (String → Option json.J) → Option String
    finish_reason_of chunk =
        and_then (first_choice chunk) (λ choice. and_then (choice "finish_reason") json.as_text)

    abbrev at_least_zero : ℤ → Option ℤ
    at_least_zero n = if ltb_ℤ n (pos 0) then none else some n

    unfoldable pub usage_of : (String → Option json.J) → Option ℤ
    usage_of chunk =
        and_then (and_then (chunk "usage") json.as_object)
          (λ usage. and_then (and_then (usage "completion_tokens") json.as_int) at_least_zero)

    module _ (now : f.F) where
      -- A non-empty delta: it is counted, and the first one is timed.
      abbrev time_first : Option f.F → Option f.F
      time_first none = some now
      time_first (some t) = some t

      unfoldable pub on_content : Call → Option String → Call
      on_content c none = c
      on_content c (some content) =
          let count = suc c.content_delta_count in
          record c {
            content_delta_count = count;
            telemetry = record c.telemetry {
              output_tokens = pos count;
              first_token_time_s = time_first c.telemetry.first_token_time_s;
            };
          }

    unfoldable pub on_finish_reason : Call → Option String → Call
    on_finish_reason c none = c
    on_finish_reason c (some reason) = record c {
      telemetry = record c.telemetry { finish_reason = some reason };
    }

    unfoldable pub on_usage : Call → Option ℤ → Call
    on_usage c none = c
    on_usage c (some tokens) = record c {
      usage_output_tokens = some tokens;
      telemetry = record c.telemetry { output_tokens = tokens };
    }

    -- One decoded chunk; the clock reads `now` while it is handled.
    unfoldable pub on_chunk : f.F → Call → (String → Option json.J) → Call
    unfolding on_content on_finish_reason on_usage
    on_chunk now c chunk =
        on_usage (on_finish_reason (on_content now c (content_of chunk)) (finish_reason_of chunk))
          (usage_of chunk)

    abbrev pub or_not_object : Option (String → Option json.J) → Result (String → Option json.J)
    or_not_object none = err (value_error "SSE data must decode to a JSON object")
    or_not_object (some chunk) = ok chunk

    abbrev pub decode : String → Result (String → Option json.J)
    decode data_ = json.loads data_ >>= λ value. or_not_object (json.as_object value)

    -- After a line: on to the next one, or out of the loop.
    pub data Next : Type 0 where
      go_on : Call → Next
      leave : Call → Option Exception → Next

    abbrev pub handle_chunk : f.F → Call → Result (String → Option json.J) → Next
    handle_chunk now c (err e) = leave c (some e)
    handle_chunk now c (ok chunk) = go_on (on_chunk now c chunk)

    unfoldable pub handle_line : f.F → Call → Option String → Next
    unfolding on_chunk
    handle_line now c none = go_on c
    handle_line now c (some data_) = elim (str_eq data_ "[DONE]") [
      | true ↦ leave c none
      | false ↦ handle_chunk now c (decode data_)
    ]

    abbrev pub resume : Next → (Call → Call × Option Exception) → Call × Option Exception
    resume (go_on c) rest = rest c
    resume (leave c raised) rest = (c, raised)

    -- `data_of` is what follows the prefix `data: ` of a line that has it, and `clock k` what the clock
    -- reads while the piece `k` is handled.
    module _ (data_of : String → Option String) (clock : ℕ → f.F) where
      -- The loop over the lines: the call after it, and the exception that ended it.
      unfoldable pub stream : ℕ → Call → List Piece → Call × Option Exception
      unfolding handle_line
      stream k c [] = (c, none)
      stream k c (broken e ∷ pieces) = (c, some e)
      stream k c (line text ∷ pieces) =
          resume (handle_line (clock k) c (data_of text)) (λ c'. stream (suc k) c' pieces)

      abbrev pub with_status : ℤ → HttpCallTelemetry → HttpCallTelemetry
      with_status status t = record t { http_status = some status }

      abbrev pub with_error : HttpCallTelemetry → Exception → HttpCallTelemetry × Option Exception
      with_error t e = (record t { error = some (message e) }, some e)

      -- What follows the loop, and `except Exception as exc`.
      abbrev pub after_stream : Call × Option Exception → HttpCallTelemetry × Option Exception
      after_stream (c, none) = (
        record c.telemetry { output_tokens = or_count c.usage_output_tokens c.content_delta_count },
        none,
      )
      after_stream (c, some e) = with_error c.telemetry e

      -- `HttpStreamingBackend.send`
      unfoldable pub send : Response → HttpCallTelemetry × Option Exception
      unfolding stream new_call
      send (failed e) = with_error new_call.telemetry e
      send (refused status e) = with_error (with_status status new_call.telemetry) e
      send (streamed status pieces) =
          after_stream (
            stream 0 (record new_call { telemetry = with_status status new_call.telemetry }) pieces)
