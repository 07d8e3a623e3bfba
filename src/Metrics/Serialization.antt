-- ===== src/Metrics/Serialization.antt =====
-- src/sloserve/metrics/serialization.py: a request record as a JSON object, as a row of a CSV file,
-- and as a line of a JSONL file. The values of the two formats, with Python's `str`, `int` and
-- `float` on them, are a parameter, and so are `json.dumps` and `json.loads`.
pub mod Fields
pub mod RoundTrip
use text.Mathlib.Text.{◌==◌ as str_eq}
use sloserve.Prelude.{
  ℤ, pos, ℕ, suc, Bool, true, false, not, ◌&&◌, ◌||◌, ◌≡◌, String, Option, none, some, List, [],
  ◌∷◌, ◌++◌, any, map, Result, ok, err, raise_if, value_error, key_error, ◌>>◌, ◌>>=◌,
  if◌then◌else◌,
}
use sloserve.Float.{Float}
use sloserve.Config.{SchedulerPolicyName, fcfs, static_priority, slo_aware}
use sloserve.Workload.Dispatcher.{DispatchStatus, success, error, timeout, cancelled, rejected}
use sloserve.Router.Models.{RequestClass, interactive, batch, value}
use sloserve.Metrics.Records.{RequestRecord, build_record}

-- The member values of the enumerations.
abbrev pub status_value : DispatchStatus → String
status_value success = "success"
status_value error = "error"
status_value timeout = "timeout"
status_value cancelled = "cancelled"
status_value rejected = "rejected"

abbrev pub policy_value : SchedulerPolicyName → String
policy_value fcfs = "fcfs"
policy_value static_priority = "static_priority"
policy_value slo_aware = "slo_aware"

-- `DispatchStatus(raw)`: the member that has the value.
abbrev pub member {ℓ} : {A : Type ℓ} → (A → String) → List A → Option String → Result A
member value_of members none = err (value_error "not a member")
member value_of [] (some text) = err (value_error "not a member")
member value_of (a ∷ others) (some text) =
    let rest = member value_of others (some text) in if str_eq text (value_of a) then ok a else rest

abbrev pub classes : List RequestClass
classes = interactive ∷ batch ∷ []

abbrev pub statuses : List DispatchStatus
statuses = success ∷ error ∷ timeout ∷ cancelled ∷ rejected ∷ []

abbrev pub policies : List SchedulerPolicyName
policies = fcfs ∷ static_priority ∷ slo_aware ∷ []

abbrev pub legacy_field_names : List String
legacy_field_names =
    "request_id" ∷ "sequence_id" ∷ "request_class" ∷ "arrival_time_s" ∷ "enqueue_time_s"
    ∷ "dispatch_time_s" ∷ "first_token_time_s" ∷ "completion_time_s" ∷ "input_tokens"
    ∷ "output_tokens" ∷ "status" ∷ "error_type" ∷ "policy_name" ∷ "config_hash" ∷ "repetition_index"
    ∷ "env_version" ∷ []

-- The fields of `RequestRecord`, in order.
abbrev pub field_names : List String
field_names =
    legacy_field_names
    ++ "requested_output_tokens" ∷ "backend_max_output_tokens" ∷ "finish_reason" ∷ []

-- The values that a format reads and writes. `as_text` is a value's text where it is a string.
pub record Values ⦃f : Float⦄ : Type 1 where
  pub V : Type 0
  pub null : V
  pub of_text : String → V
  pub of_int : ℤ → V
  pub of_float : f.F → V
  pub is_null_or_empty : V → Bool
  pub as_text : V → Option String
  pub str : V → String
  pub int : V → Result ℤ
  pub float : V → Result f.F

module _ ⦃f : Float⦄ (v : Values) where
  abbrev pub Mapping : Type 0
  Mapping = List (String × v.V)

  abbrev pub or_null {ℓ} : {A : Type ℓ} → (A → v.V) → Option A → v.V
  or_null write none = v.null
  or_null write (some a) = write a

  -- The legacy fields, and the three that were added to them.
  abbrev pub legacy_mapping : RequestRecord → Mapping → Mapping
  legacy_mapping r added =
      ("request_id", v.of_text r.request_id)
      ∷ ("sequence_id", v.of_int r.sequence_id)
      ∷ ("request_class", v.of_text (value r.request_class))
      ∷ ("arrival_time_s", v.of_float r.arrival_time_s)
      ∷ ("enqueue_time_s", v.of_float r.enqueue_time_s)
      ∷ ("dispatch_time_s", or_null v.of_float r.dispatch_time_s)
      ∷ ("first_token_time_s", or_null v.of_float r.first_token_time_s)
      ∷ ("completion_time_s", v.of_float r.completion_time_s)
      ∷ ("input_tokens", v.of_int r.input_tokens)
      ∷ ("output_tokens", v.of_int r.output_tokens)
      ∷ ("status", v.of_text (status_value r.status))
      ∷ ("error_type", or_null v.of_text r.error_type)
      ∷ ("policy_name", v.of_text (policy_value r.policy_name))
      ∷ ("config_hash", v.of_text r.config_hash)
      ∷ ("repetition_index", v.of_int r.repetition_index)
      ∷ ("env_version", v.of_text r.env_version)
      ∷ added

  -- `_record_to_mapping`
  unfoldable pub record_to_mapping : RequestRecord → Mapping
  record_to_mapping r = legacy_mapping r (
      ("requested_output_tokens", or_null v.of_int r.requested_output_tokens)
      ∷ ("backend_max_output_tokens", or_null v.of_int r.backend_max_output_tokens)
      ∷ ("finish_reason", or_null v.of_text r.finish_reason)
      ∷ [])

  -- `data.get(name)`
  abbrev pub get : String → Mapping → Option v.V
  get name [] = none
  get name ((key, a) ∷ data_) =
      let rest = get name data_ in if str_eq key name then some a else rest

  -- `data[name]`
  abbrev pub required : Option v.V → Result v.V
  required none = err (key_error "missing field")
  required (some a) = ok a

  abbrev pub contains : List String → String → Bool
  contains names name = any (λ n. str_eq n name) names

  abbrev pub every : (String → Bool) → List String → Bool
  every p [] = true
  every p (x ∷ xs) = p x && every p xs

  -- `set(data) == set(names)`
  abbrev pub has_fields : List String → Mapping → Bool
  has_fields names data_ =
      let keys = map (λ entry. entry.0) data_ in
      every (contains keys) names && every (contains names) keys

  -- `None if raw in (None, "") else read(raw)`
  abbrev pub present {ℓ} : {A : Type ℓ} → (v.V → Result A) → v.V → Result (Option A)
  present read raw = elim (v.is_null_or_empty raw) [
    | true ↦ ok none
    | false ↦ read raw >>= λ a. ok (some a)
  ]

  -- The same for a field that may be missing.
  abbrev pub present_or_none {ℓ} : {A : Type ℓ} → (v.V → Result A) → Option v.V → Result (Option A)
  present_or_none read none = ok none
  present_or_none read (some raw) = present read raw

  -- `_record_from_mapping`
  unfoldable pub record_from_mapping : (String → Bool) → Mapping → Result RequestRecord
  record_from_mapping fullmatch data_ = do
    raise_if (not (has_fields field_names data_ || has_fields legacy_field_names data_))
        (value_error "request record fields differ")
    dispatch_raw ← required (get "dispatch_time_s" data_)
    first_token_raw ← required (get "first_token_time_s" data_)
    error_type_raw ← required (get "error_type" data_)
    request_id ← required (get "request_id" data_)
    sequence_id ← required (get "sequence_id" data_) >>= v.int
    class_raw ← required (get "request_class" data_)
    request_class ← member value classes (v.as_text class_raw)
    arrival ← required (get "arrival_time_s" data_) >>= v.float
    enqueue ← required (get "enqueue_time_s" data_) >>= v.float
    dispatch ← present v.float dispatch_raw
    first_token ← present v.float first_token_raw
    completion ← required (get "completion_time_s" data_) >>= v.float
    input_tokens ← required (get "input_tokens" data_) >>= v.int
    output_tokens ← required (get "output_tokens" data_) >>= v.int
    status_raw ← required (get "status" data_)
    status ← member status_value statuses (v.as_text status_raw)
    error_type ← present (λ raw. ok (v.str raw)) error_type_raw
    policy_raw ← required (get "policy_name" data_)
    policy ← member policy_value policies (v.as_text policy_raw)
    config_hash ← required (get "config_hash" data_)
    repetition_index ← required (get "repetition_index" data_) >>= v.int
    env_version ← required (get "env_version" data_)
    requested ← present_or_none v.int (get "requested_output_tokens" data_)
    backend_max ← present_or_none v.int (get "backend_max_output_tokens" data_)
    finish_reason ← present_or_none (λ raw. ok (v.str raw)) (get "finish_reason" data_)
    build_record fullmatch (record {
      request_id = v.str request_id;
      sequence_id = sequence_id;
      request_class = request_class;
      arrival_time_s = arrival;
      enqueue_time_s = enqueue;
      dispatch_time_s = dispatch;
      first_token_time_s = first_token;
      completion_time_s = completion;
      input_tokens = input_tokens;
      output_tokens = output_tokens;
      status = status;
      error_type = error_type;
      policy_name = policy;
      config_hash = v.str config_hash;
      repetition_index = repetition_index;
      env_version = v.str env_version;
      requested_output_tokens = requested;
      backend_max_output_tokens = backend_max;
      finish_reason = finish_reason;
    })
