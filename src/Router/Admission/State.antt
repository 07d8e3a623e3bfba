-- ===== src/Router/Admission/State.antt =====
-- The entries, the fields of the queue, and its reads. Entries are shared objects: the queue holds
-- their addresses in `waiting` and `entries`, and the heap holds every entry that was made.
use sloserve.Prelude.{
  ℕ, ℤ, pos, ◌==◌, ltb_ℤ, ◌-ℤ◌, Bool, true, false, Option, none, some, List, [], ◌∷◌, length,
  get_elem?, select, Result, ok, err, index_error, runtime_error, ◌>>=◌, if◌then◌else◌, String,
}
use sloserve.Float.{Float}
use sloserve.Router.Models.{RequestEnvelope}
use sloserve.Router.Policies.{SchedulingPolicy}
use sloserve.Router.Clipping.{OutputClipper}
use sloserve.Router.Controller.{AdaptiveClipController, AdaptiveClipDecision}
use sloserve.Workload.Dispatcher.{DispatchStatus}

pub data RequestState : Type 0 where
  waiting_state in_flight done : RequestState

abbrev pub is_done : RequestState → Bool
is_done done = true
is_done _ = false

abbrev pub is_in_flight : RequestState → Bool
is_in_flight in_flight = true
is_in_flight _ = false

-- `f"request exceeded total timeout of {timeout}s"`, without the number.
abbrev pub timeout_error_message : String
timeout_error_message = "request exceeded total timeout"

-- `dict.pop(key, None)`, and the removal of a list's one item at an address.
abbrev pub discard : ℕ → List ℕ → List ℕ
discard i [] = []
discard i (j ∷ js) = let rest = discard i js in if i == j then js else j ∷ rest

abbrev pub is_empty : List ℕ → Bool
is_empty [] = true
is_empty _ = false

abbrev pub head_of {ℓ} : {A : Type ℓ} → List A → Result A
head_of [] = err (index_error "list index out of range")
head_of (a ∷ rest) = ok a

module _ ⦃f : Float⦄ where
  -- An envelope as an object, so that `is` can compare two.
  pub record Envelope : Type 0 where
    pub object : ℕ
    pub request : RequestEnvelope

  pub record AdmissionResult : Type 0 where
    pub request_id : String
    pub sequence_id : ℤ
    pub status : DispatchStatus
    pub enqueue_time_s : f.F
    pub dispatch_time_s : Option f.F
    pub completion_time_s : f.F
    pub effective_envelope : RequestEnvelope
    pub error_message : Option String

  pub record AdaptiveAdmissionDecision : Type 0 where
    pub request_id : String
    pub decision : AdaptiveClipDecision

  -- `_QueueEntry`. `result` is the value of the future, `backend_task` the envelope that was sent, and
  -- `backend_cancelled` says that `backend_task.cancel()` was called.
  pub record QueueEntry : Type 0 where
    pub envelope : Envelope
    pub enqueue_time_s : f.F
    pub state : RequestState
    pub dispatch_time_s : Option f.F
    pub backend_task : Option RequestEnvelope
    pub backend_cancelled : Bool
    pub forced_status : Option DispatchStatus
    pub result : Option AdmissionResult

  pub record AdmissionQueue : Type 0 where
    pub queue_capacity : ℤ
    pub max_in_flight : ℤ
    pub request_timeout_s : f.F
    pub policy : SchedulingPolicy
    pub controller : Option AdaptiveClipController
    pub clipper : Option OutputClipper
    pub heap : List QueueEntry
    pub waiting : List ℕ
    pub entries : List ℕ
    pub started : Bool
    pub closing : Bool
    pub closed : Bool
    pub decisions : List AdaptiveAdmissionDecision
    pub reads : ℕ

  abbrev or_dangling : Option QueueEntry → Result QueueEntry
  or_dangling none = err (runtime_error "no entry at this address")
  or_dangling (some e) = ok e

  abbrev pub deref : AdmissionQueue → ℕ → Result QueueEntry
  deref q i = or_dangling (get_elem? q.heap i)

  abbrev pub flight_at : Option QueueEntry → Bool
  flight_at none = false
  flight_at (some e) = is_in_flight e.state

  -- `_in_flight_entries_locked`
  abbrev pub in_flight_entries : AdmissionQueue → List ℕ
  in_flight_entries q = select (λ i. flight_at (get_elem? q.heap i)) q.entries

  -- `_stable_waiting_depth_after_selected_locked`
  unfoldable pub stable_waiting_depth : AdmissionQueue → ℤ
  stable_waiting_depth q =
      let free = q.max_in_flight -ℤ pos (length (in_flight_entries q)) -ℤ pos 1 in
      let depth = pos (length q.waiting) -ℤ free in if ltb_ℤ (pos 0) depth then depth else pos 0

  -- The envelopes of the entries in `waiting`.
  unfoldable pub waiting_envelopes : AdmissionQueue → List ℕ → Result (List Envelope)
  waiting_envelopes q [] = ok []
  waiting_envelopes q (i ∷ is) =
      let later = waiting_envelopes q is in do e ← deref q i; rest ← later; ok (e.envelope ∷ rest)

  -- `next(index for index, entry in enumerate(waiting) if entry.envelope is envelope)`
  unfoldable pub find_envelope : AdmissionQueue → ℕ → List ℕ → Result ℕ
  find_envelope q object [] = err (runtime_error "StopIteration")
  find_envelope q object (i ∷ is) =
      let later = find_envelope q object is in
      do e ← deref q i; if e.envelope.object == object then ok i else later
