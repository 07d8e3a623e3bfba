-- ===== src/Router/Admission/Handlers.antt =====
-- The handlers of the queue, and the steps that an event loop can take with them.
use sloserve.Prelude.{
  ℕ, pos, suc, leb_ℤ, ◌==◌, true, false, not, ◌||◌, Option, none, some, List, [], ◌∷◌, ◌++◌, length,
  set, any, Result, ok, err, raise_if, value_error, runtime_error, ◌>>=◌, ◌>>◌, if◌then◌else◌,
  String,
}
use sloserve.Float.{Float, ◌≺◌, ◌≼◌, ◌⊖◌, ◌⊕◌, zero_f}
use sloserve.Router.Admission.{
  AdmissionQueue, QueueEntry, Envelope, AdmissionResult, RequestState, waiting_state, in_flight,
  done, discard, deref, in_flight_entries, complete, admit_available, timeout_error_message,
}
use sloserve.Workload.Dispatcher.{DispatchStatus, success, error, timeout, cancelled, rejected}

-- How the backend's task ended, as `_run_backend` sees it.
pub data BackendOutcome : Type 0 where
  returned cancelled_error : BackendOutcome
  raised : String → BackendOutcome

abbrev pub backend_status : BackendOutcome → DispatchStatus
backend_status returned = success
backend_status cancelled_error = cancelled
backend_status (raised message) = error

abbrev pub backend_message : BackendOutcome → Option String
backend_message (raised message) = some message
backend_message _ = none

-- The message of the `finally` block of `_run_backend`.
abbrev pub final_message : DispatchStatus → Option String → Option String
final_message timeout message = some timeout_error_message
final_message cancelled none = some "request was cancelled"
final_message status message = message

module _ ⦃f : Float⦄ where
  -- What a submission gives its caller: a result at once, or an entry whose result will follow.
  pub data Submission : Type 0 where
    answered : AdmissionResult → Submission
    pending : ℕ → Submission

  abbrev pub set_entry : AdmissionQueue → ℕ → QueueEntry → AdmissionQueue
  set_entry q i e = record q { heap = set q.heap i e }

  -- `entry.forced_status = status`, and the cancellation of the backend's task if there is one.
  abbrev pub force : DispatchStatus → QueueEntry → QueueEntry
  force status e = record e {
    forced_status = some status;
    backend_cancelled = elim e.backend_task [ none ↦ e.backend_cancelled | some r ↦ true ];
  }

  -- `self._waiting.remove(entry)`
  unfoldable pub remove_waiting : AdmissionQueue → ℕ → Result AdmissionQueue
  remove_waiting q i =
      if any (λ j. i == j) q.waiting
      then ok (record q { waiting = discard i q.waiting })
      else err (value_error "list.remove(x): x not in list")

  unfoldable pub start : AdmissionQueue → Result AdmissionQueue
  start q = do
    raise_if q.closed (runtime_error "admission queue is closed")
    ok (record q { started = true })

  -- What the event loop may run next.
  pub data Event : Type 0 where
    starts closes closes_finally : Event
    submits : Envelope → Event
    backend_ends : ℕ → BackendOutcome → Event
    timer_fires submitter_cancels : ℕ → Event

  module _ (clock : ℕ → f.F) where
    abbrev pub rejection : AdmissionQueue → Envelope → f.F → AdmissionResult
    rejection q envelope enqueued = record {
      request_id = envelope.request.request_id;
      sequence_id = envelope.request.sequence_id;
      status = rejected;
      enqueue_time_s = enqueued;
      dispatch_time_s = none;
      completion_time_s = clock q.reads;
      effective_envelope = envelope.request;
      error_message = some "admission waiting queue is full";
    }

    abbrev pub new_entry : Envelope → f.F → QueueEntry
    new_entry envelope enqueued = record {
      envelope = envelope;
      enqueue_time_s = enqueued;
      state = waiting_state;
      dispatch_time_s = none;
      backend_task = none;
      backend_cancelled = false;
      forced_status = none;
      result = none;
    }

    -- A new entry behind all others, at the end of `waiting`.
    abbrev pub enqueue : AdmissionQueue → QueueEntry → AdmissionQueue
    enqueue q e = record q {
      heap = q.heap ++ e ∷ [];
      waiting = q.waiting ++ length q.heap ∷ [];
      entries = q.entries ++ length q.heap ∷ [];
    }

    -- `submit`, up to where it waits for the result.
    unfoldable pub submit : AdmissionQueue → Envelope → Result (Submission × AdmissionQueue)
    submit q envelope = do
      let enqueued = clock q.reads
      let q₁ = record q { reads = suc q.reads }
      raise_if (not q.started || q.closing || q.closed)
          (runtime_error "admission queue is not accepting requests")
      if leb_ℤ q.queue_capacity (pos (length q.waiting))
          then ok (answered (rejection q₁ envelope enqueued), record q₁ { reads = suc q₁.reads })
          else do
            q₂ ← admit_available clock (enqueue q₁ (new_entry envelope enqueued))
            ok (pending (length q.heap), q₂)

    -- The status that `_run_backend` settles on, which reads the clock unless one was forced.
    abbrev pub settled_status :
        AdmissionQueue → QueueEntry → DispatchStatus → DispatchStatus × AdmissionQueue
    settled_status q e status = elim e.forced_status [
      | some forced ↦ (forced, q)
      | none ↦ (
        if q.request_timeout_s ≼ clock q.reads ⊖ e.enqueue_time_s then timeout else status,
        record q { reads = suc q.reads },
      )
    ]

    -- `_run_backend` from the end of the backend's task.
    unfoldable pub backend_done : AdmissionQueue → ℕ → BackendOutcome → Result AdmissionQueue
    backend_done q i outcome = do
      e ← deref q i
      raise_if (elim e.backend_task [ none ↦ true | some r ↦ false ])
          (runtime_error "in-flight admission entry has no backend task")
      let (status, q₁) = settled_status q e (backend_status outcome)
      q₂ ← complete clock q₁ i status (final_message status (backend_message outcome))
      admit_available clock q₂

    abbrev pub expire : AdmissionQueue → ℕ → QueueEntry → RequestState → Result AdmissionQueue
    expire q i e done = ok q
    expire q i e waiting_state = do
      q' ← remove_waiting q i
      complete clock q' i timeout (some timeout_error_message)
    expire q i e in_flight = ok (set_entry q i (force timeout e))

    -- `_watch_timeout` when its sleep ends: it sleeps on while time remains.
    unfoldable pub watch_timeout : AdmissionQueue → ℕ → Result AdmissionQueue
    unfolding remove_waiting
    watch_timeout q i = do
      e ← deref q i
      let q₁ = record q { reads = suc q.reads }
      if zero_f ≺ (e.enqueue_time_s ⊕ q.request_timeout_s) ⊖ clock q.reads
          then ok q₁
          else expire q₁ i e e.state

    abbrev pub withdraw : AdmissionQueue → ℕ → QueueEntry → RequestState → Result AdmissionQueue
    withdraw q i e waiting_state = do
      q' ← remove_waiting q i
      complete clock q' i cancelled (some "submit caller cancelled before dispatch")
    withdraw q i e in_flight = ok (set_entry q i (force cancelled e))
    withdraw q i e done = ok q

    -- `_cancel_from_submitter`
    unfoldable pub cancel_from_submitter : AdmissionQueue → ℕ → Result AdmissionQueue
    unfolding remove_waiting
    cancel_from_submitter q i = do e ← deref q i; withdraw q i e e.state

    -- The two loops of `aclose`: over a copy of `waiting`, and over the entries in flight.
    unfoldable pub cancel_waiting : List ℕ → AdmissionQueue → Result AdmissionQueue
    unfolding remove_waiting
    cancel_waiting [] q = ok q
    cancel_waiting (i ∷ is) q = do
      q₁ ← remove_waiting q i
      q₂ ← complete clock q₁ i cancelled (some "admission queue closed before dispatch")
      cancel_waiting is q₂

    unfoldable pub cancel_in_flight : List ℕ → AdmissionQueue → Result AdmissionQueue
    cancel_in_flight [] q = ok q
    cancel_in_flight (i ∷ is) q = do
      e ← deref q i
      cancel_in_flight is (set_entry q i (force cancelled e))

    -- `aclose` up to where it waits for the tasks. The tasks then end in steps of their own.
    unfoldable pub close : AdmissionQueue → Result AdmissionQueue
    unfolding cancel_waiting cancel_in_flight
    close q =
        if q.closed then ok q else if not q.started then ok (record q { closed = true }) else do
          q₁ ← cancel_waiting q.waiting (record q { closing = true })
          cancel_in_flight (in_flight_entries q₁) q₁

    -- The `finally` block of `aclose`.
    unfoldable pub close_finally : AdmissionQueue → AdmissionQueue
    close_finally q = record q { closed = true; closing = false }

    unfoldable pub step : AdmissionQueue → Event → Result AdmissionQueue
    step q starts = start q
    step q closes = close q
    step q closes_finally = ok (close_finally q)
    step q (submits envelope) = do r ← submit q envelope; ok r.1
    step q (backend_ends i outcome) = backend_done q i outcome
    step q (timer_fires i) = watch_timeout q i
    step q (submitter_cancels i) = cancel_from_submitter q i

    unfoldable pub run : AdmissionQueue → List Event → Result AdmissionQueue
    run q [] = ok q
    run q (e ∷ es) = do q' ← step q e; run q' es
