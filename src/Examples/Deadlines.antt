-- ===== src/Examples/Deadlines.antt =====
-- The queue of Examples/Queue when a deadline passes: while the second request waits, and while the
-- first one is with the backend.
use sloserve.Float.{zero_f, ◌⊕◌, ◌⊖◌, ◌≺◌}
use sloserve.Prelude.{
  ◌+ℤ◌, true, false, any, ltb, if◌then◌else◌, List, [], ◌∷◌, ℕ, ℤ, pos, ◌-ℤ◌, ok, none, some, refl,
  ◌≡◌, ◌≢◌, All, get_elem?, any, ◌==◌, false, true,
}
use sloserve.Router.Admission.{
  waiting_state, in_flight, AdmissionQueue, QueueEntry, admit_loop, waiting_envelopes,
  find_envelope, complete, waiting_state, in_flight,
}
use sloserve.Router.Policies.{order}
use sloserve.Prelude.Sorting.{sorted}
use sloserve.Float.Integers.{integers}
use sloserve.Router.Admission.Invariant.{Sound}
use sloserve.Router.Admission.Handlers.{
  run, Event, submits, backend_ends, timer_fires, returned, step, submit, start, watch_timeout,
  backend_done, starts, cancel_from_submitter,
}
use sloserve.Workload.Dispatcher.{timeout, cancelled}
use sloserve.Router.Admission.Construction.{built_run-Sound}
use sloserve.Router.Admission.Preservation.{run-Sound}
use sloserve.Router.Admission.Deadlines.{
  IsResult, watch_timeout-expires, cancel_from_submitter-withdraws, backend_done-forced,
}
use sloserve.Examples.Data.{router, backend, chat_envelope, report_envelope, value_or}
use sloserve.Examples.Queue.{new_queue, valid_router, queue-builds}

-- A clock that is read every second, and from the sixth reading on stands at two minutes.
abbrev late_clock : ℕ → ℤ
late_clock n = if ltb n 5 then pos n else pos 120

abbrev two_requests : List Event
two_requests = starts ∷ submits chat_envelope ∷ submits report_envelope ∷ []

unfoldable held : AdmissionQueue
unfolding run
held = value_or new_queue (run late_clock new_queue two_requests)

held_runs : run late_clock new_queue two_requests ≡ ok held
unfolding run step start submit admit_loop waiting_envelopes order sorted find_envelope ◌-ℤ◌
    backend_done complete held
held_runs = refl

held-Sound : Sound held
held-Sound =
    (built_run-Sound late_clock router backend none none none two_requests new_queue held
      valid_router queue-builds held_runs).0

abbrev waiting_entry : QueueEntry
waiting_entry = record {
  envelope = report_envelope;
  enqueue_time_s = pos 4;
  state = waiting_state;
  dispatch_time_s = none;
  backend_task = none;
  backend_cancelled = false;
  forced_status = none;
  result = none;
}

in_queue : any (λ j. 1 == j) held.waiting ≡ true
unfolding held step start submit admit_loop waiting_envelopes order sorted find_envelope ◌-ℤ◌ ◌+ℤ◌
    complete
in_queue = refl

at_1 : get_elem? held.heap 1 ≡ some waiting_entry
unfolding held step start submit admit_loop waiting_envelopes order sorted find_envelope ◌-ℤ◌ ◌+ℤ◌
    complete
at_1 = refl

passed :
    (zero_f ≺ (waiting_entry.enqueue_time_s ⊕ held.request_timeout_s) ⊖ late_clock held.reads)
    ≡ false
unfolding held step start submit admit_loop waiting_envelopes order sorted find_envelope ◌-ℤ◌ ◌+ℤ◌
    complete
passed = refl

watch_timeout-expires_example :
    (q : AdmissionQueue) × (watch_timeout late_clock held 1 ≡ ok q)
    × IsResult timeout (get_elem? q.heap 1)
    × All (λ j. 1 ≢ j) q.waiting
    × Sound q
watch_timeout-expires_example =
    watch_timeout-expires late_clock held 1 waiting_entry held-Sound in_queue at_1 passed

cancel_from_submitter-withdraws_example :
    (q : AdmissionQueue) × (cancel_from_submitter late_clock held 1 ≡ ok q)
    × IsResult cancelled (get_elem? q.heap 1)
    × All (λ j. 1 ≢ j) q.waiting
    × Sound q
cancel_from_submitter-withdraws_example =
    cancel_from_submitter-withdraws late_clock held 1 waiting_entry held-Sound in_queue at_1

-- The deadline of the first request passes while the backend works on it.
unfoldable expired : AdmissionQueue
unfolding run held
expired = value_or new_queue (run late_clock held (timer_fires 0 ∷ []))

expired_runs : run late_clock held (timer_fires 0 ∷ []) ≡ ok expired
unfolding run held expired watch_timeout step start submit admit_loop waiting_envelopes order sorted
    find_envelope ◌-ℤ◌ ◌+ℤ◌ complete
expired_runs = refl

expired-Sound : Sound expired
expired-Sound = run-Sound late_clock (timer_fires 0 ∷ []) held expired held-Sound expired_runs

unfoldable ended : AdmissionQueue
unfolding run expired
ended = value_or new_queue (run late_clock expired (backend_ends 0 returned ∷ []))

ends : backend_done late_clock expired 0 returned ≡ ok ended
unfolding run held expired ended watch_timeout backend_done step start submit admit_loop
    waiting_envelopes order sorted find_envelope ◌-ℤ◌ ◌+ℤ◌ complete
ends = refl

abbrev forced_entry : QueueEntry
forced_entry = record waiting_entry {
  envelope = chat_envelope;
  enqueue_time_s = pos 0;
  state = in_flight;
  dispatch_time_s = some (pos 3);
  backend_task = some chat_envelope.request;
  backend_cancelled = true;
  forced_status = some timeout;
}

at_0 : get_elem? expired.heap 0 ≡ some forced_entry
unfolding run held expired watch_timeout step start submit admit_loop waiting_envelopes order sorted
    find_envelope ◌-ℤ◌ ◌+ℤ◌ complete
at_0 = refl

backend_done-forced_example : IsResult timeout (get_elem? ended.heap 0)
backend_done-forced_example =
    backend_done-forced late_clock expired ended 0 forced_entry timeout returned expired-Sound at_0
      refl refl ends
