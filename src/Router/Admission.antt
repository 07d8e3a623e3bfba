-- ===== src/Router/Admission.antt =====
-- src/sloserve/router/admission.py: the bounded queue in front of the backend. Each handler runs under
-- the condition's lock, so it is one step of the model; the event loop chooses the order of the steps.
mod State
pub mod Counting
pub mod Soundness
pub mod Invariant
pub mod Handlers
pub mod Preservation
pub mod Limits
pub mod Finality
pub mod Deadlines
pub mod Results
pub mod Progress
pub mod Construction
unfoldable pub use State.*
use sloserve.Prelude.{
  ℕ, ℤ, pos, zero, suc, ◌+◌, ◌-◌, ltb_ℤ, leb_ℤ, ◌-ℤ◌, Bool, true, false, not, ◌&&◌, ◌||◌, Option,
  none, some, List, [], ◌∷◌, ◌++◌, map, length, get_elem?, set, select, Result, ok, err, raise_if,
  value_error, runtime_error, index_error, ◌>>=◌, ◌>>◌, if◌then◌else◌, String,
}
use sloserve.Float.{Float, ◌≺◌, ◌≼◌, ◌⊖◌, ◌⊕◌, zero_f}
use sloserve.Router.Models.{RequestEnvelope}
use sloserve.Router.Policies.{SchedulingPolicy, order}
use sloserve.Router.Clipping.{OutputClipper, apply_adaptive_cap}
use sloserve.Router.Controller.{AdaptiveClipController, AdaptiveClipDecision, update}
use sloserve.Workload.Dispatcher.{DispatchStatus, success, error, timeout, cancelled, rejected}

module _ ⦃f : Float⦄ (clock : ℕ → f.F) where
  -- `self._clock()`: the readings are numbered.
  abbrev pub tick : AdmissionQueue → f.F × AdmissionQueue
  tick q = (clock q.reads, record q { reads = suc q.reads })

  abbrev pub finish :
      AdmissionQueue → ℕ → QueueEntry → DispatchStatus → Option String → AdmissionQueue
  finish q i e status message = record q {
    heap = set q.heap i (record e {
      state = done;
      result = some (record {
        request_id = e.envelope.request.request_id;
        sequence_id = e.envelope.request.sequence_id;
        status = status;
        enqueue_time_s = e.enqueue_time_s;
        dispatch_time_s = e.dispatch_time_s;
        completion_time_s = clock q.reads;
        effective_envelope = e.envelope.request;
        error_message = message;
      });
    });
    entries = discard i q.entries;
    reads = suc q.reads;
  }

  -- `_complete_locked`
  unfoldable pub complete :
      AdmissionQueue → ℕ → DispatchStatus → Option String → Result AdmissionQueue
  complete q i status message = do
    e ← deref q i
    if is_done e.state then ok q else ok (finish q i e status message)

  -- The adaptive branch of the admission loop: the depth that will remain, the controller's decision
  -- on it, and the entry's envelope under the cap chosen.
  unfoldable pub decide : AdmissionQueue → ℕ → QueueEntry → Result (QueueEntry × AdmissionQueue)
  decide q i e = elim q.controller [
    | none ↦ ok (e, q)
    | some c ↦ elim q.clipper [
      | none ↦ err (runtime_error "adaptive clipper was not configured")
      | some k ↦ do
        (d, c') ← update (clock q.reads) (stable_waiting_depth q) c
        capped ← apply_adaptive_cap k e.envelope.request d.selected_cap
        ok (
          record e { envelope = record { object = e.envelope.object; request = capped } },
          record q {
            controller = some c';
            decisions = q.decisions ++ record { request_id = capped.request_id; decision = d } ∷ [];
            reads = suc q.reads;
          },
        )
    ]
  ]

  -- The statements that send the entry to the backend.
  abbrev pub sent_entry : QueueEntry → f.F → QueueEntry
  sent_entry e now = record e {
    state = in_flight;
    dispatch_time_s = some now;
    backend_task = some e.envelope.request;
  }

  abbrev pub dispatch : AdmissionQueue → ℕ → QueueEntry → AdmissionQueue
  dispatch q i e = record q {
    heap = set q.heap i (sent_entry e (clock q.reads));
    reads = suc q.reads;
  }

  -- The body of the loop below the choice of entry `i`, which is no longer in `waiting`.
  unfoldable pub admit_entry : AdmissionQueue → ℕ → Result AdmissionQueue
  unfolding decide
  admit_entry q i = do
    e ← deref q i
    let (now, q') = tick q
    if q.request_timeout_s ≼ now ⊖ e.enqueue_time_s
        then complete q' i timeout (some timeout_error_message)
        else do (e', q'') ← decide q' i e; ok (dispatch q'' i e')

  -- `ordered[0]`, and the first waiting entry with that very envelope.
  unfoldable pub select_next : AdmissionQueue → Result (ℕ × AdmissionQueue)
  select_next q = do
    let (now, q') = tick q
    envelopes ← waiting_envelopes q q.waiting
    ordered ← order (λ e. e.request) q.policy now envelopes
    first ← head_of ordered
    i ← find_envelope q first.object q.waiting
    ok (i, record q' { waiting = discard i q.waiting })

  abbrev pub has_room : AdmissionQueue → Bool
  has_room q =
      not q.closing
      && not (is_empty q.waiting)
      && ltb_ℤ (pos (length (in_flight_entries q))) q.max_in_flight

  -- `_admit_available_locked`: each round takes one entry from `waiting`, so its length is the fuel.
  unfoldable pub admit_loop : ℕ → AdmissionQueue → Result AdmissionQueue
  unfolding admit_entry select_next
  admit_loop zero q = ok q
  admit_loop (suc n) q = elim (has_room q) [
    | false ↦ ok q
    | true ↦ do (i, q') ← select_next q; q'' ← admit_entry q' i; admit_loop n q''
  ]

  abbrev pub admit_available : AdmissionQueue → Result AdmissionQueue
  admit_available q = admit_loop (length q.waiting) q
