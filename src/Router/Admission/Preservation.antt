-- ===== src/Router/Admission/Preservation.antt =====
-- The well-formed queue of router/admission.py under every step of the event loop.
use sloserve.Router.Admission.Invariant.{Sound, complete-Sound, admit_loop-Sound, deref-get}
use sloserve.Router.Admission.Handlers.{
  start, submit, enqueue, new_entry, backend_done, settled_status, backend_status, backend_message,
  final_message, watch_timeout, expire, withdraw, remove_waiting, force, set_entry,
  cancel_from_submitter, cancel_waiting, cancel_in_flight, close, close_finally, Event, starts,
  closes, closes_finally, submits, backend_ends, timer_fires, submitter_cancels, step, run,
  BackendOutcome, Submission,
}
use sloserve.Prelude.{
  ℕ, pos, suc, leb_ℤ, true, false, none, some, List, [], ◌∷◌, length, get_elem?, any, All, All-map,
  All-get, ok, >>=-eq-ok, >>-eq-ok, ◌≡◌, ◌≢◌, refl, sym, arith, if-cases, inl, inr, subst, ◌==◌,
  Option-cases, raise_if, not, runtime_error, select-All, ◌||◌,
}
use sloserve.Float.{Float, ◌⊖◌, ◌≺◌, ◌⊕◌, zero_f}
use sloserve.Router.Admission.{
  AdmissionQueue, QueueEntry, Envelope, RequestState, waiting_state, in_flight, done, is_done,
  discard, deref, complete, admit_available, in_flight_entries, flight_at, is_in_flight,
}
use sloserve.Router.Admission.Soundness.{
  Waits, Coherent, IsCoherent, IsSound-discard, IsSound-touch, IsSound-enqueue, All-write,
}
use sloserve.Workload.Dispatcher.{DispatchStatus, timeout, cancelled}

module _ ⦃f : Float⦄ where
  pub not_waiting :
      (q : AdmissionQueue) (i : ℕ) (e : QueueEntry)
      → Sound q
      → get_elem? q.heap i ≡ some e
      → e.state ≢ waiting_state
      → All (λ j. i ≢ j) q.waiting
  not_waiting q i e v at_i n =
      All-map
        (λ j w same. n (subst Waits at_i (subst (λ k. Waits (get_elem? q.heap k)) (sym same) w)))
        q.waiting v.waits

  pub sent-state :
      (e : QueueEntry) (s : RequestState) → Coherent s e → e.backend_task ≢ none → s ≢ waiting_state
  sent-state e waiting_state c n k = n c.0
  sent-state e in_flight c n k = absurd (cc)
  sent-state e done c n k = absurd (cc)

  pub remove_waiting-Sound :
      (q q' : AdmissionQueue) (i : ℕ)
      → Sound q
      → remove_waiting q i ≡ ok q'
      → Sound q' × All (λ j. i ≢ j) q'.waiting
  unfolding remove_waiting
  remove_waiting-Sound q q' i v h = elim (if-cases (any (λ j. i == j) q.waiting) _ _ h) [
    | inl (_, k) ↦
        let same : record q { waiting = discard i q.waiting } ≡ q' = cc in
        subst (λ s. Sound s × All (λ j. i ≢ j) s.waiting) same (IsSound-discard v i)
    | inr (_, k) ↦ absurd (cc)
  ]

  -- `forced_status` and the cancellation of the task leave the state of an entry in flight.
  pub force-Sound :
      (q : AdmissionQueue) (i : ℕ) (e : QueueEntry) (status : DispatchStatus)
      → Sound q
      → get_elem? q.heap i ≡ some e
      → is_done e.state ≡ false
      → Sound (set_entry q i (force status e))
  force-Sound q i e status v at_i live =
      IsSound-touch v i e (force status e) at_i live refl
        (force-coherent e.state (All-get IsCoherent q.heap i e v.coherent at_i))
    where
      force-coherent : (s : RequestState) → Coherent s e → Coherent s (force status e)
      force-coherent waiting_state c = c
      force-coherent in_flight c = c
      force-coherent done (r, at_r, a) = (
        r,
        at_r,
        record {
          request_id = a.request_id;
          sequence_id = a.sequence_id;
          enqueue_time_s = a.enqueue_time_s;
          dispatch_time_s = a.dispatch_time_s;
          effective_envelope = a.effective_envelope;
        },
      )

  module _ (clock : ℕ → f.F) where
    start-Sound : (q q' : AdmissionQueue) → Sound q → start q ≡ ok q' → Sound q'
    unfolding start
    start-Sound q q' v h =
        let (_, k) = >>-eq-ok (raise_if q.closed (runtime_error "admission queue is closed")) _ h in
        let same : record q { started = true } ≡ q' = cc in subst Sound same v

    submit-Sound :
        (q : AdmissionQueue) (envelope : Envelope) (r : Submission × AdmissionQueue)
        → Sound q
        → submit clock q envelope ≡ ok r
        → Sound r.1
    unfolding submit
    submit-Sound q envelope r v h =
        let (_, k) =
          >>-eq-ok
            (raise_if (not q.started || q.closing || q.closed)
              (runtime_error "admission queue is not accepting requests"))
            _ h in
        elim (if-cases (leb_ℤ q.queue_capacity (pos (length q.waiting))) _ _ k) [
          | inl (_, full) ↦
              let same : record q { reads = suc (suc q.reads) } ≡ r.1 = ground arith in
              subst Sound same v
          | inr (room, admitted) ↦
              let e = new_entry clock envelope (clock q.reads) in
              let q₁ = enqueue clock (record q { reads = suc q.reads }) e in
              let v₁ : Sound q₁ = IsSound-enqueue v e refl (refl, refl, refl) (ground arith) in
              let (q₂, loop, last) = >>=-eq-ok (admit_available clock q₁) _ admitted in
              let same : q₂ ≡ r.1 = ground arith in
              subst Sound same (admit_loop-Sound clock (length q₁.waiting) q₁ q₂ v₁ loop)
        ]

    pub settled-Sound :
        (q : AdmissionQueue) (e : QueueEntry) (status : DispatchStatus) (i : ℕ)
        → Sound q
        → All (λ j. i ≢ j) q.waiting
        → Sound (settled_status clock q e status).1
          × All (λ j. i ≢ j) (settled_status clock q e status).1.waiting
    settled-Sound q e status i v n = elim (Option-cases e.forced_status) [
      | inl k ↦ rw k (v, n)
      | inr (forced, k) ↦ rw k (v, n)
    ]

    backend_done-Sound :
        (q q' : AdmissionQueue) (i : ℕ) (outcome : BackendOutcome)
        → Sound q
        → backend_done clock q i outcome ≡ ok q'
        → Sound q'
    unfolding backend_done
    backend_done-Sound q q' i outcome v h =
        let (e, at_i, h₁) = >>=-eq-ok (deref q i) _ h in
        let (sent, h₂) =
          >>-eq-ok (raise_if (elim e.backend_task [ none ↦ true | some r ↦ false ]) _) _ h₁ in
        let at_e = deref-get q i e at_i in
        let c : IsCoherent e = All-get IsCoherent q.heap i e v.coherent at_e in
        let n = not_waiting q i e v at_e (sent-state e e.state c (ground arith)) in
        let (status, q₁) = settled_status clock q e (backend_status outcome) in
        let (v₁, n₁) = settled-Sound q e (backend_status outcome) i v n in
        let (q₂, ended, loop) =
          >>=-eq-ok (complete clock q₁ i status (final_message status (backend_message outcome))) _
            h₂ in
        admit_loop-Sound clock (length q₂.waiting) q₂ q'
          (complete-Sound clock q₁ q₂ i status _ v₁ n₁ ended) loop

    expire-Sound :
        (q q' : AdmissionQueue) (i : ℕ) (e : QueueEntry) (s : RequestState)
        → Sound q
        → get_elem? q.heap i ≡ some e
        → e.state ≡ s
        → expire clock q i e s ≡ ok q'
        → Sound q'
    expire-Sound q q' i e done v at_i is h = let same : q ≡ q' = cc in subst Sound same v
    expire-Sound q q' i e in_flight v at_i is h =
        let same : set_entry q i (force timeout e) ≡ q' = cc in
        subst Sound same (force-Sound q i e timeout v at_i (ground arith))
    expire-Sound q q' i e waiting_state v at_i is h =
        let (q₁, removed, ended) = >>=-eq-ok (remove_waiting q i) _ h in
        let (v₁, n) = remove_waiting-Sound q q₁ i v removed in
        complete-Sound clock q₁ q' i _ _ v₁ n ended

    withdraw-Sound :
        (q q' : AdmissionQueue) (i : ℕ) (e : QueueEntry) (s : RequestState)
        → Sound q
        → get_elem? q.heap i ≡ some e
        → e.state ≡ s
        → withdraw clock q i e s ≡ ok q'
        → Sound q'
    withdraw-Sound q q' i e done v at_i is h = let same : q ≡ q' = cc in subst Sound same v
    withdraw-Sound q q' i e in_flight v at_i is h =
        let same : set_entry q i (force cancelled e) ≡ q' = cc in
        subst Sound same (force-Sound q i e cancelled v at_i (ground arith))
    withdraw-Sound q q' i e waiting_state v at_i is h =
        let (q₁, removed, ended) = >>=-eq-ok (remove_waiting q i) _ h in
        let (v₁, n) = remove_waiting-Sound q q₁ i v removed in
        complete-Sound clock q₁ q' i _ _ v₁ n ended

    watch_timeout-Sound :
        (q q' : AdmissionQueue) (i : ℕ) → Sound q → watch_timeout clock q i ≡ ok q' → Sound q'
    unfolding watch_timeout
    watch_timeout-Sound q q' i v h =
        let (e, at_i, h₁) = >>=-eq-ok (deref q i) _ h in
        let q₁ : AdmissionQueue = record q { reads = suc q.reads } in
        elim (if-cases (zero_f ≺ (e.enqueue_time_s ⊕ q.request_timeout_s) ⊖ clock q.reads) (ok q₁)
          (expire clock q₁ i e e.state) h₁) [
            | inl (_, k) ↦ let same : q₁ ≡ q' = cc in subst Sound same v
            | inr (_, k) ↦ expire-Sound q₁ q' i e e.state v (deref-get q i e at_i) refl k
          ]

    cancel_from_submitter-Sound :
        (q q' : AdmissionQueue) (i : ℕ)
        → Sound q
        → cancel_from_submitter clock q i ≡ ok q'
        → Sound q'
    unfolding cancel_from_submitter
    cancel_from_submitter-Sound q q' i v h =
        let (e, at_i, h₁) = >>=-eq-ok (deref q i) _ h in
        withdraw-Sound q q' i e e.state v (deref-get q i e at_i) refl h₁

    cancel_waiting-Sound :
        (ids : List ℕ) (q q' : AdmissionQueue)
        → Sound q
        → cancel_waiting clock ids q ≡ ok q'
        → Sound q'
    unfolding cancel_waiting
    cancel_waiting-Sound [] q q' v h = let same : q ≡ q' = cc in subst Sound same v
    cancel_waiting-Sound (i ∷ is) q q' v h =
        let (q₁, removed, h₁) = >>=-eq-ok (remove_waiting q i) _ h in
        let (v₁, n) = remove_waiting-Sound q q₁ i v removed in
        let (q₂, ended, rest) =
          >>=-eq-ok (complete clock q₁ i cancelled (some "admission queue closed before dispatch"))
            _ h₁ in
        cancel_waiting-Sound is q₂ q' (complete-Sound clock q₁ q₂ i _ _ v₁ n ended) rest

    cancel_in_flight-Sound :
        (ids : List ℕ) (q q' : AdmissionQueue)
        → Sound q
        → All (λ j. flight_at (get_elem? q.heap j) ≡ true) ids
        → cancel_in_flight clock ids q ≡ ok q'
        → Sound q'
    unfolding cancel_in_flight
    cancel_in_flight-Sound [] q q' v a h = let same : q ≡ q' = cc in subst Sound same v
    cancel_in_flight-Sound (i ∷ is) q q' v a h =
        let (e, at_i, rest) = >>=-eq-ok (deref q i) _ h in
        let at_e = deref-get q i e at_i in
        let flies_e : is_in_flight e.state ≡ true = subst (λ o. flight_at o ≡ true) at_e a.0 in
        cancel_in_flight-Sound is (set_entry q i (force cancelled e)) q'
          (force-Sound q i e cancelled v at_e (ground arith))
          (All-write (λ o. flight_at o ≡ true) q.heap i e (force cancelled e) is at_e (λ k. k) a.1)
          rest

    close-Sound : (q q' : AdmissionQueue) → Sound q → close clock q ≡ ok q' → Sound q'
    unfolding close
    close-Sound q q' v h = elim (if-cases q.closed _ _ h) [
      | inl (_, k) ↦ let same : q ≡ q' = cc in subst Sound same v
      | inr (_, k) ↦ elim (if-cases (not q.started) _ _ k) [
        | inl (_, m) ↦ let same : record q { closed = true } ≡ q' = cc in subst Sound same v
        | inr (_, m) ↦
            let (q₁, emptied, rest) =
              >>=-eq-ok (cancel_waiting clock q.waiting (record q { closing = true })) _ m in
            let v₁ = cancel_waiting-Sound q.waiting (record q { closing = true }) q₁ v emptied in
            cancel_in_flight-Sound (in_flight_entries q₁) q₁ q' v₁
              (select-All (λ j. flight_at (get_elem? q₁.heap j)) q₁.entries) rest
      ]
    ]

    pub step-Sound :
        (q q' : AdmissionQueue) (e : Event) → Sound q → step clock q e ≡ ok q' → Sound q'
    unfolding step close_finally
    step-Sound q q' starts v h = start-Sound q q' v h
    step-Sound q q' closes v h = close-Sound q q' v h
    step-Sound q q' closes_finally v h =
        let same : close_finally clock q ≡ q' = cc in subst Sound same v
    step-Sound q q' (submits envelope) v h =
        let (r, submitted, k) = >>=-eq-ok (submit clock q envelope) _ h in
        let same : r.1 ≡ q' = cc in subst Sound same (submit-Sound q envelope r v submitted)
    step-Sound q q' (backend_ends i outcome) v h = backend_done-Sound q q' i outcome v h
    step-Sound q q' (timer_fires i) v h = watch_timeout-Sound q q' i v h
    step-Sound q q' (submitter_cancels i) v h = cancel_from_submitter-Sound q q' i v h

    -- Whatever the event loop runs, as long as nothing raises, keeps the queue sound: no more than
    -- `queue_capacity` entries wait and no more than `max_in_flight` are in flight, the dictionary
    -- holds exactly the entries that are not done, `waiting` holds each waiting entry once, and an
    -- entry has a result exactly when it is done.
    pub run-Sound :
        (es : List Event) (q q' : AdmissionQueue) → Sound q → run clock q es ≡ ok q' → Sound q'
    unfolding run
    run-Sound [] q q' v h = let same : q ≡ q' = cc in subst Sound same v
    run-Sound (e ∷ es) q q' v h =
        let (q₁, stepped, rest) = >>=-eq-ok (step clock q e) _ h in
        run-Sound es q₁ q' (step-Sound q q₁ e v stepped) rest
