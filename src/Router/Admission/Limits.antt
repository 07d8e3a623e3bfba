-- ===== src/Router/Admission/Limits.antt =====
-- About the two limits of the queue of router/admission.py under its steps.
use sloserve.Prelude.{
  ℕ, Option, none, some, List, [], ◌∷◌, String, ok, ◌≡◌, refl, arith, >>=-eq-ok, >>-eq-ok, subst,
  pos, zero, suc, true, false, not, ◌||◌, leb_ℤ, length, raise_if, runtime_error, if-cases, inl,
  inr, ◌∙◌, Option-cases, ◌>>=◌,
}
use sloserve.Float.{Float, ◌≼◌, ◌⊖◌, ◌≺◌, ◌⊕◌, zero_f}
use sloserve.Workload.Dispatcher.{DispatchStatus, cancelled}
use sloserve.Router.Admission.{
  AdmissionQueue, QueueEntry, complete, admit_entry, select_next, admit_loop, admit_available,
  deref, decide, Envelope, RequestState, waiting_state, in_flight, done, in_flight_entries,
}
use sloserve.Router.Admission.Invariant.{admit_loop-cases, decide-keeps}
use sloserve.Router.Admission.Handlers.{
  start, submit, backend_done, watch_timeout, cancel_from_submitter, cancel_waiting,
  cancel_in_flight, close, close_finally, Event, step, run, remove_waiting, BackendOutcome, starts,
  closes, closes_finally, submits, backend_ends, timer_fires, submitter_cancels, Submission,
  enqueue, new_entry, settled_status, backend_status, backend_message, final_message, expire,
  withdraw, force, set_entry,
}

module _ ⦃f : Float⦄ where
  abbrev pub SameLimits : AdmissionQueue → AdmissionQueue → Type 0
  SameLimits q q' = (q'.queue_capacity ≡ q.queue_capacity) × (q'.max_in_flight ≡ q.max_in_flight)

  limits_trans : (p q r : AdmissionQueue) → SameLimits p q → SameLimits q r → SameLimits p r
  limits_trans p q r a b = (b.0 ∙ a.0, b.1 ∙ a.1)

  module _ (clock : ℕ → f.F) where
    complete-SameLimits :
        (q q' : AdmissionQueue) (i : ℕ) (status : DispatchStatus) (message : Option String)
        → complete clock q i status message ≡ ok q'
        → SameLimits q q'
    unfolding complete
    complete-SameLimits q q' i status message h = ground arith

    remove_waiting-SameLimits :
        (q q' : AdmissionQueue) (i : ℕ) → remove_waiting q i ≡ ok q' → SameLimits q q'
    unfolding remove_waiting
    remove_waiting-SameLimits q q' i h = ground arith

    select_next-SameLimits :
        (q q' : AdmissionQueue) (i : ℕ) → select_next clock q ≡ ok (i, q') → SameLimits q q'
    unfolding select_next
    select_next-SameLimits q q' i h = ground arith

    admit_entry-SameLimits :
        (q q' : AdmissionQueue) (i : ℕ) → admit_entry clock q i ≡ ok q' → SameLimits q q'
    unfolding admit_entry
    admit_entry-SameLimits q q' i h =
        let (e, _, k) = >>=-eq-ok (deref q i) _ h in
        let q₁ : AdmissionQueue = record q { reads = suc q.reads } in
        elim (if-cases (q.request_timeout_s ≼ clock q.reads ⊖ e.enqueue_time_s) _ _ k) [
          | inl (_, late) ↦ complete-SameLimits q₁ q' i _ _ late
          | inr (_, sent) ↦
              let ((e', q''), d, last) = >>=-eq-ok (decide clock q₁ i e) _ sent in
              let (_, _, _, capacity, limit, _, _) = decide-keeps clock q₁ q'' i e e' d in
              (ground arith, ground arith)
        ]

    start-SameLimits : (q q' : AdmissionQueue) → start q ≡ ok q' → SameLimits q q'
    unfolding start
    start-SameLimits q q' h = ground arith

    cancel_in_flight-SameLimits :
        (ids : List ℕ) (q q' : AdmissionQueue)
        → cancel_in_flight clock ids q ≡ ok q'
        → SameLimits q q'
    unfolding cancel_in_flight
    cancel_in_flight-SameLimits [] q q' h = ground arith
    cancel_in_flight-SameLimits (i ∷ is) q q' h =
        let (e, _, rest) = >>=-eq-ok (deref q i) _ h in
        cancel_in_flight-SameLimits is (set_entry q i (force cancelled e)) q' rest

    cancel_waiting-SameLimits :
        (ids : List ℕ) (q q' : AdmissionQueue)
        → cancel_waiting clock ids q ≡ ok q'
        → SameLimits q q'
    unfolding cancel_waiting
    cancel_waiting-SameLimits [] q q' h = ground arith
    cancel_waiting-SameLimits (i ∷ is) q q' h =
        let (q₁, removed, h₁) = >>=-eq-ok (remove_waiting q i) _ h in
        let (q₂, ended, rest) =
          >>=-eq-ok (complete clock q₁ i cancelled (some "admission queue closed before dispatch"))
            _ h₁ in
        limits_trans q q₁ q' (remove_waiting-SameLimits q q₁ i removed) (
          limits_trans q₁ q₂ q' (complete-SameLimits q₁ q₂ i _ _ ended)
            (cancel_waiting-SameLimits is q₂ q' rest))

    admit_loop-SameLimits :
        (n : ℕ) (q q' : AdmissionQueue) → admit_loop clock n q ≡ ok q' → SameLimits q q'
    unfolding admit_loop
    admit_loop-SameLimits zero q q' h = ground arith
    admit_loop-SameLimits (suc n) q q' h = elim (admit_loop-cases clock n q q' h) [
      | inl (_, e) ↦ ground arith
      | inr (_, ((i, s), chosen, (t, sent, rest))) ↦
          limits_trans q s q' (select_next-SameLimits q s i chosen) (
            limits_trans s t q' (admit_entry-SameLimits s t i sent)
              (admit_loop-SameLimits n t q' rest))
    ]

    submit-SameLimits :
        (q : AdmissionQueue) (envelope : Envelope) (r : Submission × AdmissionQueue)
        → submit clock q envelope ≡ ok r
        → SameLimits q r.1
    unfolding submit
    submit-SameLimits q envelope r h =
        let (_, k) =
          >>-eq-ok
            (raise_if (not q.started || q.closing || q.closed)
              (runtime_error "admission queue is not accepting requests"))
            _ h in
        elim (if-cases (leb_ℤ q.queue_capacity (pos (length q.waiting))) _ _ k) [
          | inl (_, full) ↦ ground arith
          | inr (_, admitted) ↦
              let q₁ =
                enqueue clock (record q { reads = suc q.reads })
                  (new_entry clock envelope (clock q.reads)) in
              let (q₂, loop, last) = >>=-eq-ok (admit_available clock q₁) _ admitted in
              let same : q₂ ≡ r.1 = ground arith in
              subst (SameLimits q) same (admit_loop-SameLimits (length q₁.waiting) q₁ q₂ loop)
        ]

    settled-SameLimits :
        (q : AdmissionQueue) (e : QueueEntry) (status : DispatchStatus)
        → SameLimits q (settled_status clock q e status).1
    settled-SameLimits q e status = elim (Option-cases e.forced_status) [
      | inl k ↦ rw k (refl, refl)
      | inr (forced, k) ↦ rw k (refl, refl)
    ]

    backend_done-SameLimits :
        (q q' : AdmissionQueue) (i : ℕ) (outcome : BackendOutcome)
        → backend_done clock q i outcome ≡ ok q'
        → SameLimits q q'
    unfolding backend_done
    backend_done-SameLimits q q' i outcome h =
        let (e, _, h₁) = >>=-eq-ok (deref q i) _ h in
        let (_, h₂) =
          >>-eq-ok (raise_if (elim e.backend_task [ none ↦ true | some r ↦ false ]) _) _ h₁ in
        let (status, q₁) = settled_status clock q e (backend_status outcome) in
        let (q₂, ended, loop) =
          >>=-eq-ok (complete clock q₁ i status (final_message status (backend_message outcome))) _
            h₂ in
        limits_trans q q₁ q' (settled-SameLimits q e (backend_status outcome)) (
          limits_trans q₁ q₂ q' (complete-SameLimits q₁ q₂ i _ _ ended)
            (admit_loop-SameLimits (length q₂.waiting) q₂ q' loop))

    ends-SameLimits :
        (q q' : AdmissionQueue) (i : ℕ) (status : DispatchStatus) (message : Option String)
        → (do q₁ ← remove_waiting q i; complete clock q₁ i status message) ≡ ok q'
        → SameLimits q q'
    ends-SameLimits q q' i status message h =
        let (q₁, removed, ended) = >>=-eq-ok (remove_waiting q i) _ h in
        limits_trans q q₁ q' (remove_waiting-SameLimits q q₁ i removed)
          (complete-SameLimits q₁ q' i _ _ ended)

    expire-SameLimits :
        (q q' : AdmissionQueue) (i : ℕ) (e : QueueEntry) (s : RequestState)
        → expire clock q i e s ≡ ok q'
        → SameLimits q q'
    expire-SameLimits q q' i e done h = ground arith
    expire-SameLimits q q' i e in_flight h = ground arith
    expire-SameLimits q q' i e waiting_state h = ends-SameLimits q q' i _ _ h

    withdraw-SameLimits :
        (q q' : AdmissionQueue) (i : ℕ) (e : QueueEntry) (s : RequestState)
        → withdraw clock q i e s ≡ ok q'
        → SameLimits q q'
    withdraw-SameLimits q q' i e done h = ground arith
    withdraw-SameLimits q q' i e in_flight h = ground arith
    withdraw-SameLimits q q' i e waiting_state h = ends-SameLimits q q' i _ _ h

    close-SameLimits : (q q' : AdmissionQueue) → close clock q ≡ ok q' → SameLimits q q'
    unfolding close
    close-SameLimits q q' h = elim (if-cases q.closed _ _ h) [
      | inl (_, k) ↦ ground arith
      | inr (_, k) ↦ elim (if-cases (not q.started) _ _ k) [
        | inl (_, m) ↦ ground arith
        | inr (_, m) ↦
            let q₀ : AdmissionQueue = record q { closing = true } in
            let (q₁, emptied, rest) = >>=-eq-ok (cancel_waiting clock q.waiting q₀) _ m in
            limits_trans q q₁ q' (cancel_waiting-SameLimits q.waiting q₀ q₁ emptied)
              (cancel_in_flight-SameLimits (in_flight_entries q₁) q₁ q' rest)
      ]
    ]

    step-SameLimits : (q q' : AdmissionQueue) (e : Event) → step clock q e ≡ ok q' → SameLimits q q'
    unfolding step close_finally watch_timeout cancel_from_submitter
    step-SameLimits q q' starts h = start-SameLimits q q' h
    step-SameLimits q q' closes h = close-SameLimits q q' h
    step-SameLimits q q' closes_finally h = ground arith
    step-SameLimits q q' (submits envelope) h =
        let (r, submitted, k) = >>=-eq-ok (submit clock q envelope) _ h in
        let same : r.1 ≡ q' = cc in
        subst (SameLimits q) same (submit-SameLimits q envelope r submitted)
    step-SameLimits q q' (backend_ends i outcome) h = backend_done-SameLimits q q' i outcome h
    step-SameLimits q q' (timer_fires i) h =
        let (e, _, h₁) = >>=-eq-ok (deref q i) _ h in
        let q₁ : AdmissionQueue = record q { reads = suc q.reads } in
        elim (if-cases (zero_f ≺ (e.enqueue_time_s ⊕ q.request_timeout_s) ⊖ clock q.reads) (ok q₁)
          (expire clock q₁ i e e.state) h₁) [
            | inl (_, k) ↦ ground arith
            | inr (_, k) ↦ expire-SameLimits q₁ q' i e e.state k
          ]
    step-SameLimits q q' (submitter_cancels i) h =
        let (e, _, h₁) = >>=-eq-ok (deref q i) _ h in withdraw-SameLimits q q' i e e.state h₁

    pub run-SameLimits :
        (es : List Event) (q q' : AdmissionQueue) → run clock q es ≡ ok q' → SameLimits q q'
    unfolding run
    run-SameLimits [] q q' h = ground arith
    run-SameLimits (e ∷ es) q q' h =
        let (q₁, stepped, rest) = >>=-eq-ok (step clock q e) _ h in
        limits_trans q q₁ q' (step-SameLimits q q₁ e stepped) (run-SameLimits es q₁ q' rest)
