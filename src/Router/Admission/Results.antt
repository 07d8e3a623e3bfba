-- ===== src/Router/Admission/Results.antt =====
-- About the entries of router/admission.py that are done, under every step of the event loop.
use sloserve.Prelude.{
  ℕ, pos, suc, Option, none, some, List, [], ◌∷◌, length, get_elem?, All, All-get, String, true,
  false, not, ◌||◌, leb_ℤ, ok, ◌≡◌, refl, sym, arith, >>=-eq-ok, >>-eq-ok, raise_if, runtime_error,
  if-cases, inl, inr, subst, Option-cases, select-All,
}
use sloserve.Float.{Float, ◌≺◌, ◌⊖◌, ◌⊕◌, zero_f}
use sloserve.Workload.Dispatcher.{DispatchStatus, cancelled, timeout}
use sloserve.Router.Admission.{
  AdmissionQueue, QueueEntry, complete, admit_available, deref, Envelope, RequestState,
  waiting_state, in_flight, done, is_done, is_in_flight, flight_at, in_flight_entries,
}
use sloserve.Router.Admission.Soundness.{All-write, IsCoherent, IsSound-enqueue}
use sloserve.Router.Admission.Invariant.{Sound, deref-get, complete-Sound}
use sloserve.Router.Admission.Finality.{
  IsFinal, IsFinal-trans, set-IsFinal, append-IsFinal, complete-IsFinal, admit_loop-IsFinal,
}
use sloserve.Router.Admission.Preservation.{not_waiting, sent-state, settled-Sound, step-Sound}
use sloserve.Router.Admission.Handlers.{
  start, submit, backend_done, watch_timeout, cancel_from_submitter, cancel_waiting,
  cancel_in_flight, close, close_finally, Event, step, run, remove_waiting, BackendOutcome, starts,
  closes, closes_finally, submits, backend_ends, timer_fires, submitter_cancels, Submission,
  enqueue, new_entry, settled_status, backend_status, backend_message, final_message, expire,
  withdraw, force, set_entry,
}

module _ ⦃f : Float⦄ where
  abbrev Keeps : AdmissionQueue → AdmissionQueue → Type 0
  Keeps q q' = IsFinal q.heap q'.heap

  same-Keeps : (q q' : AdmissionQueue) → q'.heap ≡ q.heap → Keeps q q'
  same-Keeps q q' e = subst (IsFinal q.heap) (sym e) (λ j d at_j fin. at_j)

  force-Keeps :
      (q : AdmissionQueue) (i : ℕ) (e : QueueEntry) (status : DispatchStatus)
      → get_elem? q.heap i ≡ some e
      → is_done e.state ≡ false
      → Keeps q (set_entry q i (force status e))
  force-Keeps q i e status at_i live = set-IsFinal q.heap i e (force status e) at_i live

  remove_waiting-heap :
      (q q' : AdmissionQueue) (i : ℕ) → remove_waiting q i ≡ ok q' → q'.heap ≡ q.heap
  unfolding remove_waiting
  remove_waiting-heap q q' i h = ground arith

  module _ (clock : ℕ → f.F) where
    ends-Keeps :
        (q q₁ q' : AdmissionQueue) (i : ℕ) (status : DispatchStatus) (message : Option String)
        → remove_waiting q i ≡ ok q₁
        → complete clock q₁ i status message ≡ ok q'
        → Keeps q q'
    ends-Keeps q q₁ q' i status message removed ended =
        subst (λ l. IsFinal l q'.heap) (remove_waiting-heap q q₁ i removed)
          (complete-IsFinal clock q₁ q' i status message ended)

    expire-Keeps :
        (q q' : AdmissionQueue) (i : ℕ) (e : QueueEntry) (s : RequestState)
        → get_elem? q.heap i ≡ some e
        → e.state ≡ s
        → expire clock q i e s ≡ ok q'
        → Keeps q q'
    expire-Keeps q q' i e done at_i is h = same-Keeps q q' (ground arith)
    expire-Keeps q q' i e in_flight at_i is h =
        let same : set_entry q i (force timeout e) ≡ q' = cc in
        subst (Keeps q) same (force-Keeps q i e timeout at_i (ground arith))
    expire-Keeps q q' i e waiting_state at_i is h =
        let (q₁, removed, ended) = >>=-eq-ok (remove_waiting q i) _ h in
        ends-Keeps q q₁ q' i _ _ removed ended

    withdraw-Keeps :
        (q q' : AdmissionQueue) (i : ℕ) (e : QueueEntry) (s : RequestState)
        → get_elem? q.heap i ≡ some e
        → e.state ≡ s
        → withdraw clock q i e s ≡ ok q'
        → Keeps q q'
    withdraw-Keeps q q' i e done at_i is h = same-Keeps q q' (ground arith)
    withdraw-Keeps q q' i e in_flight at_i is h =
        let same : set_entry q i (force cancelled e) ≡ q' = cc in
        subst (Keeps q) same (force-Keeps q i e cancelled at_i (ground arith))
    withdraw-Keeps q q' i e waiting_state at_i is h =
        let (q₁, removed, ended) = >>=-eq-ok (remove_waiting q i) _ h in
        ends-Keeps q q₁ q' i _ _ removed ended

    cancel_waiting-Keeps :
        (ids : List ℕ) (q q' : AdmissionQueue) → cancel_waiting clock ids q ≡ ok q' → Keeps q q'
    unfolding cancel_waiting
    cancel_waiting-Keeps [] q q' h = same-Keeps q q' (ground arith)
    cancel_waiting-Keeps (i ∷ is) q q' h =
        let (q₁, removed, h₁) = >>=-eq-ok (remove_waiting q i) _ h in
        let (q₂, ended, rest) =
          >>=-eq-ok (complete clock q₁ i cancelled (some "admission queue closed before dispatch"))
            _ h₁ in
        IsFinal-trans q.heap q₂.heap q'.heap (ends-Keeps q q₁ q₂ i _ _ removed ended)
          (cancel_waiting-Keeps is q₂ q' rest)

    cancel_in_flight-Keeps :
        (ids : List ℕ) (q q' : AdmissionQueue)
        → All (λ j. flight_at (get_elem? q.heap j) ≡ true) ids
        → cancel_in_flight clock ids q ≡ ok q'
        → Keeps q q'
    unfolding cancel_in_flight
    cancel_in_flight-Keeps [] q q' a h = same-Keeps q q' (ground arith)
    cancel_in_flight-Keeps (i ∷ is) q q' a h =
        let (e, at_i, rest) = >>=-eq-ok (deref q i) _ h in
        let at_e = deref-get q i e at_i in
        let flies_e : is_in_flight e.state ≡ true = subst (λ o. flight_at o ≡ true) at_e a.0 in
        let q₁ = set_entry q i (force cancelled e) in
        IsFinal-trans q.heap q₁.heap q'.heap (force-Keeps q i e cancelled at_e (ground arith)) (
          cancel_in_flight-Keeps is q₁ q'
            (All-write (λ o. flight_at o ≡ true) q.heap i e (force cancelled e) is at_e (λ k. k)
              a.1)
            rest)

    submit-Keeps :
        (q : AdmissionQueue) (envelope : Envelope) (r : Submission × AdmissionQueue)
        → Sound q
        → submit clock q envelope ≡ ok r
        → Keeps q r.1
    unfolding submit
    submit-Keeps q envelope r v h =
        let (_, k) =
          >>-eq-ok
            (raise_if (not q.started || q.closing || q.closed)
              (runtime_error "admission queue is not accepting requests"))
            _ h in
        elim (if-cases (leb_ℤ q.queue_capacity (pos (length q.waiting))) _ _ k) [
          | inl (_, full) ↦ same-Keeps q r.1 (ground arith)
          | inr (room, admitted) ↦
              let e = new_entry clock envelope (clock q.reads) in
              let q₁ = enqueue clock (record q { reads = suc q.reads }) e in
              let v₁ : Sound q₁ = IsSound-enqueue v e refl (refl, refl, refl) (ground arith) in
              let (q₂, loop, last) = >>=-eq-ok (admit_available clock q₁) _ admitted in
              let same : q₂ ≡ r.1 = ground arith in
              subst (Keeps q) same (
                IsFinal-trans q.heap q₁.heap q₂.heap (append-IsFinal q.heap e)
                  (admit_loop-IsFinal clock (length q₁.waiting) q₁ q₂ v₁ loop))
        ]

    settled-heap :
        (q : AdmissionQueue) (e : QueueEntry) (status : DispatchStatus)
        → (settled_status clock q e status).1.heap ≡ q.heap
    settled-heap q e status = elim (Option-cases e.forced_status) [
      | inl k ↦ rw k refl
      | inr (forced, k) ↦ rw k refl
    ]

    backend_done-Keeps :
        (q q' : AdmissionQueue) (i : ℕ) (outcome : BackendOutcome)
        → Sound q
        → backend_done clock q i outcome ≡ ok q'
        → Keeps q q'
    unfolding backend_done
    backend_done-Keeps q q' i outcome v h =
        let (e, at_i, h₁) = >>=-eq-ok (deref q i) _ h in
        let (sent, h₂) =
          >>-eq-ok (raise_if (elim e.backend_task [ none ↦ true | some r ↦ false ]) _) _ h₁ in
        let at_e = deref-get q i e at_i in
        let c : IsCoherent e = All-get IsCoherent q.heap i e v.coherent at_e in
        let n = not_waiting q i e v at_e (sent-state e e.state c (ground arith)) in
        let (status, q₁) = settled_status clock q e (backend_status outcome) in
        let (v₁, n₁) = settled-Sound clock q e (backend_status outcome) i v n in
        let (q₂, ended, loop) =
          >>=-eq-ok (complete clock q₁ i status (final_message status (backend_message outcome))) _
            h₂ in
        let v₂ = complete-Sound clock q₁ q₂ i status _ v₁ n₁ ended in
        let heap : q₁.heap ≡ q.heap = settled-heap q e (backend_status outcome) in
        IsFinal-trans q.heap q₂.heap q'.heap
          (subst (λ l. IsFinal l q₂.heap) heap (complete-IsFinal clock q₁ q₂ i status _ ended))
          (admit_loop-IsFinal clock (length q₂.waiting) q₂ q' v₂ loop)

    close-Keeps : (q q' : AdmissionQueue) → close clock q ≡ ok q' → Keeps q q'
    unfolding close
    close-Keeps q q' h = elim (if-cases q.closed _ _ h) [
      | inl (_, k) ↦ same-Keeps q q' (ground arith)
      | inr (_, k) ↦ elim (if-cases (not q.started) _ _ k) [
        | inl (_, m) ↦ same-Keeps q q' (ground arith)
        | inr (_, m) ↦
            let q₀ : AdmissionQueue = record q { closing = true } in
            let (q₁, emptied, rest) = >>=-eq-ok (cancel_waiting clock q.waiting q₀) _ m in
            IsFinal-trans q.heap q₁.heap q'.heap (cancel_waiting-Keeps q.waiting q₀ q₁ emptied) (
              cancel_in_flight-Keeps (in_flight_entries q₁) q₁ q'
                (select-All (λ j. flight_at (get_elem? q₁.heap j)) q₁.entries) rest)
      ]
    ]

    step-Keeps : (q q' : AdmissionQueue) (e : Event) → Sound q → step clock q e ≡ ok q' → Keeps q q'
    unfolding step close_finally watch_timeout cancel_from_submitter start
    step-Keeps q q' starts v h = same-Keeps q q' (ground arith)
    step-Keeps q q' closes v h = close-Keeps q q' h
    step-Keeps q q' closes_finally v h = same-Keeps q q' (ground arith)
    step-Keeps q q' (submits envelope) v h =
        let (r, submitted, k) = >>=-eq-ok (submit clock q envelope) _ h in
        let same : r.1 ≡ q' = cc in subst (Keeps q) same (submit-Keeps q envelope r v submitted)
    step-Keeps q q' (backend_ends i outcome) v h = backend_done-Keeps q q' i outcome v h
    step-Keeps q q' (timer_fires i) v h =
        let (e, at_i, h₁) = >>=-eq-ok (deref q i) _ h in
        let q₁ : AdmissionQueue = record q { reads = suc q.reads } in
        elim (if-cases (zero_f ≺ (e.enqueue_time_s ⊕ q.request_timeout_s) ⊖ clock q.reads) (ok q₁)
          (expire clock q₁ i e e.state) h₁) [
            | inl (_, k) ↦ same-Keeps q q' (ground arith)
            | inr (_, k) ↦ expire-Keeps q₁ q' i e e.state (deref-get q i e at_i) refl k
          ]
    step-Keeps q q' (submitter_cancels i) v h =
        let (e, at_i, h₁) = >>=-eq-ok (deref q i) _ h in
        withdraw-Keeps q q' i e e.state (deref-get q i e at_i) refl h₁

    -- Results are final: from a well-formed queue, an entry that is done is the very same entry, its
    -- result included, after whatever the event loop runs.
    pub run-IsFinal :
        (es : List Event) (q q' : AdmissionQueue)
        → Sound q
        → run clock q es ≡ ok q'
        → IsFinal q.heap q'.heap
    unfolding run
    run-IsFinal [] q q' v h = same-Keeps q q' (ground arith)
    run-IsFinal (e ∷ es) q q' v h =
        let (q₁, stepped, rest) = >>=-eq-ok (step clock q e) _ h in
        IsFinal-trans q.heap q₁.heap q'.heap (step-Keeps q q₁ e v stepped)
          (run-IsFinal es q₁ q' (step-Sound clock q q₁ e v stepped) rest)
