-- ===== src/Router/Admission/Progress.antt =====
-- About the exit of the admission loop of router/admission.py, and its fuel.
use sloserve.Prelude.{
  ℕ, pos, zero, suc, ◌≤◌, leb_ℤ, true, false, not, ◌||◌, Option, none, some, List, [], ◌∷◌, length,
  any, ok, >>=-eq-ok, >>-eq-ok, raise_if, runtime_error, ◌≡◌, refl, arith, if-cases, inl, inr, ◌==◌,
  ==_iff, subst, String,
}
use sloserve.Float.{Float, ◌≼◌, ◌⊖◌}
use sloserve.Router.Policies.{order}
use sloserve.Router.Admission.{
  AdmissionQueue, Envelope, deref, discard, complete, decide, admit_entry, select_next, has_room,
  admit_loop, admit_available, find_envelope, waiting_envelopes, head_of, is_empty,
}
use sloserve.Router.Admission.Counting.{length-discard}
use sloserve.Router.Admission.Invariant.{admit_loop-cases, decide-keeps}
use sloserve.Router.Admission.Handlers.{
  submit, backend_done, BackendOutcome, pending, enqueue, new_entry, settled_status, backend_status,
  backend_message, final_message,
}
use sloserve.Workload.Dispatcher.{DispatchStatus}

no_length-is_empty : (ids : List ℕ) → length ids ≤ 0 → is_empty ids ≡ true
no_length-is_empty [] l = refl
no_length-is_empty (i ∷ is) l = absurd (omega (arith, l))

module _ ⦃f : Float⦄ where
  find_envelope-any :
      (q : AdmissionQueue) (object : ℕ) (ids : List ℕ) (i : ℕ)
      → find_envelope q object ids ≡ ok i
      → any (λ j. i == j) ids ≡ true
  unfolding find_envelope
  find_envelope-any q object [] i h = absurd (cc)
  find_envelope-any q object (j ∷ js) i h =
      let (e, at_j, k) = >>=-eq-ok (deref q j) _ h in
      elim (if-cases (e.envelope.object == object) _ _ k) [
        | inl (_, same) ↦ let e' : j ≡ i = cc in ground (arith, ==_iff i j)
        | inr (_, later) ↦ ground (arith, find_envelope-any q object js i later)
      ]

  module _ (clock : ℕ → f.F) where
    select_next-shrinks :
        (q q' : AdmissionQueue) (i : ℕ)
        → select_next clock q ≡ ok (i, q')
        → suc (length q'.waiting) ≡ length q.waiting
    unfolding select_next
    select_next-shrinks q q' i h =
        let (envelopes, _, h₁) = >>=-eq-ok (waiting_envelopes q q.waiting) _ h in
        let (ordered, _, h₂) =
          >>=-eq-ok (order (λ e. e.request) q.policy (clock q.reads) envelopes) _ h₁ in
        let (first, _, h₃) = >>=-eq-ok (head_of ordered) _ h₂ in
        let (j, found, h₄) = >>=-eq-ok (find_envelope q first.object q.waiting) _ h₃ in
        let e : discard j q.waiting ≡ q'.waiting = ground arith in
        rw (← e) (length-discard j q.waiting (find_envelope-any q first.object q.waiting j found))

    complete-waiting :
        (q q' : AdmissionQueue) (i : ℕ) (status : DispatchStatus) (message : Option String)
        → complete clock q i status message ≡ ok q'
        → q'.waiting ≡ q.waiting
    unfolding complete
    complete-waiting q q' i status message h = ground arith

    admit_entry-waiting :
        (q q' : AdmissionQueue) (i : ℕ) → admit_entry clock q i ≡ ok q' → q'.waiting ≡ q.waiting
    unfolding admit_entry
    admit_entry-waiting q q' i h =
        let (e, _, k) = >>=-eq-ok (deref q i) _ h in
        let q₁ : AdmissionQueue = record q { reads = suc q.reads } in
        elim (if-cases (q.request_timeout_s ≼ clock q.reads ⊖ e.enqueue_time_s) _ _ k) [
          | inl (_, late) ↦ complete-waiting q₁ q' i _ _ late
          | inr (_, sent) ↦
              let ((e', q''), d, last) = >>=-eq-ok (decide clock q₁ i e) _ sent in
              let (_, w, _, _, _, _, _) = decide-keeps clock q₁ q'' i e e' d in ground arith
        ]

    -- Fuel for every waiting entry is enough: the loop ends because its condition fails.
    admit_loop-exhausts :
        (n : ℕ) (q q' : AdmissionQueue)
        → length q.waiting ≤ n
        → admit_loop clock n q ≡ ok q'
        → has_room clock q' ≡ false
    unfolding admit_loop
    admit_loop-exhausts zero q q' l h = ground (arith, no_length-is_empty q.waiting l)
    admit_loop-exhausts (suc n) q q' l h = elim (admit_loop-cases clock n q q' h) [
      | inl (e, same) ↦ subst (λ s. has_room clock s ≡ false) same e
      | inr (_, ((i, s), chosen, (t, sent, rest))) ↦
          let shrinks = select_next-shrinks q s i chosen in
          let keeps = admit_entry-waiting s t i sent in
          admit_loop-exhausts n t q' (rw keeps (omega arith)) rest
    ]

    admit_available-exhausts :
        (q q' : AdmissionQueue) → admit_available clock q ≡ ok q' → has_room clock q' ≡ false
    admit_available-exhausts q q' h = admit_loop-exhausts (length q.waiting) q q' (omega arith) h

    -- Once a request was queued, the queue is closing, or nobody waits, or every slot is taken.
    pub submit-fills :
        (q q' : AdmissionQueue) (envelope : Envelope) (i : ℕ)
        → submit clock q envelope ≡ ok (pending i, q')
        → has_room clock q' ≡ false
    unfolding submit
    submit-fills q q' envelope i h =
        let (_, k) =
          >>-eq-ok
            (raise_if (not q.started || q.closing || q.closed)
              (runtime_error "admission queue is not accepting requests"))
            _ h in
        elim (if-cases (leb_ℤ q.queue_capacity (pos (length q.waiting))) _ _ k) [
          | inl (_, full) ↦ absurd (ground arith)
          | inr (_, admitted) ↦
              let q₁ =
                enqueue clock (record q { reads = suc q.reads })
                  (new_entry clock envelope (clock q.reads)) in
              let (q₂, loop, last) = >>=-eq-ok (admit_available clock q₁) _ admitted in
              let same : q₂ ≡ q' = ground arith in
              subst (λ s. has_room clock s ≡ false) same (admit_available-exhausts q₁ q₂ loop)
        ]

    -- The slot that a finished task leaves is given on at once: after the end of a backend task too
    -- the queue is closing, or nobody waits, or every slot is taken.
    pub backend_done-fills :
        (q q' : AdmissionQueue) (i : ℕ) (outcome : BackendOutcome)
        → backend_done clock q i outcome ≡ ok q'
        → has_room clock q' ≡ false
    unfolding backend_done
    backend_done-fills q q' i outcome h =
        let (e, _, h₁) = >>=-eq-ok (deref q i) _ h in
        let (_, h₂) =
          >>-eq-ok (raise_if (elim e.backend_task [ none ↦ true | some r ↦ false ]) _) _ h₁ in
        let (status, q₁) = settled_status clock q e (backend_status outcome) in
        let (q₂, _, loop) =
          >>=-eq-ok (complete clock q₁ i status (final_message status (backend_message outcome))) _
            h₂ in
        admit_available-exhausts q₂ q' loop
