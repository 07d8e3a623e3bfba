-- ===== src/Router/Admission/Deadlines.antt =====
-- About the deadline of a request in router/admission.py.
use sloserve.Prelude.{
  ℕ, suc, true, false, Option, some, List, [], ◌∷◌, any, All, get_elem?, get_elem?-set_self, ◌==◌,
  ==_iff, ok, ◌≡◌, ◌≢◌, refl, sym, subst, ap, arith, ok_inj, length, Bool-cases, inl, inr, ◌>>=◌,
  >>=-eq-ok, >>-eq-ok, raise_if, none, String, ◌∙◌,
}
use sloserve.Float.{Float, ◌≺◌, ◌⊕◌, ◌⊖◌, zero_f}
use sloserve.Workload.Dispatcher.{DispatchStatus, timeout, cancelled}
use sloserve.Router.Admission.{
  AdmissionQueue, QueueEntry, AdmissionResult, waiting_state, in_flight, done, discard, deref,
  complete, finish, timeout_error_message, is_done,
}
use sloserve.Router.Admission.Soundness.{Waits, IsSound-discard}
use sloserve.Router.Admission.Invariant.{Sound, complete-Sound, deref-get}
use sloserve.Router.Admission.Finality.{admit_loop-IsFinal}
use sloserve.Router.Admission.Preservation.{not_waiting}
use sloserve.Router.Admission.Handlers.{
  watch_timeout, cancel_from_submitter, remove_waiting, backend_done, settled_status,
  backend_status, backend_message, final_message, BackendOutcome,
}

some_inj {ℓ} : {A : Type ℓ} {a b : A} → some a ≡ some b → a ≡ b
some_inj h = cc

module _ ⦃f : Float⦄ where
  All-any : (P : ℕ → Type 0) (i : ℕ) (xs : List ℕ) → All P xs → any (λ j. i == j) xs ≡ true → P i
  All-any P i [] a h = absurd (cc)
  All-any P i (x ∷ xs) a h = elim (Bool-cases (i == x)) [
    | inl e ↦ subst P (sym ((==_iff i x).0 e)) a.0
    | inr e ↦ All-any P i xs a.1 (ground arith)
  ]

  -- The result of an entry that is done.
  abbrev pub IsResult : DispatchStatus → Option QueueEntry → Type 0
  IsResult status entry =
      (e : QueueEntry) × (r : AdmissionResult) × (entry ≡ some e)
      × (e.state ≡ done)
      × (e.result ≡ some r)
      × (r.status ≡ status)

  module _ (clock : ℕ → f.F) where
    -- An entry taken out of `waiting` and completed.
    removed-IsResult :
        (q : AdmissionQueue) (i : ℕ) (e : QueueEntry) (status : DispatchStatus)
        (message : Option String)
        → Sound q
        → get_elem? q.heap i ≡ some e
        → e.state ≡ waiting_state
        → any (λ j. i == j) q.waiting ≡ true
        → (q' : AdmissionQueue) × ((remove_waiting q i >>= λ q₁. complete clock q₁ i status message)
            ≡ ok q')
          × IsResult status (get_elem? q'.heap i)
          × All (λ j. i ≢ j) q'.waiting
          × Sound q'
    unfolding remove_waiting complete
    removed-IsResult q i e status message v at_i was w =
        let q₁ : AdmissionQueue = record q { waiting = discard i q.waiting } in
        let (sound, absent) = IsSound-discard v i in
        let q₂ = finish clock q₁ i e status message in
        let completed : complete clock q₁ i status message ≡ ok q₂ = rw (at_i, was) refl in
        (
          q₂,
          rw (w, at_i, was) refl,
          (_, _, get_elem?-set_self q.heap i _ e at_i, refl, refl, refl),
          absent,
          complete-Sound clock q₁ q₂ i status message sound absent completed,
        )

    waiting-state :
        (q : AdmissionQueue) (i : ℕ) (e : QueueEntry)
        → Sound q
        → get_elem? q.heap i ≡ some e
        → any (λ j. i == j) q.waiting ≡ true
        → e.state ≡ waiting_state
    waiting-state q i e v at_i w =
        subst Waits at_i (All-any (λ j. Waits (get_elem? q.heap j)) i q.waiting v.waits w)

    -- A request that waits when its deadline comes is taken out of the queue and gets the result
    -- "timeout"; the queue stays sound.
    pub watch_timeout-expires :
        (q : AdmissionQueue) (i : ℕ) (e : QueueEntry)
        → Sound q
        → any (λ j. i == j) q.waiting ≡ true
        → get_elem? q.heap i ≡ some e
        → (zero_f ≺ (e.enqueue_time_s ⊕ q.request_timeout_s) ⊖ clock q.reads) ≡ false
        → (q' : AdmissionQueue) × (watch_timeout clock q i ≡ ok q')
          × IsResult timeout (get_elem? q'.heap i)
          × All (λ j. i ≢ j) q'.waiting
          × Sound q'
    unfolding watch_timeout
    watch_timeout-expires q i e v w at_i late =
        let was = waiting-state q i e v at_i w in
        let (q', removed, result, absent, sound) =
          removed-IsResult (record q { reads = suc q.reads }) i e timeout
            (some timeout_error_message) v at_i was w in
        (q', rw (at_i, late, was) removed, result, absent, sound)

    -- A request whose caller gives up while it waits is taken out of the queue and gets the result
    -- "cancelled"; the queue stays sound.
    pub cancel_from_submitter-withdraws :
        (q : AdmissionQueue) (i : ℕ) (e : QueueEntry)
        → Sound q
        → any (λ j. i == j) q.waiting ≡ true
        → get_elem? q.heap i ≡ some e
        → (q' : AdmissionQueue) × (cancel_from_submitter clock q i ≡ ok q')
          × IsResult cancelled (get_elem? q'.heap i)
          × All (λ j. i ≢ j) q'.waiting
          × Sound q'
    unfolding cancel_from_submitter
    cancel_from_submitter-withdraws q i e v w at_i =
        let was = waiting-state q i e v at_i w in
        let (q', removed, result, absent, sound) =
          removed-IsResult q i e cancelled (some "submit caller cancelled before dispatch") v at_i
            was w in
        (q', rw (at_i, was) removed, result, absent, sound)

    complete-IsResult :
        (q q' : AdmissionQueue) (i : ℕ) (e : QueueEntry) (status : DispatchStatus)
        (message : Option String)
        → get_elem? q.heap i ≡ some e
        → e.state ≡ in_flight
        → complete clock q i status message ≡ ok q'
        → IsResult status (get_elem? q'.heap i)
    unfolding complete
    complete-IsResult q q' i e status message at_i flying h =
        let finished : complete clock q i status message ≡ ok (finish clock q i e status message) =
          rw (at_i, flying) refl in
        let same : finish clock q i e status message ≡ q' = ok_inj (sym finished ∙ h) in
        subst (λ s. IsResult status (get_elem? s.heap i)) same
          (_, _, get_elem?-set_self q.heap i _ e at_i, refl, refl, refl)

    settled-forced :
        (q : AdmissionQueue) (e : QueueEntry) (natural status : DispatchStatus)
        → e.forced_status ≡ some status
        → settled_status clock q e natural ≡ (status, q)
    settled-forced q e natural status h = rw (settled_status, h) refl

    -- However the backend's task of a request ends, a status that a deadline, its caller or the closing
    -- of the queue forced on the request before is the status of its result.
    pub backend_done-forced :
        (q q' : AdmissionQueue) (i : ℕ) (e : QueueEntry) (status : DispatchStatus)
        (outcome : BackendOutcome)
        → Sound q
        → get_elem? q.heap i ≡ some e
        → e.state ≡ in_flight
        → e.forced_status ≡ some status
        → backend_done clock q i outcome ≡ ok q'
        → IsResult status (get_elem? q'.heap i)
    unfolding backend_done complete
    backend_done-forced q q' i e status outcome v at_i flying forced h =
        let (e₁, at_i', h) = >>=-eq-ok (deref q i) _ h in
        let at₁ = deref-get q i e₁ at_i' in
        let same : e ≡ e₁ = some_inj (sym at_i ∙ at₁) in
        let flying₁ = subst (λ x. x.state ≡ in_flight) same flying in
        let forced₁ = subst (λ x. x.forced_status ≡ some status) same forced in
        let (_, h) =
          >>-eq-ok (raise_if (elim e₁.backend_task [ none ↦ true | some r ↦ false ]) _) _ h in
        let message = backend_message outcome in
        let settled = settled_status clock q e₁ (backend_status outcome) in
        let (q₂, ended, loop) =
          >>=-eq-ok (complete clock settled.1 i settled.0 (final_message settled.0 message)) _ h in
        let is_forced : settled ≡ (status, q) =
          settled-forced q e₁ (backend_status outcome) status forced₁ in
        let ended' : complete clock q i status (final_message status message) ≡ ok q₂ =
          subst (λ p. complete clock p.1 i p.0 (final_message p.0 message) ≡ ok q₂) is_forced
            ended in
        let n = not_waiting q i e₁ v at₁ (λ w. absurd (ground (arith, w, flying₁))) in
        let sound = complete-Sound clock q q₂ i status (final_message status message) v n ended' in
        let (d, r, at_d, was_done, has_result, is_status) =
          complete-IsResult q q₂ i e₁ status (final_message status message) at₁ flying₁ ended' in
        (
          d,
          r,
          admit_loop-IsFinal clock (length q₂.waiting) q₂ q' sound loop i d at_d
              (ap is_done was_done),
          was_done,
          has_result,
          is_status,
        )
