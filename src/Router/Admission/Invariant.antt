-- ===== src/Router/Admission/Invariant.antt =====
-- The well-formed queue of router/admission.py, under completion and the admission loop.
use sloserve.Prelude.{
  ℕ, pos, zero, suc, ltb_ℤ, true, false, Option, none, some, List, [], ◌∷◌, length, get_elem?, All,
  ok, >>=-eq-ok, ◌≡◌, ◌≢◌, refl, arith, if-cases, choice-cases, inl, inr, ◌∙◌, subst, String, ◌==◌,
  All-get, ◌⊎◌,
}
use sloserve.Float.{Float, ◌≼◌, ◌⊖◌}
use sloserve.Router.Policies.{order}
use sloserve.Router.Admission.{
  AdmissionQueue, QueueEntry, waiting_state, is_done, discard, deref, complete, finish, decide,
  dispatch, admit_entry, select_next, has_room, admit_loop, find_envelope, waiting_envelopes,
  head_of, in_flight_entries, sent_entry,
}
use sloserve.Router.Admission.Soundness.{
  IsSound, Waits, IsCoherent, IsSound-discard, IsSound-finish, IsSound-dispatch, Coherent,
}
use sloserve.Workload.Dispatcher.{DispatchStatus}

module _ ⦃f : Float⦄ where
  abbrev pub Sound : AdmissionQueue → Type 0
  Sound q = IsSound q.queue_capacity q.max_in_flight q.heap q.waiting q.entries

  find_envelope-All :
      (P : ℕ → Type 0) (q : AdmissionQueue) (object : ℕ) (ids : List ℕ) (i : ℕ)
      → find_envelope q object ids ≡ ok i
      → All P ids
      → P i
  unfolding find_envelope
  find_envelope-All P q object [] i h a = absurd (cc)
  find_envelope-All P q object (j ∷ js) i h a =
      let (e, at_j, k) = >>=-eq-ok (deref q j) _ h in
      elim (if-cases (e.envelope.object == object) _ _ k) [
        | inl (_, same) ↦ let e' : j ≡ i = cc in subst P e' a.0
        | inr (_, later) ↦ find_envelope-All P q object js i later a.1
      ]

  pub deref-get :
      (q : AdmissionQueue) (i : ℕ) (e : QueueEntry) → deref q i ≡ ok e → get_elem? q.heap i ≡ some e
  deref-get q i e h = ground arith

  module _ (clock : ℕ → f.F) where
    pub complete-Sound :
        (q q' : AdmissionQueue) (i : ℕ) (status : DispatchStatus) (message : Option String)
        → Sound q
        → All (λ j. i ≢ j) q.waiting
        → complete clock q i status message ≡ ok q'
        → Sound q'
    unfolding complete
    complete-Sound q q' i status message v n h =
        let (e, at_i, k) = >>=-eq-ok (deref q i) _ h in
        elim (if-cases (is_done e.state) _ _ k) [
          | inl (_, same) ↦ let e' : q ≡ q' = cc in subst Sound e' v
          | inr (_, last) ↦
              let e' : finish clock q i e status message ≡ q' = cc in
              subst Sound e' (
                IsSound-finish v i _ refl
                  (
                    _,
                    refl,
                    record {
                      request_id = refl;
                      sequence_id = refl;
                      enqueue_time_s = refl;
                      dispatch_time_s = refl;
                      effective_envelope = refl;
                    },
                  )
                  n)
        ]

    waiting-result :
        (q : AdmissionQueue) (v : Sound q) (i : ℕ) (e : QueueEntry)
        → get_elem? q.heap i ≡ some e
        → e.state ≡ waiting_state
        → e.result ≡ none
    waiting-result q v i e at_i w =
        (subst (λ s. Coherent s e) w (All-get IsCoherent q.heap i e v.coherent at_i)).2

    -- The decision touches neither the heap nor the lists, and of the entry only its envelope.
    pub decide-keeps :
        (q q' : AdmissionQueue) (i : ℕ) (e e' : QueueEntry)
        → decide clock q i e ≡ ok (e', q')
        → (q'.heap ≡ q.heap)
          × (q'.waiting ≡ q.waiting)
          × (q'.entries ≡ q.entries)
          × (q'.queue_capacity ≡ q.queue_capacity)
          × (q'.max_in_flight ≡ q.max_in_flight)
          × (e'.state ≡ e.state)
          × (e'.result ≡ e.result)
    unfolding decide
    decide-keeps q q' i e e' h = ground arith

    abbrev pub Room : AdmissionQueue → Type 0
    Room q = ltb_ℤ (pos (length (in_flight_entries q))) q.max_in_flight ≡ true

    dispatch-Sound :
        (q q' : AdmissionQueue) (i : ℕ) (e e' : QueueEntry)
        → Sound q
        → get_elem? q.heap i ≡ some e
        → e.state ≡ waiting_state
        → All (λ j. i ≢ j) q.waiting
        → Room q
        → decide clock q i e ≡ ok (e', q')
        → Sound (dispatch clock q' i e')
    dispatch-Sound q q' i e e' v at_i w n room h =
        let (heap, waiting, entries, cap, limit, state, result) = decide-keeps q q' i e e' h in
        let sent =
          IsSound-dispatch v i e (sent_entry clock e' (clock q'.reads)) at_i w refl
            (refl, (λ z. cc), result ∙ waiting-result q v i e at_i w) n room in
        rw (heap, waiting, entries, cap, limit) sent

    pub admit_entry-Sound :
        (q q' : AdmissionQueue) (i : ℕ)
        → Sound q
        → Waits (get_elem? q.heap i)
        → All (λ j. i ≢ j) q.waiting
        → Room q
        → admit_entry clock q i ≡ ok q'
        → Sound q'
    unfolding admit_entry
    admit_entry-Sound q q' i v w n room h =
        let (e, at_i, k) = >>=-eq-ok (deref q i) _ h in
        let at_e = deref-get q i e at_i in
        let was : e.state ≡ waiting_state = subst Waits at_e w in
        elim (if-cases (q.request_timeout_s ≼ clock q.reads ⊖ e.enqueue_time_s) _ _ k) [
          | inl (_, late) ↦ complete-Sound (record q { reads = suc q.reads }) q' i _ _ v n late
          | inr (_, sent) ↦
              let ((e', q''), d, last) =
                >>=-eq-ok (decide clock (record q { reads = suc q.reads }) i e) _ sent in
              let same : dispatch clock q'' i e' ≡ q' = cc in
              subst Sound same
                (dispatch-Sound (record q { reads = suc q.reads }) q'' i e e' v at_e was n room d)
        ]

    -- What the choice of entry `i` makes of the queue `q`.
    abbrev pub Selected : AdmissionQueue → ℕ → AdmissionQueue → Type 0
    Selected q i q' =
        Sound q'
        × Waits (get_elem? q'.heap i)
        × All (λ j. i ≢ j) q'.waiting
        × (in_flight_entries q' ≡ in_flight_entries q)
        × (q'.max_in_flight ≡ q.max_in_flight)

    pub select_next-Selected :
        (q q' : AdmissionQueue) (i : ℕ)
        → Sound q
        → select_next clock q ≡ ok (i, q')
        → Selected q i q'
    unfolding select_next
    select_next-Selected q q' i v h =
        let (envelopes, _, h₁) = >>=-eq-ok (waiting_envelopes q q.waiting) _ h in
        let (ordered, _, h₂) =
          >>=-eq-ok (order (λ e. e.request) q.policy (clock q.reads) envelopes) _ h₁ in
        let (first, _, h₃) = >>=-eq-ok (head_of ordered) _ h₂ in
        let (j, found, h₄) = >>=-eq-ok (find_envelope q first.object q.waiting) _ h₃ in
        let same : j ≡ i = ground arith in
        let last : record q { reads = suc q.reads; waiting = discard j q.waiting } ≡ q' =
          ground arith in
        let w =
          find_envelope-All (λ k. Waits (get_elem? q.heap k)) q first.object q.waiting j found
            v.waits in
        let (v', n) = IsSound-discard v j in
        let r : Selected q j (record q { reads = suc q.reads; waiting = discard j q.waiting }) =
          (v', w, n, refl, refl) in
        subst (λ k. Selected q k q') same (subst (Selected q j) last r)

    -- A round of the loop: with no room it stops, else it chooses an entry and admits it.
    pub admit_loop-cases :
        (n : ℕ) (q q' : AdmissionQueue)
        → admit_loop clock (suc n) q ≡ ok q'
        → ((has_room clock q ≡ false) × (q ≡ q'))
          ⊎ ((has_room clock q ≡ true)
              × ((s : ℕ × AdmissionQueue) × (select_next clock q ≡ ok s)
                  × ((t : AdmissionQueue) × (admit_entry clock s.1 s.0 ≡ ok t)
                      × (admit_loop clock n t ≡ ok q'))))
    unfolding admit_loop
    admit_loop-cases n q q' h = elim (choice-cases (has_room clock q) _ _ h) [
      | inr (e, k) ↦ inl (e, cc)
      | inl (e, k) ↦
          let (s, chosen, k₁) = >>=-eq-ok (select_next clock q) _ k in
          let (t, sent, k₂) = >>=-eq-ok (admit_entry clock s.1 s.0) _ k₁ in
          inr (e, (s, chosen, (t, sent, k₂)))
    ]

    pub admit_loop-Sound :
        (n : ℕ) (q q' : AdmissionQueue) → Sound q → admit_loop clock n q ≡ ok q' → Sound q'
    unfolding admit_loop
    admit_loop-Sound zero q q' v h = let e : q ≡ q' = cc in subst Sound e v
    admit_loop-Sound (suc n) q q' v h = elim (admit_loop-cases n q q' h) [
      | inl (_, e) ↦ subst Sound e v
      | inr (roomy, ((i, s), chosen, (t, sent, rest))) ↦
          let (v', w, d, flying, limit) = select_next-Selected q s i v chosen in
          let room : Room s = rw (flying, limit) (ground arith) in
          admit_loop-Sound n t q' (admit_entry-Sound s t i v' w d room sent) rest
    ]
