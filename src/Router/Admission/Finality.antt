-- ===== src/Router/Admission/Finality.antt =====
-- About the entries of router/admission.py that are done, under completion and the admission loop.
use sloserve.Prelude.{
  ℕ, zero, suc, Option, some, List, [], ◌∷◌, ◌++◌, get_elem?, get_elem?-set_ne, set, String, true,
  false, ok, ◌≡◌, sym, ap, ◌∙◌, arith, >>=-eq-ok, if-cases, inl, inr, subst,
}
use sloserve.Float.{Float, ◌≼◌, ◌⊖◌}
use native.Mathlib.Decide.{ℕ_discrete}
use sloserve.Workload.Dispatcher.{DispatchStatus}
use sloserve.Router.Admission.{
  AdmissionQueue, QueueEntry, complete, finish, admit_entry, select_next, admit_loop, deref, decide,
  dispatch, sent_entry, waiting_state, is_done,
}
use sloserve.Router.Admission.Soundness.{Waits}
use sloserve.Router.Admission.Invariant.{
  Sound, admit_loop-cases, decide-keeps, deref-get, select_next-Selected, admit_entry-Sound, Room,
}

module _ ⦃f : Float⦄ where
  -- What is done in the first heap is the same in the second.
  abbrev pub IsFinal : List QueueEntry → List QueueEntry → Type 0
  IsFinal h h' =
      (i : ℕ) (e : QueueEntry)
      → get_elem? h i ≡ some e
      → is_done e.state ≡ true
      → get_elem? h' i ≡ some e

  pub IsFinal-trans : (g h k : List QueueEntry) → IsFinal g h → IsFinal h k → IsFinal g k
  IsFinal-trans g h k a b = λ i e at_i d. b i e (a i e at_i d) d

  -- A write over an entry that is not done.
  pub set-IsFinal :
      (h : List QueueEntry) (i : ℕ) (e d : QueueEntry)
      → get_elem? h i ≡ some e
      → is_done e.state ≡ false
      → IsFinal h (set h i d)
  set-IsFinal h i e d at_i live = λ j e' at_j fin. elim (ℕ_discrete i j) [
    | yes same ↦
        let here : get_elem? h i ≡ some e' = ap (get_elem? h) same ∙ at_j in absurd (ground arith)
    | no other ↦ get_elem?-set_ne h i j d other ∙ at_j
  ]

  pub append-IsFinal : (h : List QueueEntry) (d : QueueEntry) → IsFinal h (h ++ d ∷ [])
  append-IsFinal [] d i e at_i fin = absurd (cc)
  append-IsFinal (x ∷ xs) d zero e at_i fin = at_i
  append-IsFinal (x ∷ xs) d (suc i) e at_i fin = append-IsFinal xs d i e at_i fin

  module _ (clock : ℕ → f.F) where
    pub complete-IsFinal :
        (q q' : AdmissionQueue) (i : ℕ) (status : DispatchStatus) (message : Option String)
        → complete clock q i status message ≡ ok q'
        → IsFinal q.heap q'.heap
    unfolding complete
    complete-IsFinal q q' i status message h =
        let (e, at_i, k) = >>=-eq-ok (deref q i) _ h in
        elim (if-cases (is_done e.state) _ _ k) [
          | inl (_, same) ↦
              let e' : q ≡ q' = cc in subst (λ s. IsFinal q.heap s.heap) e' (λ j d at_j fin. at_j)
          | inr (live, last) ↦
              let e' : finish clock q i e status message ≡ q' = cc in
              subst (λ s. IsFinal q.heap s.heap) e'
                (set-IsFinal q.heap i e _ (deref-get q i e at_i) live)
        ]

    admit_entry-IsFinal :
        (q q' : AdmissionQueue) (i : ℕ)
        → Waits (get_elem? q.heap i)
        → admit_entry clock q i ≡ ok q'
        → IsFinal q.heap q'.heap
    unfolding admit_entry
    admit_entry-IsFinal q q' i w h =
        let (e, at_i, k) = >>=-eq-ok (deref q i) _ h in
        let at_e = deref-get q i e at_i in
        let was : e.state ≡ waiting_state = subst Waits at_e w in
        let q₁ : AdmissionQueue = record q { reads = suc q.reads } in
        elim (if-cases (q.request_timeout_s ≼ clock q.reads ⊖ e.enqueue_time_s) _ _ k) [
          | inl (_, late) ↦ complete-IsFinal q₁ q' i _ _ late
          | inr (_, sent) ↦
              let ((e', q''), d, last) = >>=-eq-ok (decide clock q₁ i e) _ sent in
              let (heap, _, _, _, _, _, _) = decide-keeps clock q₁ q'' i e e' d in
              let same : dispatch clock q'' i e' ≡ q' = cc in
              let final : IsFinal q.heap (set q.heap i (sent_entry clock e' (clock q''.reads))) =
                set-IsFinal q.heap i e _ at_e (ground arith) in
              subst (λ s. IsFinal q.heap s.heap) same
                (subst (λ l. IsFinal q.heap (set l i (sent_entry clock e' (clock q''.reads))))
                  (sym heap) final)
        ]

    select_next-heap :
        (q q' : AdmissionQueue) (i : ℕ) → select_next clock q ≡ ok (i, q') → q'.heap ≡ q.heap
    unfolding select_next
    select_next-heap q q' i h = ground arith

    pub admit_loop-IsFinal :
        (n : ℕ) (q q' : AdmissionQueue)
        → Sound q
        → admit_loop clock n q ≡ ok q'
        → IsFinal q.heap q'.heap
    unfolding admit_loop
    admit_loop-IsFinal zero q q' v h =
        let e : q ≡ q' = cc in subst (λ s. IsFinal q.heap s.heap) e (λ j d at_j fin. at_j)
    admit_loop-IsFinal (suc n) q q' v h = elim (admit_loop-cases clock n q q' h) [
      | inl (_, e) ↦ subst (λ s. IsFinal q.heap s.heap) e (λ j d at_j fin. at_j)
      | inr (open_, ((i, s), chosen, (t, sent, rest))) ↦
          let (v', w, d, flying, limit) = select_next-Selected clock q s i v chosen in
          let same = select_next-heap q s i chosen in
          let room : Room clock s = rw (flying, limit) (ground arith) in
          let v'' = admit_entry-Sound clock s t i v' w d room sent in
          let step₁ : IsFinal q.heap t.heap =
            subst (λ l. IsFinal l t.heap) same (admit_entry-IsFinal s t i w sent) in
          IsFinal-trans q.heap t.heap q'.heap step₁ (admit_loop-IsFinal n t q' v'' rest)
    ]
