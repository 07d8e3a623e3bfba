-- ===== src/Router/Admission/Soundness.antt =====
-- The well-formedness of the queue's lists and heap, and the four kinds of writes that keep it.
use native.Mathlib.Decide.{ℕ_discrete}
use sloserve.Prelude.{
  ℕ, ℤ, pos, zero, suc, ◌<◌, ◌==◌, ==_iff, ◌≤ℤ◌, ltb_ℤ, Bool, true, false, not, Option, none, some,
  List, [], ◌∷◌, ◌++◌, length, length-append, get_elem?, set, select, any, All, All-map, All-append,
  All-set, get_elem?-set_ne, get_elem?-set_self, ◌≡◌, ◌≢◌, refl, sym, ap, arith, ◌∙◌, subst,
}
use sloserve.Float.{Float}
use sloserve.Router.Admission.State.{
  QueueEntry, AdmissionResult, RequestState, waiting_state, in_flight, done, is_done, discard,
}
use sloserve.Router.Admission.Counting.{
  Distinct, discard-All, discard-Distinct, discard-ne, snoc-Distinct, length-discard_le,
  length-select-discard, flies, length-flight-set_le, length-flight-set, length-flight-append,
  All-append_heap, All-set_heap, get_elem?-append_last,
}

module _ ⦃f : Float⦄ where
  -- A result that answers for its entry: with its ids, its times and its effective envelope.
  pub record Answers (e : QueueEntry) (r : AdmissionResult) : Type 0 where
    pub request_id : r.request_id ≡ e.envelope.request.request_id
    pub sequence_id : r.sequence_id ≡ e.envelope.request.sequence_id
    pub enqueue_time_s : r.enqueue_time_s ≡ e.enqueue_time_s
    pub dispatch_time_s : r.dispatch_time_s ≡ e.dispatch_time_s
    pub effective_envelope : r.effective_envelope ≡ e.envelope.request

  -- An entry waits with nothing sent, flies with its very envelope sent and no result, or is done with
  -- a result that answers for it.
  abbrev pub Coherent : RequestState → QueueEntry → Type 0
  Coherent waiting_state e =
      (e.backend_task ≡ none) × (e.dispatch_time_s ≡ none) × (e.result ≡ none)
  Coherent in_flight e =
      (e.backend_task ≡ some e.envelope.request) × (e.dispatch_time_s ≢ none) × (e.result ≡ none)
  Coherent done e = (r : AdmissionResult) × (e.result ≡ some r) × Answers e r

  abbrev pub IsCoherent : QueueEntry → Type 0
  IsCoherent e = Coherent e.state e

  abbrev pub Waits : Option QueueEntry → Type 0
  Waits none = ⊥
  Waits (some e) = e.state ≡ waiting_state

  abbrev pub lives : Option QueueEntry → Bool
  lives none = false
  lives (some e) = not (is_done e.state)

  abbrev pub Live : List QueueEntry → ℕ → Type 0
  Live h j = lives (get_elem? h j) ≡ true

  -- `capacity` bounds the entries that wait and `limit` those in flight; the dictionary holds
  -- exactly the entries that are not done, each once.
  pub record IsSound (capacity limit : ℤ) (heap : List QueueEntry) (waiting entries : List ℕ)
      : Type 0 where
    pub coherent : All IsCoherent heap
    pub waits : All (λ i. Waits (get_elem? heap i)) waiting
    pub waiting_distinct : Distinct waiting
    pub entries_distinct : Distinct entries
    pub entries_live : All (Live heap) entries
    pub tracked : (i : ℕ) → Live heap i → any (λ j. i == j) entries ≡ true
    pub bounded : pos (length waiting) ≤ℤ capacity
    pub flight : pos (length (select (flies heap) entries)) ≤ℤ limit

  any-discard :
      (i j : ℕ) (xs : List ℕ)
      → i ≢ j
      → any (λ k. j == k) xs ≡ true
      → any (λ k. j == k) (discard i xs) ≡ true
  any-discard i j [] n h = h
  any-discard i j (x ∷ xs) n h = ground (arith, any-discard i j xs n, ==_iff i x, ==_iff j x)

  any-append :
      (j : ℕ) (xs ys : List ℕ) → any (λ k. j == k) xs ≡ true → any (λ k. j == k) (xs ++ ys) ≡ true
  any-append j [] ys h = absurd (cc)
  any-append j (x ∷ xs) ys h = ground (arith, any-append j xs ys)

  any-append_last : (j : ℕ) (xs : List ℕ) → any (λ k. j == k) (xs ++ j ∷ []) ≡ true
  any-append_last j [] = ground arith
  any-append_last j (x ∷ xs) = ground (arith, any-append_last j xs)

  get_elem?-lt : (h : List QueueEntry) (j : ℕ) → lives (get_elem? h j) ≡ true → j < length h
  get_elem?-lt [] j l = absurd (cc)
  get_elem?-lt (x ∷ xs) zero l = omega arith
  get_elem?-lt (x ∷ xs) (suc j) l = omega (arith, get_elem?-lt xs j l)

  lives-set_self :
      (h : List QueueEntry) (i : ℕ) (d : QueueEntry)
      → Live (set h i d) i
      → (is_done d.state ≡ false) × (i < length h)
  lives-set_self [] i d l = absurd (cc)
  lives-set_self (x ∷ xs) zero d l = (ground arith, omega arith)
  lives-set_self (x ∷ xs) (suc i) d l =
      let (a, b) = lives-set_self xs i d l in (a, omega (arith, b))

  -- A property of the addressed entries that the written entry has too.
  pub All-write :
      (P : Option QueueEntry → Type 0) (h : List QueueEntry) (i : ℕ) (e d : QueueEntry)
      (ids : List ℕ)
      → get_elem? h i ≡ some e
      → (P (some e) → P (some d))
      → All (λ j. P (get_elem? h j)) ids
      → All (λ j. P (get_elem? (set h i d) j)) ids
  All-write P h i e d [] at_i k a = tt
  All-write P h i e d (j ∷ js) at_i k a = (
    elim (ℕ_discrete i j) [
      | yes same ↦
          subst (λ n. P (get_elem? (set h i d) n)) same
            (subst P (sym (get_elem?-set_self h i d e at_i))
              (k (subst P (ap (get_elem? h) (sym same) ∙ at_i) a.0)))
      | no other ↦ subst P (sym (get_elem?-set_ne h i j d other)) a.0
    ],
    All-write P h i e d js at_i k a.1,
  )

  -- An entry lives after a write only if it lived before, where the entry written over did.
  Live-write :
      (h : List QueueEntry) (i j : ℕ) (e d : QueueEntry)
      → get_elem? h i ≡ some e
      → is_done e.state ≡ false
      → Live (set h i d) j
      → Live h j
  Live-write h i j e d at_i was l = elim (ℕ_discrete i j) [
    | yes same ↦ subst (Live h) same (rw at_i (ground arith))
    | no other ↦ subst (λ o. lives o ≡ true) (get_elem?-set_ne h i j d other) l
  ]

  Waits-lives : (o : Option QueueEntry) → Waits o → lives o ≡ true
  Waits-lives none w = absurd w
  Waits-lives (some e) w = ground arith

  Live-append :
      (h : List QueueEntry) (d : QueueEntry) (j : ℕ)
      → j ≢ length h
      → Live (h ++ d ∷ []) j
      → Live h j
  Live-append [] d zero n l = absurd (n refl)
  Live-append [] d (suc j) n l = l
  Live-append (x ∷ xs) d zero n l = l
  Live-append (x ∷ xs) d (suc j) n l = Live-append xs d j (λ e. n (ap suc e)) l

  module _ {capacity limit : ℤ} {heap : List QueueEntry} {waiting entries : List ℕ}
      (v : IsSound capacity limit heap waiting entries) where
    -- Taking an entry out of `waiting`.
    pub IsSound-discard :
        (i : ℕ)
        → IsSound capacity limit heap (discard i waiting) entries
          × All (λ j. i ≢ j) (discard i waiting)
    IsSound-discard i = (
      record {
        coherent = v.coherent;
        waits = discard-All (λ j. Waits (get_elem? heap j)) i waiting v.waits;
        waiting_distinct = discard-Distinct i waiting v.waiting_distinct;
        entries_distinct = v.entries_distinct;
        entries_live = v.entries_live;
        tracked = v.tracked;
        bounded = omega (arith, v.bounded, length-discard_le i waiting);
        flight = v.flight;
      },
      discard-ne i waiting v.waiting_distinct,
    )

    -- An entry that is done leaves the dictionary.
    pub IsSound-finish :
        (i : ℕ) (d : QueueEntry)
        → d.state ≡ done
        → Coherent done d
        → All (λ j. i ≢ j) waiting
        → IsSound capacity limit (set heap i d) waiting (discard i entries)
    IsSound-finish i d e r n = record {
      coherent = All-set IsCoherent heap i d (subst (λ s. Coherent s d) (sym e) r) v.coherent;
      waits = All-set_heap Waits heap i d waiting n v.waits;
      waiting_distinct = v.waiting_distinct;
      entries_distinct = discard-Distinct i entries v.entries_distinct;
      entries_live =
          All-set_heap (λ o. lives o ≡ true) heap i d (discard i entries)
            (discard-ne i entries v.entries_distinct)
            (discard-All (Live heap) i entries v.entries_live);
      tracked = λ j l. elim (ℕ_discrete i j) [
        | yes k ↦
            let l' : Live (set heap i d) i = rw (← k) at l in
            absurd (ground (arith, lives-set_self heap i d l'))
        | no m ↦
            any-discard i j entries m
              (v.tracked j (subst (λ o. lives o ≡ true) (get_elem?-set_ne heap i j d m) l))
      ];
      bounded = v.bounded;
      flight = omega (
        arith,
        v.flight,
        length-flight-set_le heap i d (discard i entries) (λ k. absurd (ground arith)),
        length-select-discard (flies heap) i entries,
      );
    }

    -- A waiting entry that was taken out of `waiting` goes into flight, where there is room.
    pub IsSound-dispatch :
        (i : ℕ) (e d : QueueEntry)
        → get_elem? heap i ≡ some e
        → e.state ≡ waiting_state
        → d.state ≡ in_flight
        → (d.backend_task ≡ some d.envelope.request)
          × (d.dispatch_time_s ≢ none)
          × (d.result ≡ none)
        → All (λ j. i ≢ j) waiting
        → ltb_ℤ (pos (length (select (flies heap) entries))) limit ≡ true
        → IsSound capacity limit (set heap i d) waiting entries
    IsSound-dispatch i e d at_i was is c n room = record {
      coherent = All-set IsCoherent heap i d (subst (λ s. Coherent s d) (sym is) c) v.coherent;
      waits = All-set_heap Waits heap i d waiting n v.waits;
      waiting_distinct = v.waiting_distinct;
      entries_distinct = v.entries_distinct;
      entries_live =
          All-write (λ o. lives o ≡ true) heap i e d entries at_i (λ _. ground arith)
            v.entries_live;
      tracked = λ j l. v.tracked j (Live-write heap i j e d at_i (ground arith) l);
      bounded = v.bounded;
      flight = ground (arith, length-flight-set heap i d entries v.entries_distinct);
    }

    -- A write that keeps an entry's state and coherence.
    pub IsSound-touch :
        (i : ℕ) (e d : QueueEntry)
        → get_elem? heap i ≡ some e
        → is_done e.state ≡ false
        → d.state ≡ e.state
        → IsCoherent d
        → IsSound capacity limit (set heap i d) waiting entries
    IsSound-touch i e d at_i was same c = record {
      coherent = All-set IsCoherent heap i d c v.coherent;
      waits = All-write Waits heap i e d waiting at_i (λ w. same ∙ w) v.waits;
      waiting_distinct = v.waiting_distinct;
      entries_distinct = v.entries_distinct;
      entries_live =
          All-write (λ o. lives o ≡ true) heap i e d entries at_i (λ _. ground arith)
            v.entries_live;
      tracked = λ j l. v.tracked j (Live-write heap i j e d at_i was l);
      bounded = v.bounded;
      flight =
          omega
            (arith, v.flight, length-flight-set_le heap i d entries (λ k. rw at_i (ground arith)));
    }

    -- A new entry behind all others.
    pub IsSound-enqueue :
        (d : QueueEntry)
        → d.state ≡ waiting_state
        → IsCoherent d
        → ltb_ℤ (pos (length waiting)) capacity ≡ true
        → IsSound capacity limit
            (heap ++ d ∷ [])
            (waiting ++ length heap ∷ [])
            (entries ++ length heap ∷ [])
    IsSound-enqueue d is c room =
        let below = All-map (λ j l. get_elem?-lt heap j l) entries v.entries_live in
        let below_w =
          All-map (λ j w. get_elem?-lt heap j (Waits-lives (get_elem? heap j) w)) waiting v.waits in
        let fresh = length heap in
        let last = get_elem?-append_last heap d in
        record {
          coherent = All-append IsCoherent heap (d ∷ []) v.coherent (c, tt);
          waits =
              All-append _ waiting (fresh ∷ [])
                (All-append_heap Waits heap d waiting below_w v.waits) (rw last is, tt);
          waiting_distinct = snoc-Distinct fresh waiting below_w v.waiting_distinct;
          entries_distinct = snoc-Distinct fresh entries below v.entries_distinct;
          entries_live =
              All-append _ entries (fresh ∷ [])
                (All-append_heap (λ o. lives o ≡ true) heap d entries below v.entries_live)
                (rw last (ground arith), tt);
          tracked = λ j l. elim (ℕ_discrete j fresh) [
            | yes e ↦ rw e (any-append_last fresh entries)
            | no n ↦ any-append j entries (fresh ∷ []) (v.tracked j (Live-append heap d j n l))
          ];
          bounded = ground (arith, length-append waiting (fresh ∷ []));
          flight =
              subst (λ n. pos n ≤ℤ limit)
                (sym (length-flight-append heap d entries (ground arith) below)) v.flight;
        }
