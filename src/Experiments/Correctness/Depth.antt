-- ===== src/Experiments/Correctness/Depth.antt =====
-- About the sweep of correctness.py over arrivals and departures.
use sloserve.Prelude.{
  ℕ, ℤ, pos, suc, ◌≤ℤ◌, ◌+ℤ◌, ltb_ℤ, int_laws, Bool, true, false, some, List, [], ◌∷◌, All, All-get,
  get_elem?, ◌≡◌, refl, arith, Bool-cases, inl, inr, ◌⊎◌, if◌then◌else◌, ap, ◌∙◌, tests,
}
use sloserve.Prelude.Sorting.{insert_sorted, sorted, lex}
use sloserve.Prelude.Sorting.Laws.{IsInOrder}
use sloserve.Float.{Float, ◌≼◌, IsOrdered}
use sloserve.Experiments.Correctness.{sweep, max_ℤ}

+ℤ_swap : (a b c : ℤ) → a +ℤ (b +ℤ c) ≡ b +ℤ (a +ℤ c)
+ℤ_swap a b c = omega int_laws

module _ ⦃f : Float⦄ where
  abbrev pub later : f.F × ℤ → f.F × ℤ → Bool
  later = lex f.lt ltb_ℤ

  abbrev Ordered : List (f.F × ℤ) → Type 0
  Ordered = IsInOrder later (λ event. event)

  abbrev pub with_event : f.F → f.F × ℤ → ℤ → ℤ
  with_event t event depth = if event.0 ≼ t then event.1 +ℤ depth else depth

  -- The depth that the events up to a time bring.
  abbrev pub depth_at : f.F → List (f.F × ℤ) → ℤ
  depth_at t [] = pos 0
  depth_at t (event ∷ events) = with_event t event (depth_at t events)

  with_event-swap :
      (t : f.F) (x y : f.F × ℤ) (d : ℤ)
      → with_event t x (with_event t y d) ≡ with_event t y (with_event t x d)
  with_event-swap t x y d = ground (arith, +ℤ_swap x.1 y.1 d)

  depth_at-insert_sorted :
      (t : f.F) (e : f.F × ℤ) (es : List (f.F × ℤ))
      → depth_at t (insert_sorted later (λ event. event) e es) ≡ depth_at t (e ∷ es)
  unfolding insert_sorted
  depth_at-insert_sorted t e [] = refl
  depth_at-insert_sorted t e (x ∷ xs) = elim (Bool-cases (later x e)) [
    | inl k ↦ rw k (
        ap (with_event t x) (depth_at-insert_sorted t e xs) ∙ with_event-swap t x e (depth_at t xs))
    | inr k ↦ rw k refl
  ]

  pub depth_at-sorted :
      (t : f.F) (es : List (f.F × ℤ))
      → depth_at t (sorted later (λ event. event) es) ≡ depth_at t es
  unfolding sorted
  depth_at-sorted t [] = refl
  depth_at-sorted t (e ∷ es) =
      depth_at-insert_sorted t e (sorted later (λ event. event) es)
      ∙ ap (with_event t e) (depth_at-sorted t es)

  max_ℤ-left : (a b : ℤ) → a ≤ℤ max_ℤ a b
  max_ℤ-left a b = ground arith

  max_ℤ-right : (a b : ℤ) → b ≤ℤ max_ℤ a b
  max_ℤ-right a b = ground arith

  sweep-peak : (depth peak : ℤ) (es : List (f.F × ℤ)) → peak ≤ℤ sweep depth peak es
  unfolding sweep
  sweep-peak depth peak [] = omega arith
  sweep-peak depth peak (e ∷ es) = omega (
    arith,
    sweep-peak (depth +ℤ e.1) (max_ℤ peak (depth +ℤ e.1)) es,
    max_ℤ-left peak (depth +ℤ e.1),
  )

  module _ (ordered : IsOrdered) where
    none_after :
        (t : f.F) (e : f.F × ℤ) (es : List (f.F × ℤ))
        → (e.0 ≼ t) ≡ false
        → All (λ x. later x e ≡ false) es
        → depth_at t es ≡ pos 0
    none_after t e [] h a = refl
    none_after t e (x ∷ xs) h a = ground (arith, none_after t e xs h a.1, ordered.cotrans t x.0 e.0)

    -- At no time is the depth more than the sweep finds.
    pub sweep-upper :
        (t : f.F) (depth peak : ℤ) (es : List (f.F × ℤ))
        → depth ≤ℤ peak
        → Ordered es
        → depth +ℤ depth_at t es ≤ℤ sweep depth peak es
    unfolding sweep
    sweep-upper t depth peak [] h o = omega int_laws
    sweep-upper t depth peak (e ∷ es) h o =
        let next = max_ℤ peak (depth +ℤ e.1) in
        elim (Bool-cases (e.0 ≼ t)) [
          | inl k ↦
              let rest =
                sweep-upper t (depth +ℤ e.1) next es (max_ℤ-right peak (depth +ℤ e.1)) o.1 in
              rw k (omega (int_laws, rest))
          | inr k ↦
              let empty = none_after t e es k o.0 in
              let rest = sweep-peak (depth +ℤ e.1) next es in
              rw (k, empty) (omega (int_laws, rest, max_ℤ-left peak (depth +ℤ e.1)))
        ]

    -- What ties with an arrival and comes after it is an arrival too.
    ties_nonneg :
        (e : f.F × ℤ) (es : List (f.F × ℤ))
        → pos 0 ≤ℤ e.1
        → All (λ x. later x e ≡ false) es
        → pos 0 ≤ℤ depth_at e.0 es
    ties_nonneg e [] h a = omega arith
    ties_nonneg e (x ∷ xs) h a = elim (Bool-cases (x.0 ≼ e.0)) [
      | inl k ↦
          let more : e.1 ≤ℤ x.1 = ground arith in
          let rest = ties_nonneg e xs h a.1 in rw k (omega (int_laws, more, rest))
      | inr k ↦ rw k (ties_nonneg e xs h a.1)
    ]

    -- The sweep finds no more than the depth at the time of one of the events.
    pub sweep-attained :
        (depth peak : ℤ) (es : List (f.F × ℤ))
        → depth ≤ℤ peak
        → Ordered es
        → (sweep depth peak es ≡ peak)
          ⊎ ((i : ℕ) × (e : f.F × ℤ) × (get_elem? es i ≡ some e)
              × (sweep depth peak es ≤ℤ depth +ℤ depth_at e.0 es))
    unfolding sweep
    sweep-attained depth peak [] h o = inl refl
    sweep-attained depth peak (e ∷ es) h o =
        let here = depth +ℤ e.1 in
        elim (sweep-attained here (max_ℤ peak here) es (max_ℤ-right peak here) o.1) [
          | inl same ↦ elim (Bool-cases (ltb_ℤ peak here)) [
            | inl k ↦
                let arrival : pos 0 ≤ℤ e.1 = omega (int_laws, tests, k) in
                let ties = ties_nonneg e es arrival o.0 in
                let upto : (e.0 ≼ e.0) ≡ true = ground (arith, ordered.asym e.0 e.0) in
                let top : max_ℤ peak here ≡ here = rw k refl in
                inr (0, e, refl, rw (same, top, upto) (omega (int_laws, ties)))
            | inr k ↦ inl (same ∙ rw k refl)
          ]
          | inr found ↦
              let (i, x, at, bound) = found in
              let after : later x e ≡ false = All-get (λ y. later y e ≡ false) es i x o.0 at in
              let upto : (e.0 ≼ x.0) ≡ true = ground arith in
              inr (suc i, x, at, rw upto (omega (int_laws, bound)))
        ]
