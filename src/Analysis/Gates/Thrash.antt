-- ===== src/Analysis/Gates/Thrash.antt =====
-- About check_thrash of analysis/expl.py.
use sloserve.Prelude.{
  eq_ℤ, select, not, ◌==◌, ◌<◌, sym, subst, ℤ, pos, ◌≤ℤ◌, leb_ℤ, true, false, List, [], ◌∷◌, any,
  All, length, ◌&&◌, ◌≡◌, refl, arith, ◌↔◌, >>-eq-ok, raise_if, raise_if-ok, is_ok, is_ok-inv,
  Bool-cases, inl, inr,
}
use sloserve.Float.{Float, ◌≺◌, ◌⊖◌, ◌⊗◌, float}
use sloserve.Router.Controller.{int}
use sloserve.Analysis.Gates.{
  DecisionFact, transition_facts, pairwise, tightens, changes, reverses, required_hold,
  reverse_intervals_of, check_thrash,
}

counted : (n : ℤ) → leb_ℤ n (pos 0) ≡ false → pos 1 ≤ℤ n
counted n h = ground arith

uncounted : (n : ℤ) → pos 1 ≤ℤ n → leb_ℤ n (pos 0) ≡ false
uncounted n h = ground arith

≡-eq_ℤ : (a b : ℤ) → a ≡ b → eq_ℤ a b ≡ true
≡-eq_ℤ a b h = ground arith

eq_ℤ-≡ : (a b : ℤ) → eq_ℤ a b ≡ true → a ≡ b
eq_ℤ-≡ a b h = ground arith

module _ ⦃f : Float⦄ where
  -- The decisions that switched the level.
  abbrev pub switches : List DecisionFact → List DecisionFact
  switches decisions = select (λ d. not (int d.old_level == int d.new_level)) decisions

  changes-switch : (d : DecisionFact) → changes d ≡ not (int d.old_level == int d.new_level)
  changes-switch d = ground arith

  transition_facts-switches : (ds : List DecisionFact) → transition_facts ds ≡ switches ds
  unfolding transition_facts
  transition_facts-switches [] = refl
  transition_facts-switches (d ∷ ds) =
      ground (arith, changes-switch d, transition_facts-switches ds)

  switches-change : (ds : List DecisionFact) → All (λ d. changes d ≡ true) (transition_facts ds)
  unfolding transition_facts
  switches-change [] = tt
  switches-change (d ∷ ds) = elim (Bool-cases (changes d)) [
    | inl e ↦ rw e (e, switches-change ds)
    | inr e ↦ rw e (switches-change ds)
  ]

  -- A relation between each item of a list and the next one.
  abbrev pub Successive : (DecisionFact → DecisionFact → Type 0) → List DecisionFact → Type 0
  Successive P [] = Unit
  Successive P (x ∷ []) = Unit
  Successive P (x ∷ y ∷ ys) = P x y × Successive P (y ∷ ys)

  module _ (tighten_hold_s relax_hold_s : f.F) where
    -- Of two switches in one repetition, a relaxation after a tightening waits for the relax hold, and
    -- a tightening after a relaxation for the tighten hold.
    abbrev pub IsHeld : DecisionFact → DecisionFact → Type 0
    IsHeld previous current =
        previous.repetition_index ≡ current.repetition_index
        → (int previous.old_level < int previous.new_level
            → int current.new_level < int current.old_level
            → (current.decision_time_s ⊖ previous.decision_time_s ≺ relax_hold_s) ≡ false)
          × (int previous.new_level < int previous.old_level
              → int current.old_level < int current.new_level
              → (current.decision_time_s ⊖ previous.decision_time_s ≺ tighten_hold_s) ≡ false)

    abbrev Passes : DecisionFact → DecisionFact → Type 0
    Passes previous current =
        (reverses previous current
          && (current.decision_time_s ⊖ previous.decision_time_s
              ≺ required_hold tighten_hold_s relax_hold_s previous))
        ≡ false

    Passes-IsHeld :
        (p c : DecisionFact) → changes p ≡ true → changes c ≡ true → Passes p c ↔ IsHeld p c
    Passes-IsHeld p c h k = (
      λ passed same.
          let together = ≡-eq_ℤ p.repetition_index c.repetition_index same in
          (λ up down. ground arith, λ down up. ground arith),
      λ held. elim (Bool-cases (eq_ℤ p.repetition_index c.repetition_index)) [
        | inl e ↦
            let (relaxed, tightened) = held (eq_ℤ-≡ p.repetition_index c.repetition_index e) in
            elim (Bool-cases (tightens p)) [ inl up ↦ ground arith | inr down ↦ ground arith ]
        | inr e ↦ rw e refl
      ],
    )

    intervals-IsHeld :
        (ts : List DecisionFact)
        → All (λ d. changes d ≡ true) ts
        → (any
              (λ i. i.interval_s ≺ i.required_hold_s)
              (reverse_intervals_of tighten_hold_s relax_hold_s (pairwise ts))
            ≡ false)
          ↔ Successive IsHeld ts
    unfolding reverse_intervals_of
    intervals-IsHeld [] a = (λ h. tt, λ h. refl)
    intervals-IsHeld (x ∷ []) a = (λ h. tt, λ h. refl)
    intervals-IsHeld (p ∷ c ∷ ts) (hp, a) =
        let rest = intervals-IsHeld (c ∷ ts) a in
        let here = Passes-IsHeld p c hp a.0 in
        elim (Bool-cases (reverses p c)) [
          | inl e ↦ rw e (
            λ h. (here.0 (rw e (ground arith)), rest.0 (ground arith)),
            λ h.
                let first : Passes p c = here.1 h.0 in
                let first' = rw e at first in let others = rest.1 h.1 in ground arith,
          )
          | inr e ↦ rw e (λ h. (here.0 (rw e refl), rest.0 h), λ h. rest.1 h.1)
        ]

    -- The gate passes exactly when there were formal dispatches, of any two successive switches in one
    -- repetition the later waited for its hold if it reversed the earlier (a relaxation for the relax
    -- hold, a tightening for the tighten hold), and no more than a tenth of the dispatches switched
    -- the level. Switches of different repetitions that interleave are not compared across.
    pub check_thrash_iff :
        (decisions : List DecisionFact) (count : ℤ)
        → (is_ok (check_thrash tighten_hold_s relax_hold_s decisions count) ≡ true) ↔ (
            (pos 1 ≤ℤ count)
            × Successive IsHeld (switches decisions)
            × ((float count ⊗ f.of_decimal (pos 10) 2 ≺ float (pos (length (switches decisions))))
                ≡ false))
    unfolding check_thrash
    check_thrash_iff decisions count =
        let transitions = transition_facts decisions in
        let same : transitions ≡ switches decisions = transition_facts-switches decisions in
        let holds = intervals-IsHeld transitions (switches-change decisions) in
        let intervals = reverse_intervals_of tighten_hold_s relax_hold_s (pairwise transitions) in
        (
          λ passed.
              let (r, h) =
                is_ok-inv (check_thrash tighten_hold_s relax_hold_s decisions count) passed in
              let (some_formal, h₁) = >>-eq-ok (raise_if (leb_ℤ count (pos 0)) _) _ h in
              let (held, h₂) =
                >>-eq-ok (raise_if (any (λ i. i.interval_s ≺ i.required_hold_s) intervals) _) _
                  h₁ in
              let (few, _) =
                >>-eq-ok
                  (raise_if
                    (float count ⊗ f.of_decimal (pos 10) 2 ≺ float (pos (length transitions))) _)
                  _ h₂ in
              (
                counted count (raise_if-ok _ _ some_formal),
                subst (Successive IsHeld) same (holds.0 (raise_if-ok _ _ held)),
                subst
                    (λ ts.
                      (float count ⊗ f.of_decimal (pos 10) 2 ≺ float (pos (length ts))) ≡ false)
                    same (raise_if-ok _ _ few),
              ),
          λ conditions.
              let (some_formal, held, few) = conditions in
              let held' = holds.1 (subst (Successive IsHeld) (sym same) held) in
              let few' =
                subst
                  (λ ts. (float count ⊗ f.of_decimal (pos 10) 2 ≺ float (pos (length ts))) ≡ false)
                  (sym same) few in
              rw (uncounted count some_formal, held', few') refl,
        )
