-- ===== src/Analysis/Reconciliation/Agreement.antt =====
-- About reconcile_decisions of src/sloserve/analysis/expl.py.
use sloserve.Prelude.{
  refl, ℤ, Bool, true, false, not, ◌&&◌, Option, none, some, List, [], ◌∷◌, ok, raise_if, ◌≡◌, All,
  >>-eq-ok, sym, raise_if-ok, arith,
}
use sloserve.Float.{Float}
use sloserve.Metrics.Records.{RequestRecord}
use sloserve.Analysis.Gates.{DecisionFact}
use sloserve.Analysis.Reconciliation.{
  latest, is_given, values_of, covers, identity_of, decision_identity, dispatched_of, is_level_0,
  allows, check_effective_cap, reconcile_decision, reconcile_joined, reconcile_each,
  reconcile_decisions,
}

module _ ⦃f : Float⦄ where
  -- A decision that agrees with the record of its request.
  pub record Agrees (r : RequestRecord) (d : DecisionFact) : Type 0 where
    pub requested : ℤ
    pub backend : ℤ
    pub instrumented : r.requested_output_tokens ≡ some requested
    pub capped : r.backend_max_output_tokens ≡ some backend
    pub allowed : allows requested d.selected_cap backend ≡ true
    pub level_fits : is_given d.selected_cap ≡ not (is_level_0 d.new_level)

  not-false : (b : Bool) → not b ≡ false → b ≡ true
  not-false true h = refl
  not-false false h = sym h

  level_fits_of : (a b : Bool) → (a && b) ≡ false → (not a && not b) ≡ false → b ≡ not a
  level_fits_of true true h l = absurd (cc)
  level_fits_of true false h l = refl
  level_fits_of false true h l = refl
  level_fits_of false false h l = absurd (cc)

  check_effective_cap-ok :
      (d : DecisionFact) (limit backend : Option ℤ)
      → check_effective_cap d limit backend ≡ ok tt
      → (requested : ℤ) × (given : ℤ) × (limit ≡ some requested)
        × (backend ≡ some given)
        × (allows requested d.selected_cap given ≡ true)
  check_effective_cap-ok d (some requested) (some given) h =
      (requested, given, refl, refl, not-false _ (raise_if-ok _ _ h))
  check_effective_cap-ok d (some requested) none h = absurd (cc)
  check_effective_cap-ok d none backend h = absurd (cc)

  reconcile_decision-Agrees :
      (r : RequestRecord) (d : DecisionFact) → reconcile_decision r d ≡ ok tt → Agrees r d
  unfolding reconcile_decision
  reconcile_decision-Agrees r d h =
      let (capped, h) =
        >>-eq-ok (check_effective_cap d r.requested_output_tokens r.backend_max_output_tokens) _
          h in
      let (requested, backend, at_requested, at_backend, allowed) =
        check_effective_cap-ok d r.requested_output_tokens r.backend_max_output_tokens capped in
      let (free, h) =
        >>-eq-ok (raise_if (is_level_0 d.new_level && is_given d.selected_cap) _) _ h in
      record {
        requested = requested;
        backend = backend;
        instrumented = at_requested;
        capped = at_backend;
        allowed = allowed;
        level_fits =
            level_fits_of (is_level_0 d.new_level) (is_given d.selected_cap) (raise_if-ok _ _ free)
              (raise_if-ok _ _ h);
      }

  reconcile_joined-Agrees :
      (o : Option RequestRecord) (d : DecisionFact)
      → reconcile_joined o d ≡ ok tt
      → (r : RequestRecord) × (o ≡ some r) × Agrees r d
  reconcile_joined-Agrees none d h = absurd (cc)
  reconcile_joined-Agrees (some r) d h = (r, refl, reconcile_decision-Agrees r d h)

  reconcile_each-Agrees :
      (dispatched : List RequestRecord) (ds : List DecisionFact)
      → reconcile_each dispatched ds ≡ ok tt
      → All
          (λ d.
            (r : RequestRecord) × (latest identity_of (decision_identity d) dispatched ≡ some r)
            × Agrees r d)
          ds
  unfolding reconcile_each
  reconcile_each-Agrees dispatched [] h = tt
  reconcile_each-Agrees dispatched (d ∷ ds) h =
      let joined = latest identity_of (decision_identity d) dispatched in
      let (agrees, h) = >>-eq-ok (reconcile_joined joined d) _ h in
      (reconcile_joined-Agrees joined d agrees, reconcile_each-Agrees dispatched ds h)

  -- When the reconciliation passes, every dispatched request has a decision, and every decision that
  -- is in force has a dispatched request whose record agrees with it.
  pub reconcile_decisions-Agrees :
      (records : List RequestRecord) (decisions : List DecisionFact)
      → reconcile_decisions records decisions ≡ ok tt
      → (covers decision_identity identity_of decisions (dispatched_of records) ≡ true)
        × All
            (λ d.
              (r : RequestRecord) × (latest identity_of
                  (decision_identity d)
                  (dispatched_of records)
                ≡ some r)
              × Agrees r d)
            (values_of decision_identity decisions)
  unfolding reconcile_decisions
  reconcile_decisions-Agrees records decisions h =
      let dispatched = dispatched_of records in
      let (same_keys, h) =
        >>-eq-ok
          (raise_if
            (not (
              covers decision_identity identity_of decisions dispatched
              && covers identity_of decision_identity dispatched decisions))
            _)
          _ h in
      let both = not-false _ (raise_if-ok _ _ same_keys) in
      (
        ground (arith, both),
        reconcile_each-Agrees dispatched (values_of decision_identity decisions) h,
      )
