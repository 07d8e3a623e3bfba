-- ===== src/Analysis/Reconciliation.antt =====
-- reconcile_decisions of src/sloserve/analysis/expl.py: the decisions of a controller against the
-- records of the requests that were dispatched. A dictionary is the list of its values, of which a
-- later one replaces an earlier one with the same identity. The order of the values only decides
-- which disagreement is raised first.
pub mod Agreement
use text.Mathlib.Text.{◌==◌ as str_eq}
use sloserve.Prelude.{
  refl, ℤ, eq_ℤ, ltb_ℤ, Bool, true, false, not, ◌&&◌, ◌||◌, Option, none, some, List, [], ◌∷◌,
  select, Result, ok, err, raise_if, integrity_error, key_error, ◌>>◌, if◌then◌else◌, String, ◌≡◌,
  All, >>-eq-ok, sym, raise_if-ok, arith,
}
use sloserve.Float.{Float}
use sloserve.Metrics.Records.{RequestRecord}
use sloserve.Router.Controller.{AdaptiveClipLevel, level_0}
use sloserve.Analysis.Gates.{DecisionFact}

abbrev Identity : Type 0
Identity = String × ℤ

abbrev pub same_identity : Identity → Identity → Bool
same_identity a b = str_eq a.0 b.0 && eq_ℤ a.1 b.1

-- The value of the key that stands last.
abbrev pub latest {ℓ} : {A : Type ℓ} → (A → Identity) → Identity → List A → Option A
latest key k [] = none
latest key k (x ∷ xs) = elim (latest key k xs) [
  | some y ↦ some y
  | none ↦ if same_identity (key x) k then some x else none
]

-- The values of the dictionary.
abbrev pub values_of {ℓ} : {A : Type ℓ} → (A → Identity) → List A → List A
values_of key [] = []
values_of key (x ∷ xs) =
    let rest = values_of key xs in elim (latest key (key x) xs) [ some y ↦ rest | none ↦ x ∷ rest ]

abbrev pub is_given {ℓ} : {A : Type ℓ} → Option A → Bool
is_given none = false
is_given (some x) = true

abbrev pub covers {ℓ κ} :
    {A : Type ℓ} {B : Type κ} → (A → Identity) → (B → Identity) → List A → List B → Bool
covers key other xs [] = true
covers key other xs (y ∷ ys) = is_given (latest key (other y) xs) && covers key other xs ys

module _ ⦃f : Float⦄ where
  abbrev pub identity_of : RequestRecord → Identity
  identity_of r = (r.request_id, r.repetition_index)

  abbrev pub decision_identity : DecisionFact → Identity
  decision_identity d = (d.request_id, d.repetition_index)

  unfoldable pub dispatched_of : List RequestRecord → List RequestRecord
  dispatched_of records = select (λ r. is_given r.dispatch_time_s) records

  abbrev pub is_level_0 : AdaptiveClipLevel → Bool
  is_level_0 level_0 = true
  is_level_0 _ = false

  -- `backend in allowed_caps`
  abbrev pub allows : ℤ → Option ℤ → ℤ → Bool
  allows requested none backend = eq_ℤ backend requested
  allows requested (some cap) backend =
      eq_ℤ backend requested || (ltb_ℤ cap requested && eq_ℤ backend cap)

  abbrev pub check_effective_cap : DecisionFact → Option ℤ → Option ℤ → Result (Unit {0})
  check_effective_cap d (some requested) (some backend) =
      raise_if (not (allows requested d.selected_cap backend))
        (integrity_error "request effective cap disagrees with its adaptive decision")
  check_effective_cap d _ _ = err (integrity_error "decision join found uninstrumented request")

  unfoldable pub reconcile_decision : RequestRecord → DecisionFact → Result (Unit {0})
  reconcile_decision r d = do
    check_effective_cap d r.requested_output_tokens r.backend_max_output_tokens
    raise_if (is_level_0 d.new_level && is_given d.selected_cap)
        (integrity_error "L0 decision selected a cap")
    raise_if (not (is_level_0 d.new_level) && not (is_given d.selected_cap))
        (integrity_error "a non-L0 decision omitted its cap")

  abbrev pub reconcile_joined : Option RequestRecord → DecisionFact → Result (Unit {0})
  reconcile_joined none d = err (key_error d.request_id)
  reconcile_joined (some r) d = reconcile_decision r d

  unfoldable pub reconcile_each : List RequestRecord → List DecisionFact → Result (Unit {0})
  unfolding reconcile_decision
  reconcile_each dispatched [] = ok tt
  reconcile_each dispatched (d ∷ ds) = do
    reconcile_joined (latest identity_of (decision_identity d) dispatched) d
    reconcile_each dispatched ds

  -- `decision_map` and `dispatched` have the same keys, and each decision agrees with its record.
  unfoldable pub reconcile_decisions : List RequestRecord → List DecisionFact → Result (Unit {0})
  unfolding dispatched_of reconcile_each
  reconcile_decisions records decisions = do
    raise_if
        (not (
          covers decision_identity identity_of decisions (dispatched_of records)
          && covers identity_of decision_identity (dispatched_of records) decisions))
        (integrity_error "adaptive decisions do not match dispatched requests")
    reconcile_each (dispatched_of records) (values_of decision_identity decisions)
