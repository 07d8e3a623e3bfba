-- ===== src/Experiments/Correctness/Verdict.antt =====
-- About the verdict of correctness.py.
use sloserve.Prelude.{
  suc, ◌≤◌, if◌then◌else◌, ◌↔◌, ℕ, ℤ, pos, ◌≤ℤ◌, ◌-ℤ◌, Bool, true, false, String, Option, none,
  some, List, [], ◌∷◌, length, count, select, filter_map, add_some, All, All-map, ok, ◌≡◌, refl,
  arith, eq_ℤ,
}
use sloserve.Float.{Float, ◌≺◌, ◌≼◌, ◌⊕◌, ◌⊖◌, zero_f, IsOrdered}
use sloserve.Float.Sequences.{maximum, max_from, maximum-upper}
use sloserve.Router.Models.{RequestClass, interactive, batch}
use sloserve.Workload.Dispatcher.{DispatchStatus, success, error, timeout, cancelled, rejected}
use sloserve.Metrics.Records.{RequestRecord, is_some}
use sloserve.Analysis.Percentiles.{IsCeiling}
use sloserve.Analysis.Percentiles.Ranks.{nearest_rank_total}
use sloserve.Analysis.Metrics.{queue_wait_of, or_zero, is_class, difference}
use sloserve.Experiments.Correctness.{
  Observed, facts_of, PolicyCorrectness, ClassWaitSummary, analyze_policy, class_wait_summary,
  verdict_of, evidence, wait_summary, max_queue_depth_of, is_terminal, within_bound, sorted,
}

terminal : (s : DispatchStatus) → is_terminal (some s) ≡ true
terminal success = refl
terminal error = refl
terminal timeout = refl
terminal cancelled = refl
terminal rejected = refl

eq_ℤ_refl : (n : ℕ) → eq_ℤ (pos n) (pos n) ≡ true
eq_ℤ_refl n = ground arith

eq_ℤ_pos : (m n : ℕ) → eq_ℤ (pos m) (pos n) ≡ true → m ≡ n
eq_ℤ_pos m n h = ground arith

-- The verdict "within bound" needs two requests waiting at once, and the bound.
within_bound-inv :
    (depth : ℤ) (all : Bool) (n : ℤ) (within : Bool)
    → verdict_of depth all n within ≡ within_bound
    → (pos 2 ≤ℤ depth) × (all ≡ true) × (within ≡ true)
unfolding verdict_of
within_bound-inv depth all n within h = ground arith

module _ ⦃f : Float⦄ where
  abbrev pub IsMember : Option DispatchStatus → Type 0
  IsMember none = ⊥
  IsMember (some s) = Unit

  -- The status is a member of the enumeration.
  abbrev pub IsTerminal : Observed → Type 0
  IsTerminal o = IsMember o.status

  abbrev terminals : List Observed → ℕ
  terminals = count (λ o. is_terminal o.status)

  terminals-le : (os : List Observed) → terminals os ≤ length os
  terminals-le [] = omega arith
  terminals-le (o ∷ os) = ground (arith, terminals-le os)

  first-terminal :
      (s : Option DispatchStatus) (n m : ℕ)
      → n ≤ m
      → (if is_terminal s then suc n else n) ≡ suc m
      → IsMember s × (n ≡ m)
  first-terminal none n m l h = absurd (omega arith)
  first-terminal (some s) n m l h = (tt, ground (arith, terminal s))

  terminals-IsTerminal : (os : List Observed) → terminals os ≡ length os → All IsTerminal os
  terminals-IsTerminal [] h = tt
  terminals-IsTerminal (o ∷ os) h =
      let (first, rest) =
        first-terminal o.status (terminals os) (length os) (terminals-le os) (ground arith) in
      (first, terminals-IsTerminal os rest)

  member-terminal : (s : Option DispatchStatus) → IsMember s → is_terminal s ≡ true
  member-terminal none a = absurd a
  member-terminal (some s) a = terminal s

  IsTerminal-terminals : (os : List Observed) → All IsTerminal os → terminals os ≡ length os
  IsTerminal-terminals [] a = refl
  IsTerminal-terminals (o ∷ os) a =
      ground (arith, member-terminal o.status a.0, IsTerminal-terminals os a.1)

  -- A dispatched request that waited no longer than the bound.
  abbrev IsWithin : f.F → f.F → Option f.F → Type 0
  IsWithin bound arrival none = Unit
  IsWithin bound arrival (some dispatch) = (bound ≺ dispatch ⊖ arrival) ≡ false

  abbrev pub WaitedWithin : f.F → RequestRecord → Type 0
  WaitedWithin bound r = IsWithin bound r.arrival_time_s r.dispatch_time_s

  IsWithin-first :
      (bound arrival : f.F) (dispatch : Option f.F) (ws : List f.F)
      → All (λ w. (bound ≺ w) ≡ false) (add_some (difference dispatch (some arrival)) ws)
      → IsWithin bound arrival dispatch × All (λ w. (bound ≺ w) ≡ false) ws
  IsWithin-first bound arrival none ws a = (tt, a)
  IsWithin-first bound arrival (some dispatch) ws a = a

  waits-IsWithin :
      (bound : f.F) (rs : List RequestRecord)
      → All (λ w. (bound ≺ w) ≡ false) (filter_map queue_wait_of rs)
      → All (WaitedWithin bound) rs
  waits-IsWithin bound [] a = tt
  waits-IsWithin bound (r ∷ rs) a =
      let (first, rest) =
        IsWithin-first bound r.arrival_time_s r.dispatch_time_s (filter_map queue_wait_of rs) a in
      (first, waits-IsWithin bound rs rest)

  all_dispatched :
      (rs : List RequestRecord)
      → filter_map queue_wait_of (select (λ r. is_some r.dispatch_time_s) rs)
        ≡ filter_map queue_wait_of rs
  all_dispatched [] = refl
  all_dispatched (r ∷ rs) = ground (arith, all_dispatched rs)

  evidence-IsWithin :
      (os : List Observed) (name : String) (threshold margin : f.F) (ws : List ClassWaitSummary)
      → (evidence os name threshold margin ws).verdict ≡ within_bound
      → (pos 2 ≤ℤ max_queue_depth_of (facts_of os))
        × (eq_ℤ (pos (terminals os)) (pos (length os)) ≡ true)
        × ((or_zero (
                maximum (
                  filter_map queue_wait_of (select (λ r. is_some r.dispatch_time_s) (facts_of os))))
              ≼ threshold ⊕ margin)
            ≡ true)
  unfolding evidence
  evidence-IsWithin os name threshold margin ws h =
      within_bound-inv (max_queue_depth_of (facts_of os))
        (eq_ℤ (pos (terminals os)) (pos (length os))) (pos (length os) -ℤ pos (terminals os)) _ h

  module _ (ordered : IsOrdered) where
    maximum-IsWithin :
        (bound : f.F) (ws : List f.F)
        → (or_zero (maximum ws) ≼ bound) ≡ true
        → All (λ w. (bound ≺ w) ≡ false) ws
    maximum-IsWithin bound [] h = tt
    maximum-IsWithin bound (w ∷ ws) h =
        let m = max_from w ws in
        let low : (bound ≺ m) ≡ false = ground arith in
        All-map (λ x k. ordered.cotrans bound m x low k) (w ∷ ws)
          (maximum-upper ordered (w ∷ ws) m refl)

  module _ (ceil : f.F → ℤ) (ceiling : IsCeiling ceil) (ordered : IsOrdered) where
    class_wait_summary_total :
        (rs : List RequestRecord) (class : RequestClass)
        → (s : ClassWaitSummary) × (class_wait_summary ceil rs class ≡ ok s)
    unfolding class_wait_summary
    class_wait_summary_total rs class =
        let waits = filter_map queue_wait_of (select (λ r. is_class r.request_class class) rs) in
        let (o, e) = nearest_rank_total ceil ordered ceiling waits in
        (wait_summary class (sorted f.lt (λ x. x) waits) o, rw e refl)

    -- With a positive threshold and a margin the analysis returns. It finds all requests terminal
    -- exactly when every status is a member of the enumeration, and gives the verdict "within bound"
    -- only when they are, at least two requests waited at once, and no dispatched request waited
    -- longer than the threshold with its margin.
    pub analyze_policy-verdict :
        (os : List Observed) (name : String) (threshold margin : f.F)
        → f.is_finite threshold ≡ true
        → (zero_f ≺ threshold) ≡ true
        → f.is_finite margin ≡ true
        → (margin ≺ zero_f) ≡ false
        → (r : PolicyCorrectness) × (analyze_policy ceil os name threshold margin ≡ ok r)
          × ((r.all_terminal ≡ true) ↔ All IsTerminal os)
          × ((r.verdict ≡ within_bound)
              → (pos 2 ≤ℤ r.max_queue_depth)
                × All IsTerminal os
                × All (WaitedWithin (threshold ⊕ margin)) (facts_of os))
    unfolding analyze_policy evidence verdict_of
    analyze_policy-verdict os name threshold margin h₁ h₂ h₃ h₄ =
        let rs = facts_of os in
        let dispatched = select (λ r. is_some r.dispatch_time_s) rs in
        let (s, e) = class_wait_summary_total dispatched interactive in
        let (t, k) = class_wait_summary_total dispatched batch in
        (
          evidence os name threshold margin (s ∷ t ∷ []),
          rw (h₁, h₂, h₃, h₄, e, k) refl,
          (
            λ all. terminals-IsTerminal os (eq_ℤ_pos (terminals os) (length os) all),
            λ all. rw (IsTerminal-terminals os all) (eq_ℤ_refl (length os)),
          ),
          λ v.
              let (deep, all, within) = evidence-IsWithin os name threshold margin (s ∷ t ∷ []) v in
              let waits =
                maximum-IsWithin ordered (threshold ⊕ margin) (filter_map queue_wait_of dispatched)
                  within in
              let same = all_dispatched rs in
              (
                deep,
                terminals-IsTerminal os (eq_ℤ_pos (terminals os) (length os) all),
                waits-IsWithin (threshold ⊕ margin) rs (rw same at waits),
              ),
        )
