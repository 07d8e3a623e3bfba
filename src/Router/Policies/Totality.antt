-- ===== src/Router/Policies/Totality.antt =====
-- About the exceptions of `order`.
use mathlib.Core.Path.{subst₂}
use sloserve.Config
use sloserve.Prelude.{
  ℤ, All, All-map, ◌∙◌, >>=-eq-ok, List, [], ◌∷◌, none, Result, ok, ◌≡◌, ◌≢◌, refl, sym, arith,
  true, false, String, is_ok, is_ok-inv,
}
use sloserve.Float.{Float, ◌≺◌, ◌⊘◌, ◌⊖◌, float, zero_f}
use sloserve.Config.{SchedulerPolicyName, learned}
use sloserve.Config.SloAware.{SloAwareConfig}
use sloserve.Workload.LengthPredictor.{LengthPredictor}
use sloserve.Router.Models.{RequestEnvelope}
use sloserve.Router.Policies.{
  SchedulingPolicy, fcfs_policy, static_priority_policy, slo_aware_policy, SloAwarePolicy, SloKey,
  slo_key, age_tier, estimated_output_tokens, service_time, with_keys, sorted_by, order,
  build_slo_aware, build_policy,
}

module _ ⦃f : Float⦄ where
  -- The constructor loads a predictor wherever the policy will ask for one.
  abbrev IsEquipped : SloAwarePolicy → Type 0
  IsEquipped p = p.length_source ≡ learned → p.length_predictor ≢ none

  -- The step of the aging tiers does not round to zero.
  abbrev HasStep : SloAwarePolicy → Type 0
  HasStep p = (zero_f ≺ p.aging_threshold_s ⊘ float p.aging_levels) ≡ true

  service_time_total :
      (p : SloAwarePolicy) (r : RequestEnvelope) → IsEquipped p → is_ok (service_time p r) ≡ true
  unfolding estimated_output_tokens
  service_time_total p r h = ground arith

  -- The whole steps that a request has waited are a number: the quotient is not infinite or NaN.
  abbrev pub IsCountable : f.F → f.F → RequestEnvelope → Type 0
  IsCountable step now r = (n : ℤ) × (f.floor_div (now ⊖ r.arrival_time_s) step ≡ ok n)

  slo_key_total :
      (p : SloAwarePolicy) (r : RequestEnvelope) (now : f.F)
      → IsEquipped p
      → HasStep p
      → IsCountable (p.aging_threshold_s ⊘ float p.aging_levels) now r
      → is_ok (slo_key p r now p.aging_threshold_s) ≡ true
  unfolding slo_key age_tier
  slo_key_total p r now h step (n, e) = rw e (ground (arith, service_time_total p r h))

  -- What `__init__` keeps of the configuration.
  abbrev Keeps : SloAwareConfig → SloAwarePolicy → Type 0
  Keeps c q =
      (q.adaptive_ceiling ≡ c.adaptive_ceiling)
      × (q.aging_threshold_s ≡ c.aging_threshold_s)
      × (q.aging_levels ≡ c.aging_levels)
      × IsEquipped q

  build_slo_aware-Keeps :
      (load : String → Result LengthPredictor) (c : SloAwareConfig) (q : SloAwarePolicy)
      → build_slo_aware load c ≡ ok q
      → Keeps c q
  unfolding build_slo_aware
  build_slo_aware-Keeps load c q h = ground arith

  module _ {A : Type 0} (envelope : A → RequestEnvelope) where
    with_keys_total :
        (key : RequestEnvelope → Result SloKey)
        → (xs : List A) → All (λ x. is_ok (key (envelope x)) ≡ true) xs
        → is_ok (with_keys envelope key xs) ≡ true
    unfolding with_keys
    with_keys_total key [] h = refl
    with_keys_total key (x ∷ xs) h =
        let rest = with_keys_total key xs h.1 in ground (arith, h.0, rest)

    sorted_by_total :
        (key : RequestEnvelope → Result SloKey)
        → (xs : List A) → All (λ x. is_ok (key (envelope x)) ≡ true) xs
        → is_ok (sorted_by envelope key xs) ≡ true
    unfolding sorted_by
    sorted_by_total key xs h = ground (arith, with_keys_total key xs h)

    slo_order_total :
        (p : SloAwarePolicy) (now : f.F) (xs : List A)
        → p.adaptive_ceiling ≡ false
        → IsEquipped p
        → HasStep p
        → All (λ x. IsCountable (p.aging_threshold_s ⊘ float p.aging_levels) now (envelope x)) xs
        → is_ok (order envelope (slo_aware_policy p) now xs) ≡ true
    unfolding order
    slo_order_total p now xs fixed h step counted =
        let keys = All-map (λ x n. slo_key_total p (envelope x) now h step n) xs counted in
        let done = sorted_by_total (λ r. slo_key p r now p.aging_threshold_s) xs keys in
        ground (arith, done)

    built_total :
        (load : String → Result LengthPredictor) (name : SchedulerPolicyName) (c : SloAwareConfig)
        (p : SchedulingPolicy) (now : f.F) (xs : List A)
        → build_policy load name c ≡ ok p
        → c.adaptive_ceiling ≡ false
        → (zero_f ≺ c.aging_threshold_s ⊘ float c.aging_levels) ≡ true
        → All (λ x. IsCountable (c.aging_threshold_s ⊘ float c.aging_levels) now (envelope x)) xs
        → is_ok (order envelope p now xs) ≡ true
    unfolding build_policy
    built_total load Config.fcfs c p now xs b fixed step counted =
        let e : fcfs_policy ≡ p = cc in rw (← e) (unfold order in refl)
    built_total load Config.static_priority c p now xs b fixed step counted =
        let e : static_priority_policy ≡ p = cc in rw (← e) (unfold order in refl)
    built_total load Config.slo_aware c p now xs b fixed step counted =
        let (q, made, b') = >>=-eq-ok (build_slo_aware load c) _ b in
        let (ceiling, threshold, levels, equipped) = build_slo_aware-Keeps load c q made in
        let e : slo_aware_policy q ≡ p = cc in
        rw (← e) (
          slo_order_total q now xs (ceiling ∙ fixed) equipped
            (subst₂ (λ t n. (zero_f ≺ t ⊘ float n) ≡ true) (sym threshold) (sym levels) step)
            (subst₂ (λ t n. All (λ x. IsCountable (t ⊘ float n) now (envelope x)) xs)
              (sym threshold) (sym levels) counted))

    -- Under a configuration with a fixed ceiling whose tier step does not round to zero, a policy
    -- that was built orders every queue without an exception, whichever policy was chosen, as long
    -- as every wait is finitely many of those steps.
    pub order_total :
        (load : String → Result LengthPredictor) (name : SchedulerPolicyName) (c : SloAwareConfig)
        (p : SchedulingPolicy) (now : f.F) (xs : List A)
        → build_policy load name c ≡ ok p
        → c.adaptive_ceiling ≡ false
        → (zero_f ≺ c.aging_threshold_s ⊘ float c.aging_levels) ≡ true
        → All (λ x. IsCountable (c.aging_threshold_s ⊘ float c.aging_levels) now (envelope x)) xs
        → (ys : List A) × (order envelope p now xs ≡ ok ys)
    order_total load name c p now xs b fixed step counted =
        is_ok-inv (order envelope p now xs) (built_total load name c p now xs b fixed step counted)
