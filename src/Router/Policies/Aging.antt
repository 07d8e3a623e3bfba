-- ===== src/Router/Policies/Aging.antt =====
-- The hard aging ceiling of the SLO-aware policy.
use sloserve.Prelude.{
  sym, ap, subst, ◌∙◌, raise_if-ok, >>-eq-ok, raise_if, value_error, ok_inj, ℤ, Bool-cases, pos,
  ltb_ℤ, -ℤ_parts, ◌-ℤ◌, List, [], ◌∷◌, map, not, ok, >>=-eq-ok, ◌≡◌, refl, arith, true, false, inl,
  inr, All, if-cases,
}
use sloserve.Prelude.Sorting.{sorted}
use sloserve.Prelude.Sorting.Laws.{
  Pairs, Pairs-map, sorted-IsInOrder, All-sorted, lex-IsStrictOrder,
}
use sloserve.Float.{◌⊗◌, Float, ◌≺◌, ◌⊖◌, ◌⊘◌, IsRounded, float, zero_f, max_f, ◌≼◌}
use sloserve.Statistics.{median}
use sloserve.Router.Models.{RequestEnvelope}
use sloserve.Router.Policies.{
  slo_aware_policy, SloAwarePolicy, SloKey, slo_less, slo_key, key_of_tier, age_tier, score,
  service_time, effective_threshold, with_keys, sorted_by, adaptive_order, order,
}

module _ ⦃f : Float⦄ where
  -- The request has waited, by the floored quotient, for all the steps into which the threshold is
  -- divided.
  abbrev pub IsAged : SloAwarePolicy → f.F → f.F → RequestEnvelope → Type 0
  IsAged p now threshold r =
      (n : ℤ) × (f.floor_div (now ⊖ r.arrival_time_s) (threshold ⊘ float p.aging_levels) ≡ ok n)
      × (ltb_ℤ n p.aging_levels ≡ false)

  -- What division by one and the floored quotient are: a quotient reaches one where the dividend
  -- reaches a positive divisor.
  pub record IsQuotient : Type 0 where
    pub div_one : (a : f.F) → a ⊘ float (pos 1) ≡ a
    pub floor_div-one :
        (a b : f.F) (n : ℤ)
        → (zero_f ≺ b) ≡ true
        → f.floor_div a b ≡ ok n
        → ltb_ℤ n (pos 1) ≡ (a ≺ b)

  -- An aged request has only aged ones before it, and none of these arrived later.
  abbrev pub IsAgedFirst :
      SloAwarePolicy → f.F → f.F → {A : Type 0} → (A → RequestEnvelope) → A → A → Type 0
  IsAgedFirst p now threshold envelope x y =
      IsAged p now threshold (envelope y)
      → IsAged p now threshold (envelope x)
        × (((envelope y).arrival_time_s ≺ (envelope x).arrival_time_s) ≡ false)

  -- A request that has waited for the threshold has only such requests before it, and none of these
  -- arrived later.
  abbrev pub IsExpiredFirst : f.F → f.F → {A : Type 0} → (A → RequestEnvelope) → A → A → Type 0
  IsExpiredFirst now threshold envelope x y =
      (now ⊖ (envelope y).arrival_time_s ≺ threshold) ≡ false
      → ((now ⊖ (envelope x).arrival_time_s ≺ threshold) ≡ false)
        × (((envelope y).arrival_time_s ≺ (envelope x).arrival_time_s) ≡ false)

  abbrev pub IsCeilingFirst :
      SloAwarePolicy → f.F → f.F → {A : Type 0} → (A → RequestEnvelope) → A → A → Type 0
  IsCeilingFirst p now threshold envelope x y =
      IsAgedFirst p now threshold envelope x y
      × (p.aging_levels ≡ pos 1 → IsExpiredFirst now threshold envelope x y)

  module _ (laws : IsRounded) (quotient : IsQuotient) (p : SloAwarePolicy)
      (now threshold : f.F) where
    abbrev step : f.F
    step = threshold ⊘ float p.aging_levels

    aged_key :
        (r : RequestEnvelope) (s : f.F) (tier : ℤ)
        → IsAged p now threshold r
        → age_tier p r now step ≡ ok tier
        → key_of_tier p r tier s ≡ (zero_f, (r.arrival_time_s, float r.sequence_id))
    unfolding key_of_tier age_tier
    aged_key r s tier (n, e, reached) h = let h' = rw e at h in ground arith

    young_key :
        (r : RequestEnvelope) (s : f.F) (n tier : ℤ)
        → f.floor_div (now ⊖ r.arrival_time_s) step ≡ ok n
        → ltb_ℤ n p.aging_levels ≡ true
        → age_tier p r now step ≡ ok tier
        → (zero_f ≺ (key_of_tier p r tier s).0) ≡ true
    unfolding key_of_tier age_tier
    young_key r s n tier e a h =
        let h' = rw e at h in
        ground (arith, laws.float_pos (p.aging_levels -ℤ n), -ℤ_parts p.aging_levels n)

    not_le : (step ≼ zero_f) ≡ false → (zero_f ≺ step) ≡ true
    not_le h = ground arith

    slo_key-inv :
        (r : RequestEnvelope) (k : SloKey)
        → slo_key p r now threshold ≡ ok k
        → (s : f.F) × (tier : ℤ) × (n : ℤ) × (f.floor_div (now ⊖ r.arrival_time_s) step ≡ ok n)
          × (age_tier p r now step ≡ ok tier)
          × ((zero_f ≺ step) ≡ true)
          × (key_of_tier p r tier s ≡ k)
    unfolding slo_key age_tier
    slo_key-inv r k h =
        let (service, _, h₁) = >>=-eq-ok (service_time p r) _ h in
        let (positive, h₂) =
          >>-eq-ok (raise_if (step ≼ zero_f) (value_error "aging tier step must be positive")) _
            h₁ in
        let (tier, counted, h₃) = >>=-eq-ok (age_tier p r now step) _ h₂ in
        let (n, e, _) = >>=-eq-ok (f.floor_div (now ⊖ r.arrival_time_s) step) _ counted in
        (score p r now service, tier, n, e, counted, not_le (raise_if-ok _ _ positive), ok_inj h₃)

    abbrev IsKeyed : {A : Type 0} → (A → RequestEnvelope) → SloKey × A → Type 0
    IsKeyed envelope q = slo_key p (envelope q.1) now threshold ≡ ok q.0

    keys-IsAgedFirst :
        (x y : RequestEnvelope) (j k : SloKey)
        → slo_key p x now threshold ≡ ok j
        → slo_key p y now threshold ≡ ok k
        → slo_less k j ≡ false
        → IsAgedFirst p now threshold (λ r. r) x y
    keys-IsAgedFirst x y j k hx hy less aged =
        let (s, u, m, em, cx, _, ex) = slo_key-inv x j hx in
        let (t, w, n, en, cy, _, ey) = slo_key-inv y k hy in
        let zero = laws.order.asym zero_f zero_f in
        let last = aged_key y t w aged cy in
        elim (Bool-cases (ltb_ℤ m p.aging_levels)) [
          | inl young ↦
              let high = young_key x s m u em young cx in
              absurd (ground (arith, ex, ey, last, high))
          | inr reached ↦
              let is_aged : IsAged p now threshold x = (m, em, reached) in
              let first = aged_key x s u is_aged cx in
              (is_aged, ground (arith, ex, ey, last, first, zero))
        ]

    -- With one level the step is the threshold.
    step_one : p.aging_levels ≡ pos 1 → step ≡ threshold
    step_one one =
        subst (λ n. threshold ⊘ float n ≡ threshold) (sym one) (quotient.div_one threshold)

    keys-IsCeilingFirst :
        (x y : RequestEnvelope) (j k : SloKey)
        → slo_key p x now threshold ≡ ok j
        → slo_key p y now threshold ≡ ok k
        → slo_less k j ≡ false
        → IsCeilingFirst p now threshold (λ r. r) x y
    keys-IsCeilingFirst x y j k hx hy less =
        let aged_first = keys-IsAgedFirst x y j k hx hy less in
        let (_, _, n, en, _, positive, _) = slo_key-inv y k hy in
        (
          aged_first,
          λ one waited.
              let same = step_one one in
              let quotient_y = quotient.floor_div-one (now ⊖ y.arrival_time_s) step n positive en in
              let reached : ltb_ℤ n (pos 1) ≡ false =
                quotient_y ∙ ap (λ b. now ⊖ y.arrival_time_s ≺ b) same ∙ waited in
              let reached' = subst (λ l. ltb_ℤ n l ≡ false) (sym one) reached in
              let ((m, em, aged), arrived) = aged_first (n, en, reached') in
              let quotient_x = quotient.floor_div-one (now ⊖ x.arrival_time_s) step m positive em in
              (
                ap (λ b. now ⊖ x.arrival_time_s ≺ b) (sym same)
                    ∙ sym quotient_x
                    ∙ subst (λ l. ltb_ℤ m l ≡ false) one aged,
                arrived,
              ),
        )

    module _ {A : Type 0} (envelope : A → RequestEnvelope) where
      with_keys-IsKeyed :
          (xs : List A) (ks : List (SloKey × A))
          → with_keys envelope (λ r. slo_key p r now threshold) xs ≡ ok ks
          → All (IsKeyed envelope) ks
      unfolding with_keys
      with_keys-IsKeyed [] ks h = let e : [] ≡ ks = cc in rw (← e) tt
      with_keys-IsKeyed (x ∷ xs) ks h =
          let (k, e₁, h₁) = >>=-eq-ok (slo_key p (envelope x) now threshold) _ h in
          let (rest, e₂, h₂) =
            >>=-eq-ok (with_keys envelope (λ r. slo_key p r now threshold) xs) _ h₁ in
          let e : (k, x) ∷ rest ≡ ks = cc in rw (← e) (e₁, with_keys-IsKeyed xs rest e₂)

      sorted_by-IsCeilingFirst :
          (xs ys : List A)
          → sorted_by envelope (λ r. slo_key p r now threshold) xs ≡ ok ys
          → Pairs (IsCeilingFirst p now threshold envelope) ys
      unfolding sorted_by
      sorted_by-IsCeilingFirst xs ys h =
          let (ks, e₁, h₁) = >>=-eq-ok (with_keys envelope _ xs) _ h in
          let strict = lex-IsStrictOrder laws.order (lex-IsStrictOrder laws.order laws.order) in
          let e : map (λ q. q.1) (sorted slo_less (λ q. q.0) ks) ≡ ys = cc in
          rw e at (
            Pairs-map (λ q. q.1) (IsKeyed envelope) (λ a b. slo_less b.0 a.0 ≡ false)
              (IsCeilingFirst p now threshold envelope)
              (λ a b ha hb less.
                keys-IsCeilingFirst (envelope a.1) (envelope b.1) a.0 b.0 ha hb less)
              (sorted slo_less (λ q. q.0) ks)
              (All-sorted slo_less (λ q. q.0) (IsKeyed envelope) ks (with_keys-IsKeyed xs ks e₁))
              (sorted-IsInOrder slo_less (λ q. q.0) strict ks))

  abbrev pub IsThreshold : SloAwarePolicy → f.F → Type 0
  IsThreshold p t =
      (p.adaptive_ceiling ≡ false → t ≡ p.aging_threshold_s)
      × (p.adaptive_ceiling ≡ true
          → ((t ≺ p.ceiling_floor_s) ≡ false) × ((p.ceiling_cap_s ≺ t) ≡ false))

  effective_threshold_bounds :
      IsRounded
      → (p : SloAwarePolicy) (waits : List f.F) (t : f.F)
      → (p.ceiling_cap_s ≺ p.ceiling_floor_s) ≡ false
      → effective_threshold p waits ≡ ok t
      → ((t ≺ p.ceiling_floor_s) ≡ false) × ((p.ceiling_cap_s ≺ t) ≡ false)
  unfolding effective_threshold
  effective_threshold_bounds laws p waits t valid h =
      let (m, _, k) = >>=-eq-ok (median waits) _ h in
      let irrefl = λ (a : f.F). laws.order.asym a a in
      let low = p.ceiling_floor_s in
      let mid = p.ceiling_margin ⊗ m in
      ground (
        arith,
        irrefl low,
        irrefl mid,
        irrefl p.ceiling_cap_s,
        laws.order.asym low mid,
        laws.order.asym (max_f low mid) p.ceiling_cap_s,
      )

  adaptive_order-aging :
      {A : Type 0} (laws : IsRounded) (quotient : IsQuotient) (envelope : A → RequestEnvelope)
      (p : SloAwarePolicy) (now : f.F) (xs ys : List A)
      → (p.ceiling_cap_s ≺ p.ceiling_floor_s) ≡ false
      → adaptive_order envelope p now xs ≡ ok ys
      → (t : f.F) × ((t ≺ p.ceiling_floor_s) ≡ false)
        × ((p.ceiling_cap_s ≺ t) ≡ false)
        × Pairs (IsCeilingFirst p now t envelope) ys
  unfolding adaptive_order
  adaptive_order-aging laws quotient envelope p now [] ys valid h =
      let e : [] ≡ ys = cc in
      let cap = p.ceiling_cap_s in
      (cap, valid, ground (arith, laws.order.asym cap cap), rw (← e) tt)
  adaptive_order-aging laws quotient envelope p now (x ∷ xs) ys valid h =
      let (t, e, k) = >>=-eq-ok (effective_threshold p _) _ h in
      let (low, high) = effective_threshold_bounds laws p _ t valid e in
      (t, low, high, sorted_by-IsCeilingFirst laws quotient p now t envelope (x ∷ xs) ys k)

  -- The hard ceiling: there is a threshold (the configured one, or with the adaptive ceiling one
  -- between floor and cap) such that in the order returned no request that has waited for all its
  -- steps, as the floored quotient of the wait by the rounded step counts them, stands behind one
  -- that has not, and those that have stand in the order of arrival. With one level, where the step
  -- is the threshold, the same holds of the requests that have waited for the threshold itself.
  pub order-aging :
      {A : Type 0} (laws : IsRounded) (quotient : IsQuotient) (envelope : A → RequestEnvelope)
      (p : SloAwarePolicy) (now : f.F) (xs ys : List A)
      → (p.ceiling_cap_s ≺ p.ceiling_floor_s) ≡ false
      → order envelope (slo_aware_policy p) now xs ≡ ok ys
      → (t : f.F) × IsThreshold p t × Pairs (IsCeilingFirst p now t envelope) ys
  unfolding order
  order-aging laws quotient envelope p now xs ys valid h =
      elim (if-cases (not p.adaptive_ceiling) _ _ h) [
        | inl (e, k) ↦ (
          p.aging_threshold_s,
          (λ _. refl, λ e'. absurd (ground arith)),
          sorted_by-IsCeilingFirst laws quotient p now p.aging_threshold_s envelope xs ys k,
        )
        | inr (e, k) ↦
            let (t, low, high, pairs) =
              adaptive_order-aging laws quotient envelope p now xs ys valid k in
            (t, (λ e'. absurd (ground arith), λ _. (low, high)), pairs)
      ]
