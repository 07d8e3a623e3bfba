-- ===== src/Examples/Policies.antt =====
-- Two queued requests under each policy.
use sloserve.Prelude.Sorting.{sorted}
use native.Mathlib.Nat.{div-one, div-lt_iff_lt-mul}
use sloserve.Prelude.{
  negsuc, zero, suc, ℕ, ltb, ltb_ℤ, Bool-cases, inl, inr, ap, sym, ◌∙◌, ok_inj, ◌/◌, ◌<◌, ◌*◌, ◌↔◌,
  ℤ, pos, refl, true, false, List, [], ◌∷◌, ok, ◌≡◌, Perm, ◌-ℤ◌, arith,
}
use sloserve.Float.Integers.{integers, div_ℤ, integers-IsStrictOrder, integers-IsRounded}
use sloserve.Prelude.Sorting.Laws.{Pairs}
use sloserve.Float.{◌≺◌, float}
use sloserve.Config
use sloserve.Config.{true_length, advertised}
use sloserve.Examples.Data.{chat, report, chats, clipped_chat, slo_policy, slo_config, loader}
use sloserve.Router.Models.{RequestEnvelope, effective_max_output_tokens, clip_applied}
use sloserve.Router.Policies.{
  order, build_policy, fcfs_policy, static_priority_policy, slo_aware_policy,
  estimated_output_tokens, sorted_by, with_keys, slo_key, age_tier, build_slo_aware,
}
use sloserve.Router.Policies.Order.{order-perm, order-IsFcfs, order-IsStatic, IsFcfs, IsStatic}
use sloserve.Router.Policies.Estimates.{estimate_hides_target, estimate-le-cap}
use sloserve.Router.Policies.Aging.{order-aging, IsThreshold, IsQuotient, IsCeilingFirst}
use sloserve.Router.Policies.Totality.{order_total}

abbrev whole : RequestEnvelope → RequestEnvelope
whole r = r

static_order : order whole static_priority_policy (pos 10) (report ∷ chat ∷ []) ≡ ok chats
unfolding order sorted
static_order = refl

fcfs_order : order whole fcfs_policy (pos 10) chats ≡ ok (report ∷ chat ∷ [])
unfolding order sorted
fcfs_order = refl

-- At time 11 the report has waited for nine seconds, one more than the ceiling.
aged_order : order whole (slo_aware_policy slo_policy) (pos 11) chats ≡ ok (report ∷ chat ∷ [])
unfolding order sorted_by with_keys slo_key estimated_output_tokens sorted age_tier ◌-ℤ◌
aged_order = refl

order-perm_example : Perm chats (report ∷ chat ∷ [])
order-perm_example =
    order-perm whole static_priority_policy (pos 10) (report ∷ chat ∷ []) chats static_order

order-IsFcfs_example : Pairs (IsFcfs whole) (report ∷ chat ∷ [])
order-IsFcfs_example =
    order-IsFcfs whole integers-IsStrictOrder (pos 10) chats (report ∷ chat ∷ []) fcfs_order

order-IsStatic_example : Pairs (IsStatic whole) chats
order-IsStatic_example =
    order-IsStatic whole integers-IsStrictOrder (pos 10) (report ∷ chat ∷ []) chats static_order

div_one_ℤ : (a : ℤ) → div_ℤ a (pos 1) ≡ a
div_one_ℤ (pos n) = ground (arith, div-one n)
div_one_ℤ (negsuc n) = ground (arith, div-one n)

reaches_one_ℕ : (a d : ℕ) → ltb (a / suc d) 1 ≡ ltb a (suc d)
reaches_one_ℕ a d =
    let below : (a / suc d < 1) ↔ (a < 1 * suc d) = div-lt_iff_lt-mul {k = suc d} (omega arith) in
    elim (Bool-cases (ltb a (suc d))) [
      | inl e ↦
          let less = below.1 (ground arith) in
          let both : ltb (a / suc d) 1 ≡ true = ground arith in both ∙ sym e
      | inr e ↦ elim (Bool-cases (ltb (a / suc d) 1)) [
        | inl small ↦ let less = below.0 (ground arith) in absurd (ground arith)
        | inr big ↦ big ∙ sym e
      ]
    ]

ltb-pos : (m n : ℕ) → ltb_ℤ (pos m) (pos n) ≡ ltb m n
ltb-pos m n = ground arith

reaches_one : (a b : ℤ) → ltb_ℤ (pos 0) b ≡ true → ltb_ℤ (div_ℤ a b) (pos 1) ≡ ltb_ℤ a b
reaches_one (pos a) (pos (suc d)) h =
    ltb-pos (a / suc d) 1 ∙ reaches_one_ℕ a d ∙ sym (ltb-pos a (suc d))
reaches_one (negsuc a) (pos (suc d)) h = ground arith
reaches_one a (pos zero) h = absurd (ground arith)
reaches_one a (negsuc d) h = absurd (ground arith)

integers-IsQuotient : IsQuotient
integers-IsQuotient = record {
  div_one = div_one_ℤ;
  floor_div-one = λ a b n h e. ap (λ m. ltb_ℤ m (pos 1)) (sym (ok_inj e)) ∙ reaches_one a b h;
}

order-aging_example :
    (t : ℤ) × IsThreshold slo_policy t
    × Pairs (IsCeilingFirst slo_policy (pos 11) t whole) (report ∷ chat ∷ [])
order-aging_example =
    order-aging integers-IsRounded integers-IsQuotient whole slo_policy (pos 11) chats
      (report ∷ chat ∷ []) refl aged_order

built_slo_policy :
    build_policy loader Config.slo_aware slo_config ≡ ok (slo_aware_policy slo_policy)
unfolding build_policy build_slo_aware
built_slo_policy = refl

order_total_example :
    (ys : List RequestEnvelope) × (order whole (slo_aware_policy slo_policy) (pos 11) chats ≡ ok ys)
order_total_example =
    order_total whole loader Config.slo_aware slo_config (slo_aware_policy slo_policy) (pos 11)
      chats built_slo_policy refl refl ((_, refl), ((_, refl), tt))

estimate_hides_target_example :
    estimated_output_tokens slo_policy (record chat { max_output_tokens = pos 7 })
    ≡ estimated_output_tokens slo_policy chat
estimate_hides_target_example =
    estimate_hides_target slo_policy chat (pos 4096) (pos 7) (λ e. cc) refl (omega arith) refl
      (omega arith) (omega arith)

clipped_estimate : estimated_output_tokens slo_policy clipped_chat ≡ ok (pos 512)
unfolding estimated_output_tokens clip_applied
clipped_estimate = refl

clipped : clip_applied clipped_chat ≡ true
unfolding clip_applied
clipped = refl

estimate-le-cap_example : (float (effective_max_output_tokens clipped_chat) ≺ pos 512) ≡ false
estimate-le-cap_example =
    estimate-le-cap integers-IsStrictOrder slo_policy clipped_chat (pos 512) clipped
      clipped_estimate
