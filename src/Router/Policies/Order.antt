-- ===== src/Router/Policies/Order.antt =====
-- About `order` for every policy and for the two baselines.
use mathlib.Core.List.Perm
use sloserve.Prelude.{
  ltb_ℤ, false, List, [], ◌∷◌, map, Result, ok, >>=-eq-ok, ◌≡◌, Perm, arith, inl, inr, if-cases,
  not,
}
use sloserve.Prelude.Sorting.{sorted}
use sloserve.Prelude.Sorting.Laws.{
  sorted-perm, sorted-IsInOrder, lex-IsStrictOrder, Pairs, IsStrictOrder, Pairs-weaken,
}
use sloserve.Float.{Float, ◌≺◌, IsOrdered}
use sloserve.Float.Integers.{integers-IsStrictOrder}
use sloserve.Router.Models.{RequestEnvelope, batch}
use sloserve.Router.Policies.{
  SchedulingPolicy, fcfs_policy, static_priority_policy, slo_aware_policy, with_keys, sorted_by,
  adaptive_order, order, SloAwarePolicy, SloKey, slo_less, fcfs_less, static_less,
  effective_threshold, static_key, fcfs_key,
}

module _ ⦃f : Float⦄ {A : Type 0} (envelope : A → RequestEnvelope) where
  with_keys-map :
      (key : RequestEnvelope → Result SloKey) (xs : List A) (ks : List (SloKey × A))
      → with_keys envelope key xs ≡ ok ks
      → map (λ p. p.1) ks ≡ xs
  unfolding with_keys
  with_keys-map key [] ks h = ground arith
  with_keys-map key (x ∷ xs) ks h =
      let (k, _, h₁) = >>=-eq-ok (key (envelope x)) _ h in
      let (rest, e, h₂) = >>=-eq-ok (with_keys envelope key xs) _ h₁ in
      ground (arith, with_keys-map key xs rest e)

  sorted_by-perm :
      (key : RequestEnvelope → Result SloKey) (xs ys : List A)
      → sorted_by envelope key xs ≡ ok ys
      → Perm ys xs
  unfolding sorted_by
  sorted_by-perm key xs ys h =
      let (ks, e, h₁) = >>=-eq-ok (with_keys envelope key xs) _ h in
      let moved = Perm.map (λ (p : SloKey × A). p.1) (sorted-perm slo_less (λ p. p.0) ks) in
      let last : map (λ (p : SloKey × A). p.1) (sorted slo_less (λ p. p.0) ks) ≡ ys = cc in
      rw (last, with_keys-map key xs ks e) at moved

  adaptive_order-perm :
      (p : SloAwarePolicy) (now : f.F) (xs ys : List A)
      → adaptive_order envelope p now xs ≡ ok ys
      → Perm ys xs
  unfolding adaptive_order
  adaptive_order-perm p now [] ys h = let e : [] ≡ ys = cc in rw (← e) Perm.rfl
  adaptive_order-perm p now (x ∷ xs) ys h =
      let (t, _, h₁) = >>=-eq-ok (effective_threshold p _) _ h in sorted_by-perm _ (x ∷ xs) ys h₁

  -- Whatever the policy, an order that is returned holds exactly the queued requests, each as often
  -- as it was queued.
  pub order-perm :
      (p : SchedulingPolicy) (now : f.F) (xs ys : List A)
      → order envelope p now xs ≡ ok ys
      → Perm ys xs
  unfolding order
  order-perm fcfs_policy now xs ys h =
      let e : sorted fcfs_less (λ x. fcfs_key (envelope x)) xs ≡ ys = cc in
      rw (← e) (sorted-perm fcfs_less _ xs)
  order-perm static_priority_policy now xs ys h =
      let e : sorted static_less (λ x. static_key (envelope x)) xs ≡ ys = cc in
      rw (← e) (sorted-perm static_less _ xs)
  order-perm (slo_aware_policy p) now xs ys h = elim (if-cases (not p.adaptive_ceiling) _ _ h) [
    | inl (_, e) ↦ sorted_by-perm _ xs ys e
    | inr (_, e) ↦ adaptive_order-perm p now xs ys e
  ]

  fcfs_less-IsStrictOrder : IsOrdered → IsStrictOrder fcfs_less
  fcfs_less-IsStrictOrder s = lex-IsStrictOrder s integers-IsStrictOrder

  -- The order of arrival, and of the sequence numbers where two requests arrive together.
  abbrev pub IsFcfs : A → A → Type 0
  IsFcfs x y =
      (((envelope y).arrival_time_s ≺ (envelope x).arrival_time_s) ≡ false)
      × (((envelope x).arrival_time_s ≺ (envelope y).arrival_time_s) ≡ false
          → ltb_ℤ (envelope y).sequence_id (envelope x).sequence_id ≡ false)

  -- First come, first served: nobody is dispatched behind one who arrived later.
  pub order-IsFcfs :
      IsOrdered
      → (now : f.F) (xs ys : List A) → order envelope fcfs_policy now xs ≡ ok ys
      → Pairs IsFcfs ys
  unfolding order
  order-IsFcfs s now xs ys h =
      let e : sorted fcfs_less (λ x. fcfs_key (envelope x)) xs ≡ ys = cc in
      Pairs-weaken (λ x y k. (ground arith, λ t. ground arith)) ys
        (rw e at
          (sorted-IsInOrder fcfs_less (λ x. fcfs_key (envelope x)) (fcfs_less-IsStrictOrder s) xs))

  abbrev pub IsStatic : A → A → Type 0
  IsStatic x y =
      ((envelope x).request_class ≡ batch → (envelope y).request_class ≡ batch)
      × ((envelope x).request_class ≡ (envelope y).request_class → IsFcfs x y)

  static_less-IsStatic :
      (x y : A)
      → static_less (static_key (envelope y)) (static_key (envelope x)) ≡ false
      → IsStatic x y
  static_less-IsStatic x y h = (λ b. ground arith, λ c. (ground arith, λ t. ground arith))

  -- No batch request stands before an interactive one, and each class is first come, first served.
  pub order-IsStatic :
      IsOrdered
      → (now : f.F) (xs ys : List A) → order envelope static_priority_policy now xs ≡ ok ys
      → Pairs IsStatic ys
  unfolding order
  order-IsStatic s now xs ys h =
      let e : sorted static_less (λ x. static_key (envelope x)) xs ≡ ys = cc in
      Pairs-weaken static_less-IsStatic ys (
        rw e at (
          sorted-IsInOrder static_less (λ x. static_key (envelope x))
            (lex-IsStrictOrder integers-IsStrictOrder (fcfs_less-IsStrictOrder s)) xs))
