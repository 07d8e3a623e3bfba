-- ===== src/Workload/Arrivals/Monotone.antt =====
-- About the times of the Poisson schedule of workload/arrivals.py.
use sloserve.Prelude.{
  ℕ, ℤ, pos, negsuc, zero, suc, true, false, List, [], length, All, ok, ◌≡◌, refl, arith, subst, ap,
}
use sloserve.Prelude.Sorting.Laws.{Pairs}
use sloserve.Float.{Float, IsOrdered, ◌≺◌, ◌⊕◌, zero_f}
use sloserve.Workload.Random.{Random, IsRandom}
use sloserve.Workload.Arrivals.{poisson_rate, arrival_times, accumulate}

module _ ⦃f : Float⦄ where
  -- A sum is not below its first term where the second is not negative, as rounding is monotone.
  abbrev pub IsMonotoneSum : Type 0
  IsMonotoneSum = (a b : f.F) → (b ≺ zero_f) ≡ false → (a ⊕ b ≺ a) ≡ false

  module _ (order : IsOrdered) (sums : IsMonotoneSum) (g : Random) (laws : IsRandom g) where
    above : (a b c : f.F) → (b ≺ a) ≡ false → (c ≺ b) ≡ false → (c ≺ a) ≡ false
    above a b c h k = ground (arith, order.cotrans c b a)

    accumulate-All :
        (rate low : f.F) (n : ℕ) (last : f.F) (s : g.State)
        → (zero_f ≺ rate) ≡ true
        → (last ≺ low) ≡ false
        → All (λ t. (t ≺ low) ≡ false) (accumulate g rate n last s)
    unfolding accumulate
    accumulate-All rate low zero last s p h = (h, tt)
    accumulate-All rate low (suc n) last s p h =
        let (gap, s') = g.expovariate rate s in
        let up = sums last gap (laws.expovariate_nonneg rate s p) in
        (h, accumulate-All rate low n (last ⊕ gap) s' p (above low last (last ⊕ gap) h up))

    accumulate-Pairs :
        (rate : f.F) (n : ℕ) (last : f.F) (s : g.State)
        → (zero_f ≺ rate) ≡ true
        → Pairs (λ x y. (y ≺ x) ≡ false) (accumulate g rate n last s)
    unfolding accumulate
    accumulate-Pairs rate zero last s p = (tt, tt)
    accumulate-Pairs rate (suc n) last s p =
        let (gap, s') = g.expovariate rate s in
        let up = sums last gap (laws.expovariate_nonneg rate s p) in
        (accumulate-All rate last n (last ⊕ gap) s' p up, accumulate-Pairs rate n (last ⊕ gap) s' p)

    length-accumulate :
        (rate : f.F) (n : ℕ) (last : f.F) (s : g.State)
        → length (accumulate g rate n last s) ≡ suc n
    unfolding accumulate
    length-accumulate rate zero last s = refl
    length-accumulate rate (suc n) last s =
        let (gap, s') = g.expovariate rate s in
        omega (arith, length-accumulate rate n (last ⊕ gap) s')

    -- A Poisson schedule of a positive rate returns as many times as were asked for, none below zero,
    -- each no earlier than those before it.
    pub poisson_arrivals :
        (rate : f.F) (seed count : ℤ) (ts : List f.F)
        → (zero_f ≺ rate) ≡ true
        → arrival_times g (poisson_rate rate seed) count ≡ ok ts
        → (pos (length ts) ≡ count)
          × All (λ t. (t ≺ zero_f) ≡ false) ts
          × Pairs (λ x y. (y ≺ x) ≡ false) ts
    unfolding arrival_times
    poisson_arrivals rate seed (negsuc n) ts p h = absurd (ground arith)
    poisson_arrivals rate seed (pos zero) ts p h =
        let e : [] ≡ ts = ground arith in
        subst
          (λ l.
            (pos (length l) ≡ pos 0)
            × All (λ t. (t ≺ zero_f) ≡ false) l
            × Pairs (λ x y. (y ≺ x) ≡ false) l)
          e (refl, tt, tt)
    poisson_arrivals rate seed (pos (suc n)) ts p h =
        let start = g.seeded seed in
        let e : accumulate g rate n zero_f start ≡ ts = ground arith in
        let zero_zero : (zero_f ≺ zero_f) ≡ false = ground (arith, order.asym zero_f zero_f) in
        subst
          (λ l.
            (pos (length l) ≡ pos (suc n))
            × All (λ t. (t ≺ zero_f) ≡ false) l
            × Pairs (λ x y. (y ≺ x) ≡ false) l)
          e
          (
            ap pos (length-accumulate rate n zero_f start),
            accumulate-All rate zero_f n zero_f start p zero_zero,
            accumulate-Pairs rate n zero_f start p,
          )
