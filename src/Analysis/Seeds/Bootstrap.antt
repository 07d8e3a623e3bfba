-- ===== src/Analysis/Seeds/Bootstrap.antt =====
-- About the bootstrap of analysis/expl.py.
use sloserve.Prelude.{
  ℕ, ℤ, pos, negsuc, zero, suc, ◌≤◌, ◌≤ℤ◌, ◌-ℤ◌, ltb, false, Option, none, some, List, [], ◌∷◌, map,
  length, All, All-append, All-map, All-get, Mem, Result, ok, ◌≡◌, refl, arith, >>=-eq-ok, >>-eq-ok,
  raise_if, raise_if-ok, ok_inj, item, get_elem?, subst, sym, ap,
}
use mathlib.Core.List.{mem-cons_self, mem-cons_of_mem}
use sloserve.Float.{Float, ◌≺◌, IsOrdered}
use sloserve.Prelude.Sorting.{sorted}
use sloserve.Prelude.Sorting.Laws.{All-sorted, length-sorted, sorted-IsInOrder}
use sloserve.Prelude.Sorting.Ranks.{get_elem?-IsInOrder}
use sloserve.Analysis.Percentiles.Ranks.{index_le}
use sloserve.Analysis.Seeds.{
  traverse, product, prefixed, SeedValues, IntervalEstimate, aligned_seeds, percentile, tail_rank,
  low_tail, high_tail, bootstrap_seed_statistic, is_nil, or_index_error,
}

-- Drawn from the seeds, with repetition, as many as there are.
pub record IsResample (n : ℕ) (seeds resample : List ℤ) : Type 0 where
  pub size : length resample ≡ n
  pub drawn : All (λ s. Mem s seeds) resample

prefixed-IsResample :
    (n : ℕ) (seeds : List ℤ) (chosen : List ℤ) (rests : List (List ℤ))
    → All (λ s. Mem s seeds) chosen
    → All (IsResample n seeds) rests
    → All (IsResample (suc n) seeds) (prefixed chosen rests)
prefixed-IsResample n seeds [] rests a h = tt
prefixed-IsResample n seeds (s ∷ ss) rests a h =
    All-append (IsResample (suc n) seeds) (map (λ rest. s ∷ rest) rests) (prefixed ss rests)
      (each rests h) (prefixed-IsResample n seeds ss rests a.1 h)
  where
    each :
        (rests : List (List ℤ))
        → All (IsResample n seeds) rests
        → All (IsResample (suc n) seeds) (map (λ rest. s ∷ rest) rests)
    each [] h = tt
    each (r ∷ rs) h = (record { size = ap suc h.0.size; drawn = (a.0, h.0.drawn) }, each rs h.1)

all_members : {A : Type 0} (xs : List A) → All (λ x. Mem x xs) xs
all_members [] = tt
all_members (x ∷ xs) = (mem-cons_self, All-map (λ y m. mem-cons_of_mem x m) xs (all_members xs))

-- Every element of the product is a resample.
product-IsResample : (n : ℕ) (seeds : List ℤ) → All (IsResample n seeds) (product n seeds)
unfolding product
product-IsResample zero seeds = (record { size = refl; drawn = tt }, tt)
product-IsResample (suc n) seeds =
    prefixed-IsResample n seeds seeds (product n seeds) (all_members seeds)
      (product-IsResample n seeds)

traverse-All {ℓ κ} :
    {A : Type ℓ} {B : Type κ} (g : A → Result B) (P : A → Type ℓ) (xs : List A) (ys : List B)
    → All P xs
    → traverse g xs ≡ ok ys
    → All (λ y. (x : A) × P x × (g x ≡ ok y)) ys
unfolding traverse
traverse-All g P [] ys a h = let e : [] ≡ ys = cc in subst (All _) e tt
traverse-All g P (x ∷ xs) ys a h =
    let (y, e, h) = >>=-eq-ok (g x) _ h in
    let (rest, k, h) = >>=-eq-ok (traverse g xs) _ h in
    let same : (y ∷ rest) ≡ ys = cc in
    subst (All _) same ((x, a.0, e), traverse-All g P xs rest a.1 k)

module _ ⦃f : Float⦄ (ceil : f.F → ℤ) where
  -- What `math.ceil` gives for the two tails: ranks from one to the length, in their order.
  pub record IsTailCeiling : Type 0 where
    pub low : (n : ℕ) → pos 1 ≤ℤ tail_rank ceil (low_tail ceil) (suc n)
    pub low-le-high :
        (n : ℕ) → tail_rank ceil (low_tail ceil) n ≤ℤ tail_rank ceil (high_tail ceil) n
    pub high : (n : ℕ) → tail_rank ceil (high_tail ceil) n ≤ℤ pos n

  or_index_error-ok : (o : Option f.F) (x : f.F) → or_index_error o ≡ ok x → o ≡ some x
  or_index_error-ok none x h = absurd (cc)
  or_index_error-ok (some y) x h = ground arith

  item-inv :
      (xs : List f.F) (r : ℤ) (x : f.F)
      → pos 1 ≤ℤ r
      → item xs (r -ℤ pos 1) ≡ some x
      → (i : ℕ) × (r ≡ pos (suc i)) × (get_elem? xs i ≡ some x)
  unfolding ◌-ℤ◌
  item-inv xs (pos zero) x l h = absurd (omega arith)
  item-inv xs (pos (suc i)) x l h = (i, refl, ground arith)
  item-inv xs (negsuc n) x l h = absurd (omega arith)

  percentile-some :
      (values : List f.F) (p x : f.F)
      → percentile ceil values p ≡ ok x
      → (m : ℕ) × (length values ≡ suc m)
  unfolding percentile
  percentile-some [] p x h = absurd (ground arith)
  percentile-some (v ∷ values) p x h = (length values, refl)

  percentile-inv :
      (values : List f.F) (p x : f.F)
      → pos 1 ≤ℤ tail_rank ceil p (length values)
      → percentile ceil values p ≡ ok x
      → (i : ℕ) × (tail_rank ceil p (length values) ≡ pos (suc i))
        × (get_elem? (sorted f.lt (λ y. y) values) i ≡ some x)
  unfolding percentile
  percentile-inv values p x low h =
      let ys = sorted f.lt (λ y. y) values in
      let (_, found) = >>-eq-ok (raise_if (is_nil values) _) _ h in
      let at = or_index_error-ok (item ys (tail_rank ceil p (length ys) -ℤ pos 1)) x found in
      let same = length-sorted f.lt (λ y. y) values in
      let at' = rw same at at in item-inv ys (tail_rank ceil p (length values)) x low at'

  -- The bounds are statistics of resamples of whole seeds, and they are in order.
  pub record IsBootstrapped (samples : List SeedValues) (statistic : List ℤ → Result f.F)
      (e : IntervalEstimate) : Type 0 where
    pub seeds : List ℤ
    pub aligned : aligned_seeds samples ≡ ok seeds
    pub at_most_six : length seeds ≤ 6
    pub counted : e.seed_count ≡ pos (length seeds)
    pub point : statistic seeds ≡ ok e.estimate
    pub low : (r : List ℤ) × IsResample (length seeds) seeds r × (statistic r ≡ ok e.low_95)
    pub high : (r : List ℤ) × IsResample (length seeds) seeds r × (statistic r ≡ ok e.high_95)
    pub in_order : (e.high_95 ≺ e.low_95) ≡ false

  -- An interval that the bootstrap returns: it comes of at most six seeds, its estimate is their
  -- statistic, both bounds are statistics of resamples of whole seeds, and they are in order.
  pub bootstrap_seed_statistic-IsBootstrapped :
      IsTailCeiling
      → IsOrdered
      → (samples : List SeedValues) (statistic : List ℤ → Result f.F) (e : IntervalEstimate)
      → bootstrap_seed_statistic ceil samples statistic ≡ ok e
      → IsBootstrapped samples statistic e
  unfolding bootstrap_seed_statistic
  bootstrap_seed_statistic-IsBootstrapped tails ordered samples statistic e h =
      let (seeds, aligned, h) = >>=-eq-ok (aligned_seeds samples) _ h in
      let (point, of_seeds, h) = >>=-eq-ok (statistic seeds) _ h in
      let (few, h) = >>-eq-ok (raise_if (ltb 6 (length seeds)) _) _ h in
      let n = length seeds in
      let (values, all_values, h) = >>=-eq-ok (traverse statistic (product n seeds)) _ h in
      let (low, low_is, h) = >>=-eq-ok (percentile ceil values (low_tail ceil)) _ h in
      let (high, high_is, h) = >>=-eq-ok (percentile ceil values (high_tail ceil)) _ h in
      let same : (record { estimate = point; low_95 = low; high_95 = high; seed_count = pos n })
          ≡ e =
        ok_inj h in
      let each =
        traverse-All statistic (IsResample n seeds) (product n seeds) values
          (product-IsResample n seeds) all_values in
      let (m, some_values) = percentile-some values (low_tail ceil) low low_is in
      let low_rank : pos 1 ≤ℤ tail_rank ceil (low_tail ceil) (length values) =
        subst (λ k. pos 1 ≤ℤ tail_rank ceil (low_tail ceil) k) (sym some_values) (tails.low m) in
      let ranks = tails.low-le-high (length values) in
      let ys = sorted f.lt (λ y. y) values in
      let sorted_each = All-sorted f.lt (λ y. y) _ values each in
      let (i, at_i, get_i) = percentile-inv values (low_tail ceil) low low_rank low_is in
      let (j, at_j, get_j) = percentile-inv values (high_tail ceil) high (omega arith) high_is in
      subst (IsBootstrapped samples statistic) same (record {
        seeds = seeds;
        aligned = aligned;
        at_most_six = ground (arith, raise_if-ok _ _ few);
        counted = refl;
        point = of_seeds;
        low = All-get _ ys i low sorted_each get_i;
        high = All-get _ ys j high sorted_each get_j;
        in_order =
            get_elem?-IsInOrder f.lt ordered ys i j low high
              (sorted-IsInOrder f.lt (λ y. y) ordered values) (index_le at_i at_j ranks) get_i
              get_j;
      })
