-- ===== src/Analysis/Percentiles/Ranks.antt =====
-- About the percentiles of analysis/metrics.py.
use mathlib.Core.List.Perm
use sloserve.Prelude.{
  ℕ, ℤ, pos, zero, negsuc, suc, ◌≤ℤ◌, ◌-ℤ◌, ◌<◌, Option, none, some, count, List, [], ◌∷◌, length,
  item, get_elem?, get_elem?-some, get_elem?-Mem, Mem, ok, ◌≡◌, refl, arith, false, sym, subst, ◌∙◌,
  ◌≤◌, >>=-eq-ok,
}
use sloserve.Prelude.Sorting.{sorted}
use sloserve.Prelude.Sorting.Laws.{length-sorted, sorted-perm, sorted-IsInOrder}
use sloserve.Prelude.Sorting.Ranks.{count-sorted, count-below, count-upto, get_elem?-IsInOrder}
use sloserve.Float.{Float, ◌≺◌, ◌≼◌, IsOrdered}
use sloserve.Analysis.Percentiles.{
  IsCeiling, rank, nearest_rank, percentiles, half, most, nearly_all, Percentiles,
}

pub index_le : {r s : ℤ} {i j : ℕ} → r ≡ pos (suc i) → s ≡ pos (suc j) → r ≤ℤ s → i ≤ j
index_le {r} {s} e k h = ground arith

module _ ⦃f : Float⦄ (ceil : f.F → ℤ) where
  -- The value of a rank: fewer values than the rank are below it, and at least as many are not above.
  pub record HasRank (values : List f.F) (proportion v : f.F) : Type 0 where
    pub member : Mem v values
    pub below : pos (suc (count (λ x. x ≺ v) values)) ≤ℤ rank ceil proportion (length values)
    pub upto : rank ceil proportion (length values) ≤ℤ pos (count (λ x. x ≼ v) values)

  index-of_rank :
      (xs : List f.F) (r : ℤ)
      → pos 1 ≤ℤ r
      → r ≤ℤ pos (length xs)
      → (i : ℕ) × (r ≡ pos (suc i)) × (i < length xs) × (item xs (r -ℤ pos 1) ≡ get_elem? xs i)
  unfolding ◌-ℤ◌
  index-of_rank xs (pos zero) l h = absurd (omega arith)
  index-of_rank xs (pos (suc i)) l h = (i, refl, omega arith, ground arith)
  index-of_rank xs (negsuc n) l h = absurd (omega arith)

  nearest_rank-item :
      (xs : List f.F) (p v : f.F)
      → item xs (rank ceil p (length xs) -ℤ pos 1) ≡ some v
      → nearest_rank ceil xs p ≡ ok (some v)
  unfolding nearest_rank ◌-ℤ◌
  nearest_rank-item [] p v h = absurd (ground arith)
  nearest_rank-item (x ∷ xs) p v h = ground arith

  positive : (n : ℕ) → 0 < n → (m : ℕ) × (n ≡ suc m)
  positive zero h = absurd (omega arith)
  positive (suc m) h = (m, refl)

  module _ (ordered : IsOrdered) where
    HasRank-sorted :
        (values : List f.F) (p : f.F) (i : ℕ) (v : f.F)
        → rank ceil p (length values) ≡ pos (suc i)
        → get_elem? (sorted f.lt (λ x. x) values) i ≡ some v
        → HasRank values p v
    HasRank-sorted values p i v r h =
        let ys = sorted f.lt (λ x. x) values in
        let o = sorted-IsInOrder f.lt (λ x. x) ordered values in
        let below = count-below f.lt ordered ys i v o h in
        let upto = count-upto f.lt ordered ys i v o h in
        record {
          member = (Perm.mem_iff (sorted-perm f.lt (λ x. x) values)).0 (get_elem?-Mem ys i v h);
          below = rw r omega (arith, count-sorted f.lt (λ x. x) (λ x. x ≺ v) values);
          upto = rw r omega (arith, count-sorted f.lt (λ x. x) (λ x. x ≼ v) values);
        }

    -- The nearest rank of a list in order: the value at it, and that value's place.
    nearest_rank-sorted :
        (values : List f.F) (p : f.F)
        → pos 1 ≤ℤ rank ceil p (length values)
        → rank ceil p (length values) ≤ℤ pos (length values)
        → (i : ℕ) × (v : f.F) × (rank ceil p (length values) ≡ pos (suc i))
          × (get_elem? (sorted f.lt (λ x. x) values) i ≡ some v)
          × (nearest_rank ceil (sorted f.lt (λ x. x) values) p ≡ ok (some v))
    unfolding nearest_rank
    nearest_rank-sorted values p low high =
        let ys = sorted f.lt (λ x. x) values in
        let len = length-sorted f.lt (λ x. x) values in
        let (i, at, inside, it) =
          index-of_rank ys (rank ceil p (length values)) low (rw len high) in
        let (v, e) = get_elem?-some ys i inside in
        (i, v, at, e, nearest_rank-item ys p v (rw len (it ∙ e)))

    -- The percentiles of values that there are: each has its rank, and they ascend.
    pub percentiles-HasRank :
        IsCeiling ceil
        → (values : List f.F) → 0 < length values
        → (a b c : f.F) × (percentiles ceil values
            ≡ ok (record { p50 = some a; p95 = some b; p99 = some c }))
          × HasRank values half a
          × HasRank values most b
          × HasRank values nearly_all c
          × ((b ≺ a) ≡ false)
          × ((c ≺ b) ≡ false)
    unfolding percentiles
    percentiles-HasRank ceiling values some_values =
        let o = sorted-IsInOrder f.lt (λ x. x) ordered values in
        let n = length values in
        let ys = sorted f.lt (λ x. x) values in
        let (m, e) = positive n some_values in
        let low : pos 1 ≤ℤ rank ceil half n =
          subst (λ k. pos 1 ≤ℤ rank ceil half k) (sym e) (ceiling.half_low m) in
        let mid = ceiling.half-le-most n in
        let top = ceiling.most-le-nearly_all n in
        let high = ceiling.nearly_all_high n in
        let (i, a, at_a, get_a, is_a) = nearest_rank-sorted values half low (omega arith) in
        let (j, b, at_b, get_b, is_b) =
          nearest_rank-sorted values most (omega arith) (omega arith) in
        let (k, c, at_c, get_c, is_c) = nearest_rank-sorted values nearly_all (omega arith) high in
        (
          a,
          b,
          c,
          rw (is_a, is_b, is_c) refl,
          HasRank-sorted values half i a at_a get_a,
          HasRank-sorted values most j b at_b get_b,
          HasRank-sorted values nearly_all k c at_c get_c,
          get_elem?-IsInOrder f.lt ordered ys i j a b o (index_le at_a at_b mid) get_a get_b,
          get_elem?-IsInOrder f.lt ordered ys j k b c o (index_le at_b at_c top) get_b get_c,
        )

    pub percentiles_total :
        IsCeiling ceil → (values : List f.F) → (p : Percentiles) × (percentiles ceil values ≡ ok p)
    unfolding percentiles nearest_rank sorted
    percentiles_total ceiling [] = (record { p50 = none; p95 = none; p99 = none }, refl)
    percentiles_total ceiling (x ∷ xs) =
        let (a, b, c, e, _, _, _, _, _) = percentiles-HasRank ceiling (x ∷ xs) (omega arith) in
        (record { p50 = some a; p95 = some b; p99 = some c }, e)

    pub nearest_rank_total :
        IsCeiling ceil
        → (values : List f.F)
        → (o : Option f.F) × (nearest_rank ceil (sorted f.lt (λ x. x) values) most ≡ ok o)
    unfolding percentiles
    nearest_rank_total ceiling values =
        let ys = sorted f.lt (λ x. x) values in
        let (p, e) = percentiles_total ceiling values in
        let (_, _, e₁) = >>=-eq-ok (nearest_rank ceil ys half) _ e in
        let (o, e₂, _) = >>=-eq-ok (nearest_rank ceil ys most) _ e₁ in (o, e₂)
