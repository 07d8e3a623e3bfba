-- ===== src/Prelude/Sorting/Ranks.antt =====
-- About `sorted`: how many items stand below the one at an index.
use Prim.Native.Nat.{ℕ, zero, suc, ◌≤◌}
use mathlib.Core.List.{List, [], ◌∷◌}
use mathlib.Core.Path.{◌≡◌, refl, subst}
use mathlib.Core.Bool.{Bool, false, not}
use mathlib.Core.Option.{some}
use native.Mathlib.Omega.{arith}
use sloserve.Prelude.Lists.{All, All-get, get_elem?, count, count-none}
use sloserve.Prelude.Sorting.{insert_sorted, sorted}
use sloserve.Prelude.Sorting.Laws.{IsStrictOrder, IsInOrder}

module _ {ℓ κ} {A : Type ℓ} {K : Type κ} (less : K → K → Bool) (key : A → K) where
  count-insert_sorted :
      (p : A → Bool) (x : A) (xs : List A)
      → count p (insert_sorted less key x xs) ≡ count p (x ∷ xs)
  unfolding insert_sorted
  count-insert_sorted p x [] = refl
  count-insert_sorted p x (y ∷ ys) = ground (arith, count-insert_sorted p x ys)

  pub count-sorted : (p : A → Bool) (xs : List A) → count p (sorted less key xs) ≡ count p xs
  unfolding sorted
  count-sorted p [] = refl
  count-sorted p (x ∷ xs) =
      ground (arith, count-insert_sorted p x (sorted less key xs), count-sorted p xs)

module _ {κ} {K : Type κ} (less : K → K → Bool) (s : IsStrictOrder less) where
  irrefl : (k : K) → less k k ≡ false
  irrefl k = ground (arith, s.asym k k)

  -- At most `i` items of a list in order are below the one at index `i`.
  pub count-below :
      (xs : List K) (i : ℕ) (v : K)
      → IsInOrder less (λ x. x) xs
      → get_elem? xs i ≡ some v
      → count (λ x. less x v) xs ≤ i
  count-below [] i v o h = absurd (cc)
  count-below (x ∷ xs) zero v o h =
      let e : x ≡ v = cc in
      let below =
        count-none (λ y. less y v) xs (subst (λ w. All (λ y. less y w ≡ false) xs) e o.0) in
      let self : less x v ≡ false = subst (λ w. less x w ≡ false) e (irrefl x) in ground arith
  count-below (x ∷ xs) (suc i) v o h = ground (arith, count-below xs i v o.1 h)

  -- More than `i` items of it are not above that one.
  pub count-upto :
      (xs : List K) (i : ℕ) (v : K)
      → IsInOrder less (λ x. x) xs
      → get_elem? xs i ≡ some v
      → suc i ≤ count (λ x. not (less v x)) xs
  count-upto [] i v o h = absurd (cc)
  count-upto (x ∷ xs) zero v o h =
      let e : x ≡ v = cc in
      let self : less v x ≡ false = subst (λ w. less w x ≡ false) e (irrefl x) in ground arith
  count-upto (x ∷ xs) (suc i) v o h =
      let first = All-get (λ y. less y x ≡ false) xs i v o.0 h in
      ground (arith, count-upto xs i v o.1 h)

  -- What stands later is not smaller.
  pub get_elem?-IsInOrder :
      (xs : List K) (i j : ℕ) (v w : K)
      → IsInOrder less (λ x. x) xs
      → i ≤ j
      → get_elem? xs i ≡ some v
      → get_elem? xs j ≡ some w
      → less w v ≡ false
  get_elem?-IsInOrder [] i j v w o l h k = absurd (cc)
  get_elem?-IsInOrder (x ∷ xs) zero zero v w o l h k =
      let e : v ≡ w = cc in subst (λ u. less u v ≡ false) e (irrefl v)
  get_elem?-IsInOrder (x ∷ xs) zero (suc j) v w o l h k =
      let e : x ≡ v = cc in
      subst (λ u. less w u ≡ false) e (All-get (λ y. less y x ≡ false) xs j w o.0 k)
  get_elem?-IsInOrder (x ∷ xs) (suc i) zero v w o l h k = absurd (omega arith)
  get_elem?-IsInOrder (x ∷ xs) (suc i) (suc j) v w o l h k =
      get_elem?-IsInOrder xs i j v w o.1 (omega arith) h k
