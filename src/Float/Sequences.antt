-- ===== src/Float/Sequences.antt =====
-- The built-ins `max` and `min` of several floats.
use sloserve.Prelude.{false, Option, none, some, List, [], ◌∷◌, All, ◌≡◌, arith, subst}
use sloserve.Float.{Float, ◌≺◌, max_f, min_f, IsOrdered}

module _ ⦃f : Float⦄ where
  abbrev pub max_from : f.F → List f.F → f.F
  max_from m [] = m
  max_from m (y ∷ ys) = max_from (max_f m y) ys

  abbrev pub min_from : f.F → List f.F → f.F
  min_from m [] = m
  min_from m (y ∷ ys) = min_from (min_f m y) ys

  -- `max(first, *rest)` and `min(first, *rest)`, or nothing for no values.
  abbrev pub maximum : List f.F → Option f.F
  maximum [] = none
  maximum (x ∷ xs) = some (max_from x xs)

  abbrev pub minimum : List f.F → Option f.F
  minimum [] = none
  minimum (x ∷ xs) = some (min_from x xs)

  module _ (ordered : IsOrdered) where
    max_f_upper : (a b : f.F) → ((max_f a b ≺ a) ≡ false) × ((max_f a b ≺ b) ≡ false)
    max_f_upper a b = ground (arith, ordered.asym a b, ordered.asym b b, ordered.asym a a)

    max_from_upper :
        (m : f.F) (xs : List f.F)
        → ((max_from m xs ≺ m) ≡ false) × All (λ x. (max_from m xs ≺ x) ≡ false) xs
    max_from_upper m [] = (ground (arith, ordered.asym m m), tt)
    max_from_upper m (x ∷ xs) =
        let top = max_f m x in
        let (first, rest) = max_from_upper top xs in
        let over = max_f_upper m x in
        (
          ordered.cotrans (max_from top xs) top m first over.0,
          (ordered.cotrans (max_from top xs) top x first over.1, rest),
        )

    -- The maximum is not below any of the values.
    pub maximum-upper :
        (xs : List f.F) (m : f.F) → maximum xs ≡ some m → All (λ x. (m ≺ x) ≡ false) xs
    maximum-upper [] m h = tt
    maximum-upper (x ∷ xs) m h =
        let e : max_from x xs ≡ m = cc in
        subst (λ n. All (λ y. (n ≺ y) ≡ false) (x ∷ xs)) e (max_from_upper x xs)
