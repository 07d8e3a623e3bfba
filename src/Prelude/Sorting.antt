-- ===== src/Prelude/Sorting.antt =====
-- Python's `sorted(items, key=...)` and the comparison of tuples. `sorted` is stable; an insertion
-- from the right, before the first item that is not smaller, is its plainest definition.
pub mod Laws
pub mod Ranks
use sloserve.Prelude.Tests.{if◌then◌else◌}
use mathlib.Core.Bool.{Bool, true, false}
use mathlib.Core.List.{List, [], ◌∷◌}

module _ {ℓ κ} {A : Type ℓ} {K : Type κ} (less : K → K → Bool) (key : A → K) where
  unfoldable pub insert_sorted : A → List A → List A
  insert_sorted x [] = x ∷ []
  insert_sorted x (y ∷ ys) =
      let rest = insert_sorted x ys in if less (key y) (key x) then y ∷ rest else x ∷ y ∷ ys

  unfoldable pub sorted : List A → List A
  unfolding insert_sorted
  sorted [] = []
  sorted (x ∷ xs) = insert_sorted x (sorted xs)

-- Tuples compare by their first parts that differ.
abbrev pub lex {ℓ κ} :
    {K : Type ℓ} {L : Type κ} → (K → K → Bool) → (L → L → Bool) → K × L → K × L → Bool
lex less₁ less₂ (a, b) (c, d) = if less₁ a c then true else if less₁ c a then false else less₂ b d
