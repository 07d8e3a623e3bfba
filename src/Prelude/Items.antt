-- ===== src/Prelude/Items.antt =====
-- Items of a list by their index, and comprehensions.
use Prim.Native.Nat.{ℕ, zero, suc, ◌-◌, ◌<◌}
use mathlib.Core.Path.{◌≡◌, refl, subst}
use mathlib.Core.List.{List, [], ◌∷◌, Mem, mem-cons_self, mem-cons_of_mem}
use mathlib.Core.Option.{Option, none, some}
use native.Mathlib.Omega.{arith}
use sloserve.Prelude.Tests.{if◌then◌else◌, leb}
use sloserve.Prelude.Lists.{length, get_elem?}
use sloserve.Prelude.Int.{ℤ, pos, negsuc}

-- `xs[i]`: a negative index counts from the end.
abbrev pub item {ℓ} : {A : Type ℓ} → List A → ℤ → Option A
item xs (pos n) = get_elem? xs n
item xs (negsuc n) = if leb (suc n) (length xs) then get_elem? xs (length xs - suc n) else none

abbrev pub add_some {ℓ} : {A : Type ℓ} → Option A → List A → List A
add_some none xs = xs
add_some (some x) xs = x ∷ xs

-- A comprehension that leaves out what has no value.
abbrev pub filter_map {ℓ κ} : {A : Type ℓ} {B : Type κ} → (A → Option B) → List A → List B
filter_map g [] = []
filter_map g (x ∷ xs) = add_some (g x) (filter_map g xs)

pub get_elem?-some {ℓ} :
    {A : Type ℓ} (xs : List A) (i : ℕ) → i < length xs → (x : A) × (get_elem? xs i ≡ some x)
get_elem?-some [] i h = absurd (omega arith)
get_elem?-some (x ∷ xs) zero h = (x, refl)
get_elem?-some (x ∷ xs) (suc i) h = get_elem?-some xs i (omega arith)

pub get_elem?-Mem {ℓ} :
    {A : Type ℓ} (xs : List A) (i : ℕ) (x : A) → get_elem? xs i ≡ some x → Mem x xs
get_elem?-Mem [] i x h = absurd (cc)
get_elem?-Mem (y ∷ ys) zero x h = let e : y ≡ x = cc in subst (λ z. Mem z (y ∷ ys)) e mem-cons_self
get_elem?-Mem (y ∷ ys) (suc i) x h = mem-cons_of_mem y (get_elem?-Mem ys i x h)
