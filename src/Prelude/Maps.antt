-- ===== src/Prelude/Maps.antt =====
-- Lemmas on mapped, appended and overwritten lists, and on counts of them.
use Prim.Native.Nat.{ℕ, zero, suc, ◌+◌}
use mathlib.Core.Path.{◌≡◌, refl, ap, sym, subst, ◌∙◌}
use mathlib.Core.List.{List, [], ◌∷◌, ◌++◌, map}
use mathlib.Core.Bool.{Bool, true, false}
use mathlib.Core.Option.{some}
use native.Mathlib.Omega.{arith}
use sloserve.Prelude.Lists.{get_elem?, set, count}

pub count-append {ℓ} :
    {A : Type ℓ} (p : A → Bool) (xs ys : List A) → count p (xs ++ ys) ≡ count p xs + count p ys
count-append p [] ys = omega arith
count-append p (x ∷ xs) ys = ground (arith, count-append p xs ys)

pub count-set {ℓ} :
    {A : Type ℓ} (p : A → Bool) (xs : List A) (i : ℕ) (v w : A)
    → get_elem? xs i ≡ some w
    → p w ≡ true
    → p v ≡ false
    → suc (count p (set xs i v)) ≡ count p xs
count-set p [] i v w h k l = absurd (cc)
count-set p (x ∷ xs) zero v w h k l =
    let e : x ≡ w = cc in let q : p x ≡ true = subst (λ y. p y ≡ true) (sym e) k in ground arith
count-set p (x ∷ xs) (suc i) v w h k l = ground (arith, count-set p xs i v w h k l)

pub map-set {ℓ κ} :
    {A : Type ℓ} {B : Type κ} (g : A → B) (xs : List A) (i : ℕ) (v w : A)
    → get_elem? xs i ≡ some w
    → g v ≡ g w
    → map g (set xs i v) ≡ map g xs
map-set g [] i v w h k = refl
map-set g (x ∷ xs) zero v w h k = let e : x ≡ w = cc in ap (λ b. b ∷ map g xs) (k ∙ ap g (sym e))
map-set g (x ∷ xs) (suc i) v w h k = ap (λ bs. g x ∷ bs) (map-set g xs i v w h k)

pub map-append {ℓ κ} :
    {A : Type ℓ} {B : Type κ} (g : A → B) (xs ys : List A) → map g (xs ++ ys) ≡ map g xs ++ map g ys
map-append g [] ys = refl
map-append g (x ∷ xs) ys = ap (λ bs. g x ∷ bs) (map-append g xs ys)

pub append_nil {ℓ} : {A : Type ℓ} (xs : List A) → xs ++ [] ≡ xs
append_nil [] = refl
append_nil (x ∷ xs) = ap (λ l. x ∷ l) (append_nil xs)

pub map-map {ℓ κ μ} :
    {A : Type ℓ} {B : Type κ} {C : Type μ} (g : B → C) (h : A → B) (xs : List A)
    → map (λ x. g (h x)) xs ≡ map g (map h xs)
map-map g h [] = refl
map-map g h (x ∷ xs) = ap (λ l. g (h x) ∷ l) (map-map g h xs)

pub append_assoc {ℓ} : {A : Type ℓ} (xs ys zs : List A) → (xs ++ ys) ++ zs ≡ xs ++ (ys ++ zs)
append_assoc [] ys zs = refl
append_assoc (x ∷ xs) ys zs = ap (λ l. x ∷ l) (append_assoc xs ys zs)
