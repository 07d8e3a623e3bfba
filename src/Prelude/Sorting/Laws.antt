-- ===== src/Prelude/Sorting/Laws.antt =====
-- About `sorted`: permutation, order and stability.
use mathlib.Core.List.Perm
use mathlib.Core.List.{List, [], ◌∷◌, Perm, map}
use mathlib.Core.Path.{◌≡◌, refl}
use mathlib.Core.Bool.{Bool, true, false, not, ◌&&◌}
use mathlib.Core.Logic.{inl, inr}
use native.Mathlib.Omega.{arith}
use Prim.Native.Nat.{suc}
use sloserve.Prelude.Tests.{Bool-cases}
use sloserve.Prelude.Lists.{All, All-map, select, length}
use sloserve.Prelude.Sorting.{insert_sorted, sorted, lex}

-- A strict weak order, as a Boolean test.
pub record IsStrictOrder {κ} {K : Type κ} (less : K → K → Bool) : Type κ where
  pub asym : (a b : K) → less a b ≡ true → less b a ≡ false
  pub cotrans : (a b c : K) → less a b ≡ false → less b c ≡ false → less a c ≡ false

pub lex-IsStrictOrder {ℓ κ} :
    {K : Type ℓ} {L : Type κ} {less₁ : K → K → Bool} {less₂ : L → L → Bool}
    → IsStrictOrder less₁
    → IsStrictOrder less₂
    → IsStrictOrder (lex less₁ less₂)
lex-IsStrictOrder s t = record {
  asym = λ p q h. ground (arith, s.asym p.0 q.0, s.asym q.0 p.0, t.asym p.1 q.1);
  cotrans = λ p q r h k. ground (
    arith,
    s.cotrans p.0 q.0 r.0,
    s.cotrans r.0 q.0 p.0,
    s.cotrans r.0 p.0 q.0,
    s.cotrans q.0 r.0 p.0,
    s.cotrans q.0 p.0 r.0,
    s.cotrans p.0 r.0 q.0,
    s.asym p.0 q.0,
    s.asym q.0 p.0,
    s.asym p.0 r.0,
    s.asym r.0 p.0,
    s.asym q.0 r.0,
    s.asym r.0 q.0,
    t.cotrans p.1 q.1 r.1,
  );
}

-- A relation between each item and all that come after it.
abbrev pub Pairs {ℓ κ} : {A : Type ℓ} → (A → A → Type κ) → List A → Type κ
Pairs R [] = Unit
Pairs R (x ∷ xs) = All (R x) xs × Pairs R xs

pub Pairs-weaken {ℓ κ μ} :
    {A : Type ℓ} {R : A → A → Type κ} {S : A → A → Type μ}
    → ((x y : A) → R x y → S x y)
    → (xs : List A) → Pairs R xs
    → Pairs S xs
Pairs-weaken h [] rs = tt
Pairs-weaken h (x ∷ xs) rs = (All-map (h x) xs rs.0, Pairs-weaken h xs rs.1)

-- No later item is smaller than an earlier one.
abbrev pub IsInOrder {ℓ κ} : {A : Type ℓ} {K : Type κ} → (K → K → Bool) → (A → K) → List A → Type 0
IsInOrder less key = Pairs (λ x y. less (key y) (key x) ≡ false)

-- From one relation to another, through a map, for items that have a property.
module _ {ℓ κ μ ν ξ} {A : Type ℓ} {B : Type κ} (g : A → B) (P : A → Type μ) (R : A → A → Type ν)
    (S : B → B → Type ξ) (h : (x y : A) → P x → P y → R x y → S (g x) (g y)) where
  All-relate : (x : A) (xs : List A) → P x → All P xs → All (R x) xs → All (S (g x)) (map g xs)
  All-relate x [] p ps rs = tt
  All-relate x (y ∷ ys) p ps rs = (h x y p ps.0 rs.0, All-relate x ys p ps.1 rs.1)

  pub Pairs-map : (xs : List A) → All P xs → Pairs R xs → Pairs S (map g xs)
  Pairs-map [] ps rs = tt
  Pairs-map (x ∷ xs) ps rs = (All-relate x xs ps.0 ps.1 rs.0, Pairs-map xs ps.1 rs.1)

module _ {ℓ κ} {A : Type ℓ} {K : Type κ} (less : K → K → Bool) (key : A → K) where
  pub insert_sorted-perm : (x : A) (xs : List A) → Perm (insert_sorted less key x xs) (x ∷ xs)
  unfolding insert_sorted
  insert_sorted-perm x [] = Perm.rfl
  insert_sorted-perm x (y ∷ ys) = elim (Bool-cases (less (key y) (key x))) [
    | inl e ↦ rw e (Perm.trans (Perm.cons y (insert_sorted-perm x ys)) (Perm.swap x y ys))
    | inr e ↦ rw e Perm.rfl
  ]

  pub sorted-perm : (xs : List A) → Perm (sorted less key xs) xs
  unfolding sorted
  sorted-perm [] = Perm.rfl
  sorted-perm (x ∷ xs) =
      Perm.trans (insert_sorted-perm x (sorted less key xs)) (Perm.cons x (sorted-perm xs))

  pub length-insert_sorted :
      (x : A) (xs : List A) → length (insert_sorted less key x xs) ≡ suc (length xs)
  unfolding insert_sorted
  length-insert_sorted x [] = refl
  length-insert_sorted x (y ∷ ys) = ground (arith, length-insert_sorted x ys)

  pub length-sorted : (xs : List A) → length (sorted less key xs) ≡ length xs
  unfolding sorted
  length-sorted [] = refl
  length-sorted (x ∷ xs) =
      omega (arith, length-insert_sorted x (sorted less key xs), length-sorted xs)

  pub All-insert_sorted {μ} :
      (P : A → Type μ) (x : A) (xs : List A) → P x → All P xs → All P (insert_sorted less key x xs)
  unfolding insert_sorted
  All-insert_sorted P x [] p a = (p, tt)
  All-insert_sorted P x (y ∷ ys) p a = elim (Bool-cases (less (key y) (key x))) [
    | inl e ↦ rw e (a.0, All-insert_sorted P x ys p a.1)
    | inr e ↦ rw e (p, a)
  ]

  pub All-sorted {μ} : (P : A → Type μ) (xs : List A) → All P xs → All P (sorted less key xs)
  unfolding sorted
  All-sorted P [] a = tt
  All-sorted P (x ∷ xs) a = All-insert_sorted P x (sorted less key xs) a.0 (All-sorted P xs a.1)

  module _ (s : IsStrictOrder less) where
    insert_sorted-IsInOrder :
        (x : A) (xs : List A)
        → IsInOrder less key xs
        → IsInOrder less key (insert_sorted less key x xs)
    unfolding insert_sorted
    insert_sorted-IsInOrder x [] h = (tt, tt)
    insert_sorted-IsInOrder x (y ∷ ys) h = elim (Bool-cases (less (key y) (key x))) [
      | inl e ↦ rw e (
        All-insert_sorted _ x ys (s.asym (key y) (key x) e) h.0,
        insert_sorted-IsInOrder x ys h.1,
      )
      | inr e ↦ rw e ((e, All-map (λ z k. s.cotrans (key z) (key y) (key x) k e) ys h.0), h)
    ]

    pub sorted-IsInOrder : (xs : List A) → IsInOrder less key (sorted less key xs)
    unfolding sorted
    sorted-IsInOrder [] = tt
    sorted-IsInOrder (x ∷ xs) = insert_sorted-IsInOrder x (sorted less key xs) (sorted-IsInOrder xs)

    -- Items whose keys tie with `k`.
    abbrev pub ties : K → List A → List A
    ties k = select (λ y. not (less (key y) k) && not (less k (key y)))

    insert_sorted-stable :
        (k : K) (x : A) (xs : List A) → ties k (insert_sorted less key x xs) ≡ ties k (x ∷ xs)
    unfolding insert_sorted
    insert_sorted-stable k x [] = refl
    insert_sorted-stable k x (y ∷ ys) =
        ground (arith, insert_sorted-stable k x ys, s.cotrans (key y) k (key x))

    -- Items with equal keys keep the order in which they were given.
    pub sorted-stable : (k : K) (xs : List A) → ties k (sorted less key xs) ≡ ties k xs
    unfolding sorted
    sorted-stable k [] = refl
    sorted-stable k (x ∷ xs) =
        ground (arith, insert_sorted-stable k x (sorted less key xs), sorted-stable k xs)
