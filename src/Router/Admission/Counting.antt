-- ===== src/Router/Admission/Counting.antt =====
-- Lists of addresses, and how writes to the heap change the number of entries in flight.
use native.Mathlib.Decide.{ℕ_discrete}
use sloserve.Prelude.{
  ℕ, zero, suc, ◌≤◌, ◌<◌, ◌==◌, ==_iff, Bool, true, false, Option, some, List, [], ◌∷◌, ◌++◌,
  length, get_elem?, set, select, any, All, All-map, All-append, get_elem?-set_ne, ◌≡◌, ◌≢◌, refl,
  sym, ap, arith, Bool-cases, inl, inr, subst, ◌∙◌,
}
use sloserve.Float.{Float}
use sloserve.Router.Admission.State.{QueueEntry, is_in_flight, flight_at, discard}

abbrev pub Distinct : List ℕ → Type 0
Distinct [] = Unit
Distinct (x ∷ xs) = All (λ y. x ≢ y) xs × Distinct xs

pub discard-All {ℓ} : (P : ℕ → Type ℓ) (i : ℕ) (xs : List ℕ) → All P xs → All P (discard i xs)
discard-All P i [] a = tt
discard-All P i (x ∷ xs) a = elim (Bool-cases (i == x)) [
  | inl e ↦ rw e a.1
  | inr e ↦ rw e (a.0, discard-All P i xs a.1)
]

pub discard-Distinct : (i : ℕ) (xs : List ℕ) → Distinct xs → Distinct (discard i xs)
discard-Distinct i [] d = tt
discard-Distinct i (x ∷ xs) d = elim (Bool-cases (i == x)) [
  | inl e ↦ rw e d.1
  | inr e ↦ rw e (discard-All (λ y. x ≢ y) i xs d.0, discard-Distinct i xs d.1)
]

-- What is discarded from a list without repetitions is gone.
pub discard-ne : (i : ℕ) (xs : List ℕ) → Distinct xs → All (λ y. i ≢ y) (discard i xs)
discard-ne i [] d = tt
discard-ne i (x ∷ xs) d = elim (Bool-cases (i == x)) [
  | inl e ↦ rw e (All-map (λ y n k. n (sym ((==_iff i x).0 e) ∙ k)) xs d.0)
  | inr e ↦ rw e ((λ k. absurd (ground (arith, ==_iff i x))), discard-ne i xs d.1)
]

pub length-discard_le : (i : ℕ) (xs : List ℕ) → length (discard i xs) ≤ length xs
length-discard_le i [] = omega arith
length-discard_le i (x ∷ xs) = ground (arith, length-discard_le i xs)

pub length-discard :
    (i : ℕ) (xs : List ℕ) → any (λ j. i == j) xs ≡ true → suc (length (discard i xs)) ≡ length xs
length-discard i [] h = absurd (cc)
length-discard i (x ∷ xs) h = ground (arith, length-discard i xs)

pub snoc-Distinct :
    (n : ℕ) (xs : List ℕ) → All (λ i. i < n) xs → Distinct xs → Distinct (xs ++ n ∷ [])
snoc-Distinct n [] b d = (tt, tt)
snoc-Distinct n (x ∷ xs) b d = (
  All-append (λ y. x ≢ y) xs (n ∷ []) d.0 ((λ e. absurd (omega (arith, b.0))), tt),
  snoc-Distinct n xs b.1 d.1,
)

module _ {ℓ} {A : Type ℓ} where
  pub length-select_mono :
      (p q : A → Bool) (xs : List A)
      → ((x : A) → p x ≡ true → q x ≡ true)
      → length (select p xs) ≤ length (select q xs)
  length-select_mono p q [] h = omega arith
  length-select_mono p q (x ∷ xs) h = ground (arith, h x, length-select_mono p q xs h)

pub length-select-discard :
    (p : ℕ → Bool) (i : ℕ) (xs : List ℕ) → length (select p (discard i xs)) ≤ length (select p xs)
length-select-discard p i [] = omega arith
length-select-discard p i (x ∷ xs) = ground (arith, length-select-discard p i xs)

module _ (p q : ℕ → Bool) (i : ℕ) (agree : (j : ℕ) → i ≢ j → p j ≡ q j) where
  select-agree : (xs : List ℕ) → All (λ y. i ≢ y) xs → select p xs ≡ select q xs
  select-agree [] a = refl
  select-agree (x ∷ xs) a = ground (arith, agree x a.0, select-agree xs a.1)

  -- Tests that differ at one address only select at most one address more.
  pub length-select-agree :
      (xs : List ℕ) → Distinct xs → length (select p xs) ≤ suc (length (select q xs))
  length-select-agree [] d = omega arith
  length-select-agree (x ∷ xs) d = elim (ℕ_discrete i x) [
    | yes e ↦ ground (arith, ap length (select-agree xs (rw (← e) at d.0)))
    | no n ↦ ground (arith, agree x n, length-select-agree xs d.1)
  ]

module _ ⦃f : Float⦄ where
  abbrev pub flies : List QueueEntry → ℕ → Bool
  flies h j = flight_at (get_elem? h j)

  flies-set_self :
      (h : List QueueEntry) (i : ℕ) (v : QueueEntry)
      → flies (set h i v) i ≡ true
      → is_in_flight v.state ≡ true
  flies-set_self [] i v e = absurd (cc)
  flies-set_self (x ∷ xs) zero v e = e
  flies-set_self (x ∷ xs) (suc i) v e = flies-set_self xs i v e

  flies-set_ne :
      (h : List QueueEntry) (i j : ℕ) (v : QueueEntry) → i ≢ j → flies (set h i v) j ≡ flies h j
  flies-set_ne h i j v n = ap flight_at (get_elem?-set_ne h i j v n)

  -- A write of an entry that is not in flight, or over one that is, adds none to those in flight.
  pub length-flight-set_le :
      (h : List QueueEntry) (i : ℕ) (v : QueueEntry) (ids : List ℕ)
      → (is_in_flight v.state ≡ true → flies h i ≡ true)
      → length (select (flies (set h i v)) ids) ≤ length (select (flies h) ids)
  length-flight-set_le h i v ids was = length-select_mono (flies (set h i v)) (flies h) ids λ j e.
      elim (ℕ_discrete i j) [
        | yes k ↦ rw k at (was (flies-set_self h i v (rw (← k) at e)))
        | no n ↦ rw (flies-set_ne h i j v n) at e
      ]

  -- Any write adds at most one.
  pub length-flight-set :
      (h : List QueueEntry) (i : ℕ) (v : QueueEntry) (ids : List ℕ)
      → Distinct ids
      → length (select (flies (set h i v)) ids) ≤ suc (length (select (flies h) ids))
  length-flight-set h i v ids d =
      length-select-agree (flies (set h i v)) (flies h) i (λ j n. flies-set_ne h i j v n) ids d

  get_elem?-append :
      (h : List QueueEntry) (e : QueueEntry) (j : ℕ)
      → j < length h
      → get_elem? (h ++ e ∷ []) j ≡ get_elem? h j
  get_elem?-append [] e j b = absurd (omega arith)
  get_elem?-append (x ∷ xs) e zero b = refl
  get_elem?-append (x ∷ xs) e (suc j) b = get_elem?-append xs e j (omega arith)

  pub get_elem?-append_last :
      (h : List QueueEntry) (e : QueueEntry) → get_elem? (h ++ e ∷ []) (length h) ≡ some e
  get_elem?-append_last [] e = refl
  get_elem?-append_last (x ∷ xs) e = get_elem?-append_last xs e

  -- A new entry that is not in flight leaves the number as it was.
  pub length-flight-append :
      (h : List QueueEntry) (e : QueueEntry) (ids : List ℕ)
      → is_in_flight e.state ≡ false
      → All (λ j. j < length h) ids
      → length (select (flies (h ++ e ∷ [])) (ids ++ length h ∷ [])) ≡ length (select (flies h) ids)
  length-flight-append h e [] n b = ground (arith, ap flight_at (get_elem?-append_last h e))
  length-flight-append h e (j ∷ js) n b =
      ground (arith, ap flight_at (get_elem?-append h e j b.0), length-flight-append h e js n b.1)

  pub All-append_heap :
      (P : Option QueueEntry → Type 0) (h : List QueueEntry) (e : QueueEntry) (ids : List ℕ)
      → All (λ j. j < length h) ids
      → All (λ j. P (get_elem? h j)) ids
      → All (λ j. P (get_elem? (h ++ e ∷ []) j)) ids
  All-append_heap P h e [] b a = tt
  All-append_heap P h e (j ∷ js) b a =
      (subst P (sym (get_elem?-append h e j b.0)) a.0, All-append_heap P h e js b.1 a.1)

  pub All-set_heap :
      (P : Option QueueEntry → Type 0) (h : List QueueEntry) (i : ℕ) (v : QueueEntry) (ids : List ℕ)
      → All (λ j. i ≢ j) ids
      → All (λ j. P (get_elem? h j)) ids
      → All (λ j. P (get_elem? (set h i v) j)) ids
  All-set_heap P h i v [] n a = tt
  All-set_heap P h i v (j ∷ js) n a =
      (subst P (sym (get_elem?-set_ne h i j v n.0)) a.0, All-set_heap P h i v js n.1 a.1)
