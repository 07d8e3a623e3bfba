-- ===== src/Workload/Random.antt =====
-- Python's `random.Random` as a parameter: a state and the draws that the sources make from it.
use sloserve.Prelude.{ℕ, ℤ, ◌<◌, ◌≤ℤ◌, List, ◌≡◌, false, true}
use sloserve.Float.{Float, ◌≺◌, zero_f}

module _ ⦃f : Float⦄ where
  -- `choices n weights` is `rng.choices(range(n), weights=weights, k=1)[0]`.
  pub record Random : Type 1 where
    pub State : Type 0
    pub seeded : ℤ → State
    pub random : State → f.F × State
    pub randint : ℤ → ℤ → State → ℤ × State
    pub choices : ℕ → List f.F → State → ℕ × State
    pub lognormvariate : f.F → f.F → State → f.F × State
    pub expovariate : f.F → State → f.F × State

  -- What the documentation says of the draws: the bounds of an integer, an index of the population,
  -- and the sign of an exponential variate of a positive rate.
  pub record IsRandom (g : Random) : Type 0 where
    pub randint_bounds :
        (low high : ℤ) (s : g.State)
        → low ≤ℤ high
        → (low ≤ℤ (g.randint low high s).0) × ((g.randint low high s).0 ≤ℤ high)
    pub choices_index :
        (n : ℕ) (weights : List f.F) (s : g.State) → 0 < n → (g.choices n weights s).0 < n
    pub expovariate_nonneg :
        (rate : f.F) (s : g.State)
        → (zero_f ≺ rate) ≡ true
        → ((g.expovariate rate s).0 ≺ zero_f) ≡ false
