-- ===== src/Workload/Arrivals.antt =====
-- src/sloserve/workload/arrivals.py: the times at which requests arrive. A schedule's class is a
-- constructor.
pub mod Monotone
use sloserve.Prelude.{
  ℕ, ℤ, pos, negsuc, zero, suc, ◌-◌, ltb_ℤ, Bool, not, String, List, [], ◌∷◌, map, Result, ok, err,
  raise_if, value_error, ◌>>◌, ◌>>=◌,
}
use sloserve.Float.{Float, ◌≺◌, ◌≼◌, ◌⊕◌, ◌⊘◌, zero_f, float}
use sloserve.Config.{ArrivalProcess}
use sloserve.Config
use sloserve.Config.Workload.{WorkloadConfig}
use sloserve.Workload.Random.{Random}

-- `range(start, start + n)`
abbrev pub range_from : ℕ → ℕ → List ℕ
range_from start zero = []
range_from start (suc n) = start ∷ range_from (suc start) n

abbrev pub to_nat : ℤ → ℕ
to_nat (pos n) = n
to_nat (negsuc n) = 0

module _ ⦃f : Float⦄ where
  pub data ArrivalSchedule : Type 0 where
    fixed_rate : f.F → ArrivalSchedule
    poisson_rate : f.F → ℤ → ArrivalSchedule

  -- `FixedRateArrivalSchedule.__init__`
  unfoldable pub build_fixed_rate : f.F → Result ArrivalSchedule
  build_fixed_rate rate = do
    raise_if (rate ≼ zero_f) (value_error "request_rate_rps must be positive")
    ok (fixed_rate rate)

  -- `PoissonArrivalSchedule.__init__`
  unfoldable pub build_poisson : f.F → ℤ → Result ArrivalSchedule
  build_poisson rate seed = do
    raise_if (not (zero_f ≺ rate)) (value_error "request_rate_rps must be positive")
    ok (poisson_rate rate seed)

  -- The loop of the Poisson schedule: `n` times more, after an arrival at `last`.
  unfoldable pub accumulate : (g : Random) → f.F → ℕ → f.F → g.State → List f.F
  accumulate g rate zero last s = last ∷ []
  accumulate g rate (suc n) last s =
      let (gap, s') = g.expovariate rate s in last ∷ accumulate g rate n (last ⊕ gap) s'

  unfoldable pub poisson_times : Random → f.F → ℤ → ℕ → List f.F
  unfolding accumulate
  poisson_times g rate seed zero = []
  poisson_times g rate seed (suc n) = accumulate g rate n zero_f (g.seeded seed)

  unfoldable pub arrival_times : Random → ArrivalSchedule → ℤ → Result (List f.F)
  unfolding poisson_times
  arrival_times g (fixed_rate rate) count = do
    raise_if (ltb_ℤ count (pos 0)) (value_error "request_count must be non-negative")
    ok (map (λ index. float (pos index) ⊘ rate) (range_from 0 (to_nat count)))
  arrival_times g (poisson_rate rate seed) count = do
    raise_if (ltb_ℤ count (pos 0)) (value_error "request_count must be non-negative")
    ok (poisson_times g rate seed (to_nat count))

  abbrev schedule_for : ArrivalProcess → WorkloadConfig → Result ArrivalSchedule
  schedule_for Config.fixed c = build_fixed_rate c.request_rate_rps
  schedule_for Config.poisson c = build_poisson c.request_rate_rps c.random_seed
  schedule_for Config.burst c = err (value_error "unsupported arrival process: burst")

  unfoldable pub arrival_schedule_from_config : WorkloadConfig → Result ArrivalSchedule
  arrival_schedule_from_config c = schedule_for c.arrival_process c
