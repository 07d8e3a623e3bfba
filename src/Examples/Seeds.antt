-- ===== src/Examples/Seeds.antt =====
-- The interval of two seeds.
use sloserve.Prelude.Sorting.{sorted}
use sloserve.Prelude.{
  err, ◌-ℤ◌, pos, refl, ◌≡◌, List, [], ◌∷◌, ok, ◌*ℤ◌, arith, ℤ, Result, value_error,
}
use sloserve.Float.Hundredths.{hundredths, ceil}
use sloserve.Examples.Records.{ordered}
use sloserve.Analysis.Seeds.{SeedValues, IntervalEstimate, bootstrap_seed_statistic, value_at}
use sloserve.Analysis.Seeds.Bootstrap.{
  IsTailCeiling, IsBootstrapped, bootstrap_seed_statistic-IsBootstrapped,
}

tails : IsTailCeiling ceil
unfolding ◌*ℤ◌
tails = record {
  low = λ n. ground arith;
  low-le-high = λ n. ground arith;
  high = λ n. ground arith;
}

abbrev throughput : SeedValues
throughput = (pos 1, pos 500) ∷ (pos 2, pos 300) ∷ []

abbrev first_value : List ℤ → Result ℤ
first_value [] = err (value_error "no seed")
first_value (s ∷ seeds) = value_at throughput s

abbrev interval : IntervalEstimate
interval = record { estimate = pos 500; low_95 = pos 300; high_95 = pos 500; seed_count = pos 2 }

interval_of_two : bootstrap_seed_statistic ceil (throughput ∷ []) first_value ≡ ok interval
unfolding bootstrap_seed_statistic sorted ◌-ℤ◌ ◌*ℤ◌
interval_of_two = refl

bootstrap_seed_statistic-IsBootstrapped_example :
    IsBootstrapped ceil (throughput ∷ []) first_value interval
bootstrap_seed_statistic-IsBootstrapped_example =
    bootstrap_seed_statistic-IsBootstrapped ceil tails ordered (throughput ∷ []) first_value
      interval interval_of_two
