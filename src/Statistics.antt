-- ===== src/Statistics.antt =====
-- The functions of Python's `statistics` module that the sources call.
use sloserve.Prelude.{
  ℤ, pos, ◌/◌, ◌%◌, ◌-◌, ◌==◌, Bool, List, length, get_elem?, Option, none, some, Result, ok, err,
  value_error, if◌then◌else◌, ◌+ℤ◌, ltb_ℤ,
}
use sloserve.Prelude.Sorting.{sorted}
use sloserve.Float.{Float, ◌⊕◌, ◌⊘◌, float}

module _ ⦃f : Float⦄ {A : Type 0} (less : A → A → Bool) (middle : A → f.F)
    (mean : A → A → f.F) where
  pick : Option A → Result f.F
  pick none = err (value_error "no median for empty data")
  pick (some a) = ok (middle a)

  pick_mean : Option A → Option A → Result f.F
  pick_mean (some a) (some b) = ok (mean a b)
  pick_mean _ _ = err (value_error "no median for empty data")

  -- The middle item, or the mean of the two in the middle.
  pub median_of : List A → Result f.F
  unfolding pick pick_mean
  median_of items =
      let ordered = sorted less (λ x. x) items in
      let n = length items in
      if n == 0
      then err (value_error "no median for empty data")
      else if n % 2 == 1
      then pick (get_elem? ordered (n / 2))
      else pick_mean (get_elem? ordered (n / 2 - 1)) (get_elem? ordered (n / 2))

module _ ⦃f : Float⦄ where
  -- `statistics.median` of floats, and `float(statistics.median(...))` of integers.
  unfoldable pub median : List f.F → Result f.F
  unfolding median_of
  median = median_of f.lt (λ x. x) (λ a b. (a ⊕ b) ⊘ float (pos 2))

  unfoldable pub median_int : List ℤ → Result f.F
  unfolding median_of
  median_int = median_of ltb_ℤ float (λ a b. float (a +ℤ b) ⊘ float (pos 2))
