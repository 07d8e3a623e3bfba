-- ===== src/Analysis/Queueing/Estimate.antt =====
-- About `estimate_mg1_wait` of analysis/queueing.py.
use sloserve.Prelude.{
  ℤ, pos, ltb_ℤ, true, not, ◌||◌, List, ok, ◌≡◌, arith, >>-eq-ok, raise_if, ◌↔◌, ◌≤ℤ◌, any,
}
use sloserve.Float.{Float, ◌≺◌, ◌≼◌, zero_f}
use sloserve.Analysis.Queueing.{
  Mg1Estimate, LinearServiceFit, estimate_mg1_wait, stable, service_times_of, no_lengths,
}
use sloserve.Metrics.Records.{is_some}

module _ ⦃f : Float⦄ (fmean : List f.F → f.F) where
  -- An estimate is made only for a positive rate and at least one server, and it gives a wait exactly
  -- when the utilization is below one.
  pub estimate_mg1_wait_iff :
      (lengths : List ℤ) (rate : f.F) (fit : LinearServiceFit) (concurrency : ℤ) (e : Mg1Estimate)
      → estimate_mg1_wait fmean lengths rate fit concurrency ≡ ok e
      → ((zero_f ≺ rate) ≡ true)
        × (pos 1 ≤ℤ concurrency)
        × ((is_some e.mean_queue_wait_s ≡ true) ↔ (stable e ≡ true))
  unfolding estimate_mg1_wait stable
  estimate_mg1_wait_iff lengths rate fit concurrency e h =
      let (_, h₁) = >>-eq-ok (raise_if (no_lengths fmean lengths) _) _ h in
      let (rated, h₂) = >>-eq-ok (raise_if (rate ≼ zero_f || not (f.is_finite rate)) _) _ h₁ in
      let (served, h₃) = >>-eq-ok (raise_if (ltb_ℤ concurrency (pos 1)) _) _ h₂ in
      let (_, h₄) = >>-eq-ok (raise_if (any (λ n. ltb_ℤ n (pos 1)) lengths) _) _ h₃ in
      let times = service_times_of fmean fit concurrency lengths in
      let (_, last) =
        >>-eq-ok (raise_if (any (λ t. t ≼ zero_f || not (f.is_finite t)) times) _) _ h₄ in
      (ground arith, ground arith, (λ w. ground arith, λ u. ground arith))
