-- ===== src/Router/Policies/Estimates.antt =====
-- What the policy may know of a request's output length.
use sloserve.Prelude.{ℤ, pos, ◌≤ℤ◌, none, some, >>=-eq-ok, ok, ◌≡◌, ◌≢◌, arith, true, false}
use sloserve.Float.{Float, ◌≺◌, IsOrdered, float}
use sloserve.Config.{true_length}
use sloserve.Workload.LengthPredictor.{predict}
use sloserve.Router.Models.{RequestEnvelope, clip_applied, effective_max_output_tokens}
use sloserve.Router.Policies.{SloAwarePolicy, visible_estimate, estimated_output_tokens}

module _ ⦃f : Float⦄ where
  -- Outside the oracle source, the estimate for an unclipped request that advertises a cap does not
  -- depend on its true target: the hidden length does not leak into the schedule.
  pub estimate_hides_target :
      (p : SloAwarePolicy) (r : RequestEnvelope) (cap target : ℤ)
      → p.length_source ≢ true_length
      → r.advertised_cap_tokens ≡ some cap
      → pos 1 ≤ℤ cap
      → r.backend_max_output_tokens ≡ none
      → pos 1 ≤ℤ r.max_output_tokens
      → pos 1 ≤ℤ target
      → estimated_output_tokens p (record r { max_output_tokens = target })
        ≡ estimated_output_tokens p r
  unfolding estimated_output_tokens clip_applied predict
  estimate_hides_target p r cap target h e c b o t = ground arith

  -- Once admission has clipped a request, no source estimates more than the cap that was sent.
  pub estimate-le-cap :
      IsOrdered
      → (p : SloAwarePolicy) (r : RequestEnvelope) (e : f.F) → clip_applied r ≡ true
      → estimated_output_tokens p r ≡ ok e
      → (float (effective_max_output_tokens r) ≺ e) ≡ false
  unfolding estimated_output_tokens
  estimate-le-cap s p r e c h =
      let (a, _, k) = >>=-eq-ok (visible_estimate p.length_source p.length_predictor r) _ h in
      let cap = float (effective_max_output_tokens r) in ground (arith, s.asym cap cap)
