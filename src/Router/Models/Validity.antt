-- ===== src/Router/Models/Validity.antt =====
-- Which envelopes the constructor accepts, and what the clipping properties say of them.
use text.Mathlib.TextEquality.{eq_iff}
use sloserve.Prelude.{ℤ, pos, ltb_ℤ, ◌≤ℤ◌, true, Option, none, some, ok, ◌≡◌, ◌≢◌, ◌↔◌, arith, refl}
use sloserve.Float.{Float, ◌≼◌, zero_f}
use sloserve.Router.Models.{
  RequestEnvelope, post_init, construct, effective_max_output_tokens, clip_applied,
}

-- `None`, or a number in the range.
abbrev pub IsCap : Option ℤ → ℤ → Type 0
IsCap none top = Unit
IsCap (some cap) top = (pos 1 ≤ℤ cap) × (cap ≤ℤ top)

abbrev pub IsPositive : Option ℤ → Type 0
IsPositive none = Unit
IsPositive (some n) = pos 1 ≤ℤ n

module _ ⦃f : Float⦄ where
  -- A coherent envelope, as the docstrings of the module describe it.
  pub record IsValid (r : RequestEnvelope) : Type 0 where
    pub named : r.request_id ≢ ""
    pub numbered : pos 0 ≤ℤ r.sequence_id
    pub arrives : (zero_f ≼ r.arrival_time_s) ≡ true
    pub input : pos 1 ≤ℤ r.input_tokens
    pub output : pos 1 ≤ℤ r.max_output_tokens
    pub due : (r.arrival_time_s ≼ r.deadline_time_s) ≡ true
    pub advertised : IsPositive r.advertised_cap_tokens
    pub capped : IsCap r.backend_max_output_tokens r.max_output_tokens

  post_init-IsValid : (r : RequestEnvelope) → post_init r ≡ ok tt → IsValid r
  unfolding post_init
  post_init-IsValid r h = ground (arith, eq_iff r.request_id "")

  IsValid-post_init : (r : RequestEnvelope) → IsValid r → post_init r ≡ ok tt
  unfolding post_init
  IsValid-post_init r v = ground (arith, eq_iff r.request_id "")

  -- The constructor returns the envelope that it is given exactly when that envelope is valid.
  pub construct-ok_iff : (r : RequestEnvelope) → (construct r ≡ ok r) ↔ IsValid r
  unfolding construct
  construct-ok_iff r = (λ h. post_init-IsValid r (ground arith), λ v. rw (IsValid-post_init r v))

  effective_bounds :
      (r : RequestEnvelope) (cap : Option ℤ)
      → r.backend_max_output_tokens ≡ cap
      → pos 1 ≤ℤ r.max_output_tokens
      → IsCap cap r.max_output_tokens
      → (pos 1 ≤ℤ effective_max_output_tokens r)
        × (effective_max_output_tokens r ≤ℤ r.max_output_tokens)
  unfolding effective_max_output_tokens
  effective_bounds r none e o c = rw e (ground arith)
  effective_bounds r (some cap) e o c = rw e (ground arith)

  clip_applied-cap :
      (r : RequestEnvelope) (cap : Option ℤ)
      → r.backend_max_output_tokens ≡ cap
      → IsCap cap r.max_output_tokens
      → clip_applied r ≡ true
      → (n : ℤ) × (cap ≡ some n) × (ltb_ℤ n r.max_output_tokens ≡ true)
  unfolding clip_applied
  clip_applied-cap r none e c h = absurd (ground arith)
  clip_applied-cap r (some n) e c h = (n, refl, ground arith)

  cap-clip_applied :
      (r : RequestEnvelope) (n : ℤ)
      → r.backend_max_output_tokens ≡ some n
      → pos 1 ≤ℤ n
      → ltb_ℤ n r.max_output_tokens ≡ true
      → clip_applied r ≡ true
  unfolding clip_applied
  cap-clip_applied r n e p h = ground arith

  -- On a valid envelope the number sent to the backend is between one and the requested target,
  -- and clipping is reported exactly when a backend cap lies strictly below the target.
  pub effective_max_output_tokens_bounds :
      (r : RequestEnvelope)
      → IsValid r
      → (pos 1 ≤ℤ effective_max_output_tokens r)
        × (effective_max_output_tokens r ≤ℤ r.max_output_tokens)
        × ((clip_applied r ≡ true) ↔ (
            (cap : ℤ) × (r.backend_max_output_tokens ≡ some cap)
            × (ltb_ℤ cap r.max_output_tokens ≡ true)))
  effective_max_output_tokens_bounds r v =
      let (low, high) = effective_bounds r r.backend_max_output_tokens refl v.output v.capped in
      (
        low,
        high,
        (
          clip_applied-cap r r.backend_max_output_tokens refl v.capped,
          λ (n, e, h). cap-clip_applied r n e (rw e at v.capped).0 h,
        ),
      )
