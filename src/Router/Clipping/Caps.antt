-- ===== src/Router/Clipping/Caps.antt =====
-- About the envelopes that router/clipping.py returns.
use sloserve.Prelude.{
  ℤ, pos, ltb_ℤ, leb_ℤ, ◌≤ℤ◌, true, false, String, none, some, Result, ok, is_ok, ◌≡◌, refl, sym,
  arith, ◌⊎◌, inl, inr, ◌∙◌, ap,
}
use sloserve.Float.{Float}
use sloserve.Config.Admission.{AdmissionControlConfig}
use sloserve.Workload.LengthPredictor.{LengthPredictor}
use sloserve.Router.Models.{RequestEnvelope, construct}
use sloserve.Router.Models.Validity.{IsValid, construct-ok_iff}
use sloserve.Router.Clipping.{
  OutputClipper, build_clipper, estimated_output_tokens, apply, apply_adaptive_cap,
}

module _ ⦃f : Float⦄ where
  abbrev with_cap : RequestEnvelope → ℤ → RequestEnvelope
  with_cap r cap = record r { backend_max_output_tokens = some cap }

  construct-with_cap :
      (r : RequestEnvelope) (cap : ℤ)
      → IsValid r
      → pos 1 ≤ℤ cap
      → leb_ℤ r.max_output_tokens cap ≡ false
      → IsValid (with_cap r cap) × (construct (with_cap r cap) ≡ ok (with_cap r cap))
  construct-with_cap r cap v low high =
      let w : IsValid (with_cap r cap) = record {
        named = v.named;
        numbered = v.numbered;
        arrives = v.arrives;
        input = v.input;
        output = v.output;
        due = v.due;
        advertised = v.advertised;
        capped = (low, ground arith);
      } in
      (w, (construct-ok_iff (with_cap r cap)).1 w)

  -- The request passes as it is, or with the cap, which then lies below its target.
  pub data Clipped (r : RequestEnvelope) (cap : ℤ) (s : RequestEnvelope) : Type 0 where
    kept : s ≡ r → Clipped r cap s
    cut : s ≡ with_cap r cap → ltb_ℤ cap r.max_output_tokens ≡ true → Clipped r cap s

  built-estimates :
      (load : String → Result LengthPredictor) (c : AdmissionControlConfig) (k : OutputClipper)
      (r : RequestEnvelope)
      → build_clipper load c ≡ ok k
      → c.clip_enabled ≡ true
      → (k.config ≡ c) × (is_ok (estimated_output_tokens k r) ≡ true)
  unfolding build_clipper estimated_output_tokens
  built-estimates load c k r b e = ground arith

  apply-cases :
      (k : OutputClipper) (r : RequestEnvelope)
      → k.config.clip_enabled ≡ true
      → is_ok (estimated_output_tokens k r) ≡ true
      → (apply k r ≡ ok r)
        ⊎ (apply k r ≡ construct (with_cap r k.config.clip_max_tokens))
          × (leb_ℤ r.max_output_tokens k.config.clip_max_tokens ≡ false)
  unfolding apply
  apply-cases k r on e = ground arith

  adaptive-cases :
      (k : OutputClipper) (r : RequestEnvelope) (cap : ℤ)
      → k.config.adaptive_clip_enabled ≡ true
      → pos 1 ≤ℤ cap
      → is_ok (estimated_output_tokens k r) ≡ true
      → (apply_adaptive_cap k r (some cap) ≡ ok r)
        ⊎ (apply_adaptive_cap k r (some cap) ≡ construct (with_cap r cap))
          × (leb_ℤ r.max_output_tokens cap ≡ false)
  unfolding apply_adaptive_cap
  adaptive-cases k r cap on low e = ground arith

  -- A clipper that was built with clipping switched on returns, for a valid envelope and a positive
  -- cap, a valid envelope: the one given, or the one given with the cap, which then is below its
  -- requested target.
  pub apply-Clipped :
      (load : String → Result LengthPredictor) (c : AdmissionControlConfig) (k : OutputClipper)
      (r : RequestEnvelope)
      → build_clipper load c ≡ ok k
      → c.clip_enabled ≡ true
      → pos 1 ≤ℤ c.clip_max_tokens
      → IsValid r
      → (s : RequestEnvelope) × (apply k r ≡ ok s) × IsValid s × Clipped r c.clip_max_tokens s
  apply-Clipped load c k r b on low v =
      let (same, e) = built-estimates load c k r b on in
      elim (apply-cases k r (ap (λ d. d.clip_enabled) same ∙ on) e) [
        | inl h ↦ (r, h, v, kept refl)
        | inr (h, above) ↦
            let cap = ap (λ d. d.clip_max_tokens) same in
            let (w, made) =
              construct-with_cap r c.clip_max_tokens v low
                (sym (ap (λ n. leb_ℤ r.max_output_tokens n) cap) ∙ above) in
            (
              with_cap r c.clip_max_tokens,
              h ∙ ap (λ n. construct (with_cap r n)) cap ∙ made,
              w,
              cut refl (ground arith),
            )
      ]

  -- The same at dispatch, for the cap that the controller chose: without one the envelope passes
  -- unchanged, and with one it stays valid and is cut only below its target.
  pub apply_adaptive_cap-Clipped :
      (load : String → Result LengthPredictor) (c : AdmissionControlConfig) (k : OutputClipper)
      (r : RequestEnvelope)
      → build_clipper load c ≡ ok k
      → c.clip_enabled ≡ true
      → c.adaptive_clip_enabled ≡ true
      → IsValid r
      → (apply_adaptive_cap k r none ≡ ok r)
        × ((cap : ℤ)
            → pos 1 ≤ℤ cap
            → (s : RequestEnvelope) × (apply_adaptive_cap k r (some cap) ≡ ok s)
              × IsValid s
              × Clipped r cap s)
  unfolding apply_adaptive_cap
  apply_adaptive_cap-Clipped load c k r b on adaptive v =
      let (same, e) = built-estimates load c k r b on in
      let switched = ap (λ d. d.adaptive_clip_enabled) same ∙ adaptive in
      (
        ground arith,
        λ cap low. elim (adaptive-cases k r cap switched low e) [
          | inl h ↦ (r, h, v, kept refl)
          | inr (h, above) ↦
              let (w, made) = construct-with_cap r cap v low above in
              (with_cap r cap, h ∙ made, w, cut refl (ground arith))
        ],
      )
