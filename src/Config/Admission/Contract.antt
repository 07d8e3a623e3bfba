-- ===== src/Config/Admission/Contract.antt =====
-- The adaptive-clipping contract, stated apart from the code that checks it.
use sloserve.Prelude.{
  ℤ, pos, ltb_ℤ, true, false, List, [], ◌∷◌, ok, ◌≡◌, arith, refl, >>-eq-ok, ◌≢◌, ◌↔◌,
}
use sloserve.Float.{Float, ◌≺◌, zero_f}
use sloserve.Config.Admission.{
  validate_caps, validate_thresholds, validate_adaptive_clip_contract, AdmissionControlConfig,
  String, none, validate_levels,
}
use sloserve.Config.Base.{rho_hat}

-- Three caps, from the loosest to the tightest, none below 512 tokens.
pub record AreCaps (caps : List ℤ) : Type 0 where
  pub l1 : ℤ
  pub l2 : ℤ
  pub l3 : ℤ
  pub shape : caps ≡ l1 ∷ l2 ∷ l3 ∷ []
  pub falls₁ : ltb_ℤ l2 l1 ≡ true
  pub falls₂ : ltb_ℤ l3 l2 ≡ true
  pub floor : ltb_ℤ l3 (pos 512) ≡ false

module _ ⦃f : Float⦄ where
  -- Three finite thresholds that rise from zero or above.
  pub record AreThresholds (ts : List f.F) : Type 0 where
    pub l1 : f.F
    pub l2 : f.F
    pub l3 : f.F
    pub shape : ts ≡ l1 ∷ l2 ∷ l3 ∷ []
    pub rises₁ : (l1 ≺ l2) ≡ true
    pub rises₂ : (l2 ≺ l3) ≡ true
    pub nonneg₁ : (l1 ≺ zero_f) ≡ false
    pub nonneg₂ : (l2 ≺ zero_f) ≡ false
    pub nonneg₃ : (l3 ≺ zero_f) ≡ false
    pub finite₁ : f.is_finite l1 ≡ true
    pub finite₂ : f.is_finite l2 ≡ true
    pub finite₃ : f.is_finite l3 ≡ true

  caps-AreCaps : (caps : List ℤ) → validate_caps caps ≡ ok tt → AreCaps caps
  unfolding validate_caps
  caps-AreCaps (a ∷ b ∷ c ∷ []) h = record {
    l1 = a;
    l2 = b;
    l3 = c;
    shape = refl;
    falls₁ = ground arith;
    falls₂ = ground arith;
    floor = ground arith;
  }
  caps-AreCaps (a ∷ b ∷ c ∷ d ∷ rest) h = absurd (ground arith)
  caps-AreCaps (a ∷ b ∷ []) h = absurd (ground arith)
  caps-AreCaps (a ∷ []) h = absurd (ground arith)
  caps-AreCaps [] h = absurd (ground arith)

  AreCaps-caps : {caps : List ℤ} → AreCaps caps → validate_caps caps ≡ ok tt
  unfolding validate_caps
  AreCaps-caps v = rw v.shape (ground arith)

  thresholds-AreThresholds :
      (a b c : String) (ts : List f.F) → validate_thresholds a b c ts ≡ ok tt → AreThresholds ts
  unfolding validate_thresholds
  thresholds-AreThresholds _ _ _ (a ∷ b ∷ c ∷ []) h = record {
    l1 = a;
    l2 = b;
    l3 = c;
    shape = refl;
    rises₁ = ground arith;
    rises₂ = ground arith;
    nonneg₁ = ground arith;
    nonneg₂ = ground arith;
    nonneg₃ = ground arith;
    finite₁ = ground arith;
    finite₂ = ground arith;
    finite₃ = ground arith;
  }
  thresholds-AreThresholds _ _ _ (a ∷ b ∷ c ∷ d ∷ rest) h = absurd (ground arith)
  thresholds-AreThresholds _ _ _ (a ∷ b ∷ []) h = absurd (ground arith)
  thresholds-AreThresholds _ _ _ (a ∷ []) h = absurd (ground arith)
  thresholds-AreThresholds _ _ _ [] h = absurd (ground arith)

  AreThresholds-thresholds :
      (a b c : String) (ts : List f.F) → AreThresholds ts → validate_thresholds a b c ts ≡ ok tt
  unfolding validate_thresholds
  AreThresholds-thresholds _ _ _ ts t = rw t.shape (ground arith)

  -- Level by level, relaxing wants less pressure than tightening.
  abbrev pub IsHysteresis : {r t : List f.F} → AreThresholds r → AreThresholds t → Type 0
  IsHysteresis r t = ((r.l1 ≺ t.l1) ≡ true) × ((r.l2 ≺ t.l2) ≡ true) × ((r.l3 ≺ t.l3) ≡ true)

  pub record IsContract (c : AdmissionControlConfig) : Type 0 where
    pub caps : AreCaps c.adaptive_clip_caps
    pub tighten : AreThresholds c.adaptive_clip_tighten_thresholds
    pub relax : AreThresholds c.adaptive_clip_relax_thresholds
    pub hysteresis : IsHysteresis relax tighten
    pub on_top : c.adaptive_clip_enabled ≡ true → c.clip_enabled ≡ true
    pub capacity :
        c.adaptive_clip_enabled ≡ true
        → c.adaptive_clip_signal ≡ rho_hat
        → c.adaptive_clip_capacity_rps ≢ none

  levels-facts :
      (c : AdmissionControlConfig) (r₁ r₂ r₃ t₁ t₂ t₃ : f.F)
      → c.adaptive_clip_relax_thresholds ≡ r₁ ∷ r₂ ∷ r₃ ∷ []
      → c.adaptive_clip_tighten_thresholds ≡ t₁ ∷ t₂ ∷ t₃ ∷ []
      → validate_levels c ≡ ok tt
      → ((r₁ ≺ t₁) ≡ true)
        × ((r₂ ≺ t₂) ≡ true)
        × ((r₃ ≺ t₃) ≡ true)
        × (c.adaptive_clip_enabled ≡ true → c.clip_enabled ≡ true)
        × (c.adaptive_clip_enabled ≡ true
            → c.adaptive_clip_signal ≡ rho_hat
            → c.adaptive_clip_capacity_rps ≢ none)
  unfolding validate_levels
  levels-facts c r₁ r₂ r₃ t₁ t₂ t₃ p q h = ground arith

  levels-pass : (c : AdmissionControlConfig) → IsContract c → validate_levels c ≡ ok tt
  unfolding validate_levels
  levels-pass c v = rw (v.relax.shape, v.tighten.shape) (ground arith)

  validated-IsContract :
      (c : AdmissionControlConfig) → validate_adaptive_clip_contract c ≡ ok tt → IsContract c
  unfolding validate_adaptive_clip_contract
  validated-IsContract c h =
      let (h₁, k₁) = >>-eq-ok (validate_caps c.adaptive_clip_caps) _ h in
      let (h₂, k₂) = >>-eq-ok (validate_thresholds _ _ _ c.adaptive_clip_tighten_thresholds) _ k₁ in
      let (h₃, k₃) = >>-eq-ok (validate_thresholds _ _ _ c.adaptive_clip_relax_thresholds) _ k₂ in
      let t = thresholds-AreThresholds _ _ _ _ h₂ in
      let r = thresholds-AreThresholds _ _ _ _ h₃ in
      let (x, y, z, top, capacity) = levels-facts c _ _ _ _ _ _ r.shape t.shape k₃ in
      record {
        caps = caps-AreCaps _ h₁;
        tighten = t;
        relax = r;
        hysteresis = (x, y, z);
        on_top = top;
        capacity = capacity;
      }

  -- The validator accepts a configuration exactly when it has three falling caps of at least 512
  -- tokens, three rising finite thresholds for each direction, every relax threshold below its
  -- tighten threshold, clipping switched on under adaptive clipping, and a capacity for rho_hat.
  pub validate_adaptive_clip_contract_iff :
      (c : AdmissionControlConfig) → (validate_adaptive_clip_contract c ≡ ok tt) ↔ IsContract c
  unfolding validate_adaptive_clip_contract
  validate_adaptive_clip_contract_iff c = (
    validated-IsContract c,
    λ v.
        rw
          (
            AreCaps-caps v.caps,
            AreThresholds-thresholds _ _ _ _ v.tighten,
            AreThresholds-thresholds _ _ _ _ v.relax,
          )
          (levels-pass c v),
  )
