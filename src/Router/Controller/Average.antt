-- ===== src/Router/Controller/Average.antt =====
-- The weighted average of the queue's depth.
use sloserve.Prelude.{ℤ, pos, negsuc, ◌≤ℤ◌, Option, none, some, ok, ◌≡◌, refl, arith, true, false}
use sloserve.Float.{Float, ◌≺◌, ◌⊖◌, ◌⊘◌, ◌⊗◌, ◌⊕◌, zero_f, one_f, float, IsRounded}
use sloserve.Router.Controller.{AdaptiveClipController, observe, pressure}

module _ ⦃f : Float⦄ (laws : IsRounded) where
  -- A weighting by `exp(-dt / tau)` keeps what is not negative so.
  blend_nonneg :
      (dt tau bar inst : f.F)
      → (dt ≺ zero_f) ≡ false
      → (zero_f ≺ tau) ≡ true
      → (bar ≺ zero_f) ≡ false
      → (inst ≺ zero_f) ≡ false
      → (f.exp (f.neg dt ⊘ tau) ⊗ bar ⊕ (one_f ⊖ f.exp (f.neg dt ⊘ tau)) ⊗ inst ≺ zero_f) ≡ false
  blend_nonneg dt tau bar inst h k b i =
      let decay = f.exp (f.neg dt ⊘ tau) in
      laws.add_nonneg (decay ⊗ bar) ((one_f ⊖ decay) ⊗ inst)
        (laws.mul_nonneg decay bar (laws.exp_nonneg _) b)
        (laws.mul_nonneg (one_f ⊖ decay) inst
          (laws.sub_nonneg decay one_f (laws.exp_le_one _ (laws.neg-div_nonpos dt tau h k))) i)

  float_nonneg_ℤ : (n : ℤ) → pos 0 ≤ℤ n → (float n ≺ zero_f) ≡ false
  float_nonneg_ℤ (pos n) h = laws.float_nonneg n
  float_nonneg_ℤ (negsuc n) h = absurd (omega arith)

  observe_bar :
      (now : f.F) (q : ℤ) (c d : AdaptiveClipController) (last : Option f.F)
      → c.last_update_s ≡ last
      → (zero_f ≺ c.tau_s) ≡ true
      → (c.q_bar ≺ zero_f) ≡ false
      → pos 0 ≤ℤ c.q_inst
      → observe now q c ≡ ok d
      → (d.q_bar ≺ zero_f) ≡ false
  unfolding observe
  observe_bar now q c d none e t b i h = ground arith
  observe_bar now q c d (some last) e t b i h =
      ground (
        arith,
        blend_nonneg (now ⊖ last) c.tau_s c.q_bar (float c.q_inst),
        float_nonneg_ℤ c.q_inst i,
      )

  observe-q_inst :
      (now : f.F) (q : ℤ) (c d : AdaptiveClipController)
      → observe now q c ≡ ok d
      → (d.q_inst ≡ q) × (pos 0 ≤ℤ q)
  unfolding observe
  observe-q_inst now q c d h = ground arith

  -- The average and the pressure are never negative: a successful reading keeps both so, whatever
  -- the rounding of the floats.
  pub observe_nonneg :
      (now : f.F) (q : ℤ) (c d : AdaptiveClipController)
      → (zero_f ≺ c.tau_s) ≡ true
      → (c.q_bar ≺ zero_f) ≡ false
      → pos 0 ≤ℤ c.q_inst
      → observe now q c ≡ ok d
      → ((d.q_bar ≺ zero_f) ≡ false) × (pos 0 ≤ℤ d.q_inst) × ((pressure d ≺ zero_f) ≡ false)
  unfolding pressure
  observe_nonneg now q c d t b i h =
      let bar = observe_bar now q c d c.last_update_s refl t b i h in
      let (e, n) = observe-q_inst now q c d h in
      let inst : pos 0 ≤ℤ d.q_inst = rw e n in
      (bar, inst, ground (arith, float_nonneg_ℤ d.q_inst inst))
