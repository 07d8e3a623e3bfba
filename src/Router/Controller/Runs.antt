-- ===== src/Router/Controller/Runs.antt =====
-- Sequences of updates of the controller of router/adaptive_clipping.py.
use sloserve.Prelude.{
  raise_if, sym, subst, not, Bool, >>-eq-ok, raise_if-ok, ℤ, pos, true, false, Option, none, some,
  List, [], ◌∷◌, map, length, Result, ok, ◌>>=◌, >>=-eq-ok, is_ok, is_ok-inv, ◌≡◌, refl, ap, ◌∙◌,
  arith, ◌≤ℤ◌,
}
use sloserve.Float.{◌⊗◌, ◌⊕◌, ◌⊘◌, one_f, float, Float, ◌≺◌, ◌⊖◌, zero_f}
use sloserve.Config.Admission.{
  AdmissionControlConfig, check_capacity, learned_clip_source_has_estimator,
}
use sloserve.Config.Admission
use sloserve.Config.Admission.Contract.{IsContract, validate_adaptive_clip_contract_iff}
use sloserve.Config.{field_ge, field_positive, field_finite, field_nonneg}
use sloserve.Router.Controller.{
  decision, AdaptiveClipTrigger, AdaptiveClipController, AdaptiveClipDecision, update_level, update,
  observe, selected_cap, build_controller, scan, of_value, bisect_right, pressure,
}
use sloserve.Router.Controller.Holds.{length-scan}
use sloserve.Router.Controller.Totality.{
  IsSteady, update_level_total, selected_cap_total, settle-KeepsShape,
}

positive_of : (b : Bool) → not b ≡ false → b ≡ true
positive_of true h = refl
positive_of false h = sym h

module _ ⦃f : Float⦄ where
  -- The clock is finite and does not run backwards, and the depth is a count that a float can hold.
  abbrev pub IsReading : Option f.F → f.F → ℤ → Type 0
  IsReading none now q = (pos 0 ≤ℤ q) × (f.fits q ≡ true) × (f.is_finite now ≡ true)
  IsReading (some last) now q =
      (pos 0 ≤ℤ q) × (f.fits q ≡ true) × (f.is_finite now ≡ true) × ((now ⊖ last ≺ zero_f) ≡ false)

  abbrev pub AreReadings : Option f.F → List (f.F × ℤ) → Type 0
  AreReadings last [] = Unit
  AreReadings last ((now, q) ∷ rest) = IsReading last now q × AreReadings (some now) rest

  -- The updates of one controller, in order.
  unfoldable pub updates :
      List (f.F × ℤ)
      → AdaptiveClipController
      → Result (List AdaptiveClipDecision × AdaptiveClipController)
  updates [] c = ok ([], c)
  updates ((now, q) ∷ rest) c = do
    (d, c') ← update now q c
    (ds, last) ← updates rest c'
    ok (d ∷ ds, last)

  reading-fits : (last : Option f.F) (now : f.F) (q : ℤ) → IsReading last now q → f.fits q ≡ true
  reading-fits none now q r = r.1
  reading-fits (some last) now q r = r.1

  observe-reading :
      (now : f.F) (q : ℤ) (c : AdaptiveClipController) (last : Option f.F)
      → (zero_f ≺ c.tau_s) ≡ true
      → c.last_update_s ≡ last
      → IsReading last now q
      → (b : f.F) × (observe now q c
          ≡ ok (record c { q_bar = b; last_update_s = some now; q_inst = q }))
  unfolding observe
  observe-reading now q c none t e h = (c.q_bar, ground arith)
  observe-reading now q c (some last) t e h =
      let decay = f.exp (f.neg (now ⊖ last) ⊘ c.tau_s) in
      (decay ⊗ c.q_bar ⊕ (one_f ⊖ decay) ⊗ float c.q_inst, ground arith)

  update_level-IsSteady :
      (now : f.F) (c d : AdaptiveClipController) (g : AdaptiveClipTrigger)
      → IsSteady c
      → update_level now c ≡ ok (g, d)
      → IsSteady d × (d.last_update_s ≡ c.last_update_s)
  unfolding update_level
  update_level-IsSteady now c d g v h =
      let p = pressure c in
      let (_, h) = >>-eq-ok (raise_if (not (f.fits c.q_inst)) _) _ h in
      let (target, _, h₁) = >>=-eq-ok (of_value (bisect_right c.tighten_thresholds p)) _ h in
      let (s, e, h₂) =
        >>=-eq-ok (scan now p c.tighten_hold_s c.level 1 c.tighten_thresholds c.tighten_since_s) _
          h₁ in
      let (caps, tighten, relax, since, last, tau, idle) =
        settle-KeepsShape now target (record c { tighten_since_s = s.since }) d s s.elapsed g refl
          h₂ in
      (
        record {
          caps = ap length caps ∙ v.caps;
          tighten = ap length tighten ∙ v.tighten;
          relax = ap length relax ∙ v.relax;
          since =
              since
              ∙ length-scan now p c.tighten_hold_s c.level 1 c.tighten_thresholds c.tighten_since_s
                  s e
              ∙ v.since;
          tau = subst (λ x. (zero_f ≺ x) ≡ true) (sym tau) v.tau;
          idle = idle;
        },
        last,
      )

  update_steps :
      (now : f.F) (q : ℤ) (c : AdaptiveClipController)
      → IsSteady c
      → IsReading c.last_update_s now q
      → (d : AdaptiveClipDecision) × (c' : AdaptiveClipController) × (update now q c ≡ ok (d, c'))
        × IsSteady c'
        × (c'.last_update_s ≡ some now)
  unfolding update
  update_steps now q c v r =
      let (b, seen) = observe-reading now q c c.last_update_s v.tau refl r in
      let c₁ : AdaptiveClipController = record c {
        q_bar = b;
        last_update_s = some now;
        q_inst = q;
      } in
      let fits = reading-fits c.last_update_s now q r in
      let v₁ : IsSteady c₁ = record {
        caps = v.caps;
        tighten = v.tighten;
        relax = v.relax;
        since = v.since;
        tau = v.tau;
        idle = v.idle;
      } in
      let ((g, c₂), e) = is_ok-inv (update_level now c₁) (update_level_total now c₁ v₁ fits) in
      let (v₂, last) = update_level-IsSteady now c₁ c₂ g v₁ e in
      let (cap, e') = is_ok-inv (selected_cap c₂) (selected_cap_total c₂ v₂.caps) in
      (decision now g c₁.level c₂ cap, c₂, rw (seen, e, e') refl, v₂, last)

  build_controller-fields :
      (a : AdmissionControlConfig) (c : AdaptiveClipController)
      → build_controller a ≡ ok c
      → (c.caps ≡ a.adaptive_clip_caps)
        × (c.tighten_thresholds ≡ a.adaptive_clip_tighten_thresholds)
        × (c.relax_thresholds ≡ a.adaptive_clip_relax_thresholds)
        × (c.tighten_since_s ≡ map (λ _. none) a.adaptive_clip_tighten_thresholds)
        × (c.relax_since_s ≡ none)
        × (c.last_update_s ≡ none)
        × (c.tau_s ≡ a.adaptive_clip_ewma_tau_s)
  unfolding build_controller
  build_controller-fields a c h = ground arith

  -- What validation promises the controller: the contract, and a positive time constant.
  validate-IsContract :
      (a : AdmissionControlConfig)
      → Admission.validate a ≡ ok tt
      → IsContract a × ((zero_f ≺ a.adaptive_clip_ewma_tau_s) ≡ true)
  unfolding Admission.validate
  validate-IsContract a h =
      let (_, h) = >>-eq-ok (field_ge "clip_max_tokens" (pos 1) a.clip_max_tokens) _ h in
      let (positive, h) =
        >>-eq-ok (field_positive "adaptive_clip_ewma_tau_s" a.adaptive_clip_ewma_tau_s) _ h in
      let (_, h) =
        >>-eq-ok (field_finite "adaptive_clip_ewma_tau_s" a.adaptive_clip_ewma_tau_s) _ h in
      let (_, h) =
        >>-eq-ok (field_nonneg "adaptive_clip_tighten_hold_s" a.adaptive_clip_tighten_hold_s) _ h in
      let (_, h) =
        >>-eq-ok (field_finite "adaptive_clip_tighten_hold_s" a.adaptive_clip_tighten_hold_s) _ h in
      let (_, h) =
        >>-eq-ok (field_nonneg "adaptive_clip_relax_hold_s" a.adaptive_clip_relax_hold_s) _ h in
      let (_, h) =
        >>-eq-ok (field_finite "adaptive_clip_relax_hold_s" a.adaptive_clip_relax_hold_s) _ h in
      let (_, h) = >>-eq-ok (check_capacity a.adaptive_clip_capacity_rps) _ h in
      let (_, h) = >>-eq-ok (learned_clip_source_has_estimator a) _ h in
      ((validate_adaptive_clip_contract_iff a).0 h, positive_of _ (raise_if-ok _ _ positive))

  build_controller-IsSteady :
      (a : AdmissionControlConfig) (c : AdaptiveClipController)
      → Admission.validate a ≡ ok tt
      → build_controller a ≡ ok c
      → IsSteady c × (c.last_update_s ≡ none)
  unfolding build_controller
  build_controller-IsSteady a c valid h =
      let (v, positive) = validate-IsContract a valid in
      let (caps, tighten, relax, since, relaxing, last, tau) = build_controller-fields a c h in
      (
        record {
          caps = ap length (caps ∙ v.caps.shape);
          tighten = ap length (tighten ∙ v.tighten.shape);
          relax = ap length (relax ∙ v.relax.shape);
          since = ap length (since ∙ ap (map (λ _. none)) v.tighten.shape);
          tau = subst (λ x. (zero_f ≺ x) ≡ true) (sym tau) positive;
          idle = λ _. relaxing;
        },
        last,
      )

  updates_total :
      (rs : List (f.F × ℤ)) (c : AdaptiveClipController) (last : Option f.F)
      → IsSteady c
      → c.last_update_s ≡ last
      → AreReadings last rs
      → is_ok (updates rs c) ≡ true
  unfolding updates
  updates_total [] c last v e h = refl
  updates_total ((now, q) ∷ rest) c last v e (r, rs) =
      let (d, c', step, v', e') = update_steps now q c v (rw (← e) at r) in
      let done = updates_total rest c' (some now) v' e' rs in rw step (ground (arith, done))

  -- No update of a controller that was built from a validated configuration raises, however long
  -- the run, as long as the clock is finite and monotone and each depth is a count that a float can
  -- hold: the average never divides by zero, and no list is indexed out of range. In
  -- particular the `RuntimeError` "tighten target has no hold state" is unreachable.
  pub updates_never_raise :
      (a : AdmissionControlConfig) (c : AdaptiveClipController) (rs : List (f.F × ℤ))
      → Admission.validate a ≡ ok tt
      → build_controller a ≡ ok c
      → AreReadings none rs
      → (r : List AdaptiveClipDecision × AdaptiveClipController) × (updates rs c ≡ ok r)
  updates_never_raise a c rs v b h =
      let (steady, e) = build_controller-IsSteady a c v b in
      is_ok-inv (updates rs c) (updates_total rs c none steady e h)
