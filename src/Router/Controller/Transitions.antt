-- ===== src/Router/Controller/Transitions.antt =====
-- When the level moves, how far, and why.
use sloserve.Prelude.{
  not, >>-eq-ok, raise_if, ℤ, suc, ◌-◌, ◌<◌, Bool, true, some, List, [], ◌∷◌, get_elem?, ok,
  >>=-eq-ok, ◌≡◌, ◌≢◌, refl, sym, ap, ◌∙◌, arith, All, ◌⊎◌, inl, inr, Option-cases,
}
use sloserve.Float.{Float, ◌≺◌, ◌≼◌, ◌⊖◌}
use sloserve.Router.Controller.{
  AdaptiveClipController, AdaptiveClipDecision, AdaptiveClipTrigger, AdaptiveClipLevel,
  tighten_hold_elapsed, relax_hold_elapsed, int, of_value, bisect_right, Scan, scan, settle, relax,
  hold_trigger, update_level, update, observe, selected_cap, pressure, max_level, or_now, decision,
}
use sloserve.Router.Controller.Holds.{HasElapsed, scan-HasElapsed, max_level-All}

module _ ⦃f : Float⦄ where
  -- Below its relax threshold for the relax hold, the controller steps down by one level.
  abbrev pub Relaxes :
      f.F → AdaptiveClipController → AdaptiveClipLevel → AdaptiveClipTrigger → Type 0
  Relaxes now c new g =
      (suc (int new) ≡ int c.level)
      × (g ≡ relax_hold_elapsed)
      × ((t : f.F) × (get_elem? c.relax_thresholds (int c.level - 1) ≡ some t)
          × ((pressure c ≺ t) ≡ true)
          × ((c.relax_hold_s ≼ now ⊖ or_now c.relax_since_s now) ≡ true))

  -- A level whose tighten threshold is reached, and has been for the tighten hold.
  abbrev pub Tightens :
      f.F → AdaptiveClipController → AdaptiveClipLevel → AdaptiveClipTrigger → Type 0
  Tightens now c new g =
      (g ≡ tighten_hold_elapsed)
      × HasElapsed now (pressure c) c.tighten_hold_s c.level 1 c.tighten_thresholds
          c.tighten_since_s new

  abbrev pub Stays : AdaptiveClipController → AdaptiveClipLevel → AdaptiveClipTrigger → Type 0
  Stays c new g = (new ≡ c.level) × (g ≢ tighten_hold_elapsed) × (g ≢ relax_hold_elapsed)

  relax-at :
      (now : f.F) (c d : AdaptiveClipController) (reset : Bool) (g : AdaptiveClipTrigger) (t : f.F)
      → get_elem? c.relax_thresholds (int c.level - 1) ≡ some t
      → 0 < int c.level
      → relax now c reset ≡ ok (g, d)
      → Stays c d.level g
        ⊎ (suc (int d.level) ≡ int c.level)
          × (g ≡ relax_hold_elapsed)
          × ((pressure c ≺ t) ≡ true)
          × ((c.relax_hold_s ≼ now ⊖ or_now c.relax_since_s now) ≡ true)
  unfolding relax
  relax-at now c d reset g t e n h = ground arith

  relax-cases :
      (now : f.F) (c d : AdaptiveClipController) (reset : Bool) (g : AdaptiveClipTrigger)
      → 0 < int c.level
      → relax now c reset ≡ ok (g, d)
      → Stays c d.level g ⊎ Relaxes now c d.level g
  relax-cases now c d reset g n h =
      elim (Option-cases (get_elem? c.relax_thresholds (int c.level - 1))) [
        | inl e ↦ absurd (unfold relax in ground arith)
        | inr (t, e) ↦ elim (relax-at now c d reset g t e n h) [
          | inl same ↦ inl same
          | inr (down, why, low, held) ↦ inr (down, why, (t, e, low, held))
        ]
      ]

  settle-quiet :
      (now : f.F) (target : AdaptiveClipLevel) (c d : AdaptiveClipController) (s : Scan)
      (g : AdaptiveClipTrigger)
      → s.elapsed ≡ []
      → settle now target c s ≡ ok (g, d)
      → Stays c d.level g ⊎ (0 < int c.level) × (relax now c s.reset ≡ ok (g, d))
  unfolding settle hold_trigger
  settle-quiet now target c d s g e h = ground arith

  settle-cases :
      (now : f.F) (target : AdaptiveClipLevel) (c d : AdaptiveClipController) (s : Scan)
      (es : List AdaptiveClipLevel) (g : AdaptiveClipTrigger) (P : AdaptiveClipLevel → Type 0)
      → s.elapsed ≡ es
      → All P es
      → settle now target c s ≡ ok (g, d)
      → Stays c d.level g ⊎ ((g ≡ tighten_hold_elapsed) × P d.level) ⊎ Relaxes now c d.level g
  unfolding settle hold_trigger
  settle-cases now target c d s (l ∷ ls) g P e ps h =
      let level : max_level l ls ≡ d.level = ground arith in
      inr (inl (ground arith, rw level at (max_level-All P l ls ps.0 ps.1)))
  settle-cases now target c d s [] g P e ps h = elim (settle-quiet now target c d s g e h) [
    | inl same ↦ inl same
    | inr (up, r) ↦ elim (relax-cases now c d s.reset g up r) [
      | inl same ↦ inl same
      | inr down ↦ inr (inr down)
    ]
  ]

  update_level-cases :
      (now : f.F) (c d : AdaptiveClipController) (g : AdaptiveClipTrigger)
      → update_level now c ≡ ok (g, d)
      → Stays c d.level g ⊎ Tightens now c d.level g ⊎ Relaxes now c d.level g
  unfolding update_level pressure
  update_level-cases now c d g h =
      let p = pressure c in
      let (_, h) = >>-eq-ok (raise_if (not (f.fits c.q_inst)) _) _ h in
      let (target, _, h₁) = >>=-eq-ok (of_value (bisect_right c.tighten_thresholds p)) _ h in
      let (s, e, h₂) =
        >>=-eq-ok (scan now p c.tighten_hold_s c.level 1 c.tighten_thresholds c.tighten_since_s) _
          h₁ in
      settle-cases now target (record c { tighten_since_s = s.since }) d s s.elapsed g
        (HasElapsed now p c.tighten_hold_s c.level 1 c.tighten_thresholds c.tighten_since_s) refl
        (scan-HasElapsed now p c.tighten_hold_s c.level 1 c.tighten_thresholds c.tighten_since_s s
          e)
        h₂

  -- `observe` leaves the level alone.
  observe-level :
      (now : f.F) (q : ℤ) (c d : AdaptiveClipController)
      → observe now q c ≡ ok d
      → d.level ≡ c.level
  unfolding observe
  observe-level now q c d h = ground arith

  -- A successful update first takes in the reading. Then the level stays, under a trigger that is no
  -- elapsed hold; or it rises to a level whose threshold the pressure reaches and whose hold has
  -- elapsed; or it falls by exactly one level, from a pressure below the relax threshold and after
  -- the relax hold. The decision reports the levels before and after, and the cap of the new one.
  pub update_transition :
      (now : f.F) (q : ℤ) (c c' : AdaptiveClipController) (d : AdaptiveClipDecision)
      → update now q c ≡ ok (d, c')
      → (c₁ : AdaptiveClipController) × (observe now q c ≡ ok c₁)
        × (d.old_level ≡ c.level)
        × (d.new_level ≡ c'.level)
        × (selected_cap c' ≡ ok d.selected_cap)
        × (Stays c₁ d.new_level d.trigger_reason
            ⊎ Tightens now c₁ d.new_level d.trigger_reason
            ⊎ Relaxes now c₁ d.new_level d.trigger_reason)
  unfolding update
  update_transition now q c c' d h =
      let (c₁, e₁, h₁) = >>=-eq-ok (observe now q c) _ h in
      let ((g, c₂), e₂, h₂) = >>=-eq-ok (update_level now c₁) _ h₁ in
      let (cap, e₃, h₃) = >>=-eq-ok (selected_cap c₂) _ h₂ in
      let same : decision now g c₁.level c₂ cap ≡ d = ground arith in
      let last : c₂ ≡ c' = ground arith in
      (
        c₁,
        e₁,
        sym (ap (λ x. x.old_level) same) ∙ observe-level now q c c₁ e₁,
        sym (ap (λ x. x.new_level) same) ∙ ap (λ x. x.level) last,
        rw (← last, ← same) e₃,
        rw (← same) (update_level-cases now c₁ c₂ g e₂),
      )
