-- ===== src/Router/Controller/Totality.antt =====
-- About the exceptions of the controller of router/adaptive_clipping.py.
use sloserve.Prelude.{
  ℕ, zero, suc, ◌-◌, ◌≤◌, ◌<◌, Bool, true, ◌||◌, Option, none, List, [], ◌∷◌, length, get_elem?, ok,
  is_ok, is_ok-inv, ◌≡◌, ◌≢◌, refl, ap, arith,
}
use sloserve.Float.{Float, ◌≺◌, zero_f}
use sloserve.Router.Controller.{
  AdaptiveClipController, AdaptiveClipLevel, AdaptiveClipTrigger, level_0, level_1, level_2,
  level_3, int, of_value, bisect_right, Scan, scan, settle, relax, update_level, hold_trigger,
  selected_cap, pressure, max_level, clear_first,
}
use sloserve.Router.Controller.Holds.{scan_total, scan-held, of_value_total, int-of_value}

module _ ⦃f : Float⦄ where
  -- The lists that the levels index have three places, the time constant is positive, and no hold to
  -- relax runs at level 0.
  pub record IsSteady (c : AdaptiveClipController) : Type 0 where
    pub caps : length c.caps ≡ 3
    pub tighten : length c.tighten_thresholds ≡ 3
    pub relax : length c.relax_thresholds ≡ 3
    pub since : length c.tighten_since_s ≡ 3
    pub tau : (zero_f ≺ c.tau_s) ≡ true
    pub idle : c.level ≡ level_0 → c.relax_since_s ≡ none

  length-clear_first : (n : ℕ) (ss : List (Option f.F)) → length (clear_first n ss) ≡ length ss
  length-clear_first zero ss = refl
  length-clear_first (suc n) [] = refl
  length-clear_first (suc n) (s ∷ ss) = ap suc (length-clear_first n ss)

  bisect_right-le : (ts : List f.F) (x : f.F) → bisect_right ts x ≤ length ts
  unfolding bisect_right
  bisect_right-le [] x = omega arith
  bisect_right-le (t ∷ ts) x = ground (arith, bisect_right-le ts x)

  get_elem?_three :
      {A : Type 0} (xs : List A) (i : ℕ) → length xs ≡ 3 → i < 3 → get_elem? xs i ≢ none
  get_elem?_three (a ∷ b ∷ c ∷ []) zero e h = λ k. cc
  get_elem?_three (a ∷ b ∷ c ∷ []) (suc zero) e h = λ k. cc
  get_elem?_three (a ∷ b ∷ c ∷ []) (suc (suc zero)) e h = λ k. cc
  get_elem?_three (a ∷ b ∷ c ∷ []) (suc (suc (suc i))) e h = absurd (omega arith)
  get_elem?_three (a ∷ b ∷ c ∷ d ∷ rest) i e h = absurd (omega arith)
  get_elem?_three (a ∷ b ∷ []) i e h = absurd (omega arith)
  get_elem?_three (a ∷ []) i e h = absurd (omega arith)
  get_elem?_three [] i e h = absurd (omega arith)

  int-lt : (l : AdaptiveClipLevel) → int l - 1 < 3
  int-lt level_0 = omega arith
  int-lt level_1 = omega arith
  int-lt level_2 = omega arith
  int-lt level_3 = omega arith

  relax_total :
      (now : f.F) (c : AdaptiveClipController) (reset : Bool)
      → length c.relax_thresholds ≡ 3
      → is_ok (relax now c reset) ≡ true
  unfolding relax
  relax_total now c reset e =
      ground (arith, get_elem?_three c.relax_thresholds (int c.level - 1) e (int-lt c.level))

  pub selected_cap_total :
      (c : AdaptiveClipController) → length c.caps ≡ 3 → is_ok (selected_cap c) ≡ true
  unfolding selected_cap
  selected_cap_total c e =
      ground (arith, get_elem?_three c.caps (int c.level - 1) e (int-lt c.level))

  settle_total :
      (now : f.F) (target : AdaptiveClipLevel) (c : AdaptiveClipController) (s : Scan)
      → length c.relax_thresholds ≡ 3
      → (int c.level < int target → (s.started || s.pending) ≡ true)
      → is_ok (settle now target c s) ≡ true
  unfolding settle hold_trigger
  settle_total now target c s e h = ground (arith, relax_total now c s.reset e)

  pub update_level_total :
      (now : f.F) (c : AdaptiveClipController)
      → IsSteady c
      → f.fits c.q_inst ≡ true
      → is_ok (update_level now c) ≡ true
  unfolding update_level
  update_level_total now c v fits =
      let p = pressure c in
      let small = bisect_right-le c.tighten_thresholds p in
      let t = v.tighten in
      let (target, e) =
        is_ok-inv (of_value (bisect_right c.tighten_thresholds p))
          (of_value_total _ (omega arith)) in
      let (s, e') =
        is_ok-inv (scan now p c.tighten_hold_s c.level 1 c.tighten_thresholds c.tighten_since_s) (
          scan_total now p c.tighten_hold_s c.level 1 c.tighten_thresholds c.tighten_since_s
            (omega arith) (omega (arith, v.since))) in
      let held = λ (h : int c.level < int target).
        scan-held now p c.tighten_hold_s c.level 1 c.tighten_thresholds c.tighten_since_s s e'
          (omega (arith, int-of_value _ target e)) (omega (arith, int-of_value _ target e)) in
      let done = settle_total now target (record c { tighten_since_s = s.since }) s v.relax held in
      ground (arith, done, e, e')

  -- What a step below the loop leaves as it was.
  abbrev pub KeepsShape : AdaptiveClipController → AdaptiveClipController → Type 0
  KeepsShape c d =
      (d.caps ≡ c.caps)
      × (d.tighten_thresholds ≡ c.tighten_thresholds)
      × (d.relax_thresholds ≡ c.relax_thresholds)
      × (length d.tighten_since_s ≡ length c.tighten_since_s)
      × (d.last_update_s ≡ c.last_update_s)
      × (d.tau_s ≡ c.tau_s)
      × (d.level ≡ level_0 → d.relax_since_s ≡ none)

  relax-KeepsShape :
      (now : f.F) (c d : AdaptiveClipController) (reset : Bool) (g : AdaptiveClipTrigger)
      → c.level ≢ level_0
      → relax now c reset ≡ ok (g, d)
      → KeepsShape c d
  unfolding relax
  relax-KeepsShape now c d reset g n h = ground arith

  pub settle-KeepsShape :
      (now : f.F) (target : AdaptiveClipLevel) (c d : AdaptiveClipController) (s : Scan)
      (es : List AdaptiveClipLevel) (g : AdaptiveClipTrigger)
      → s.elapsed ≡ es
      → settle now target c s ≡ ok (g, d)
      → KeepsShape c d
  unfolding settle hold_trigger
  settle-KeepsShape now target c d s (l ∷ ls) g e h =
      ground (arith, length-clear_first (int (max_level l ls)) c.tighten_since_s)
  settle-KeepsShape now target c d s [] g e h = ground (arith, relax-KeepsShape now c d s.reset g)
