-- ===== src/Router/Controller.antt =====
-- src/sloserve/router/adaptive_clipping.py: the controller that turns the depth of the queue into a
-- level of clipping. The clock's reading is an argument of `update`.
mod State
pub mod Holds
pub mod Totality
pub mod Runs
pub mod Average
pub mod Transitions
unfoldable pub use State.*
use sloserve.Prelude.{
  ℕ, ℤ, pos, zero, suc, ◌+◌, ◌-◌, ltb, leb, ltb_ℤ, Bool, true, false, not, ◌&&◌, ◌||◌, Option, none,
  some, List, [], ◌∷◌, length, get_elem?, Result, ok, err, raise_if, value_error, runtime_error,
  zero_division_error, overflow_error, index_error, ◌>>=◌, ◌>>◌, if◌then◌else◌,
}
use sloserve.Float.{Float, eq, ◌≺◌, ◌≼◌, ◌⊖◌, ◌⊕◌, ◌⊗◌, ◌⊘◌, zero_f, one_f, float, max_f}

-- `max(elapsed_levels)` of a list that starts with `l`.
abbrev pub max_level : AdaptiveClipLevel → List AdaptiveClipLevel → AdaptiveClipLevel
max_level l [] = l
max_level l (m ∷ ms) = max_level (if ltb (int l) (int m) then m else l) ms

-- `for index in range(n): since[index] = None`
abbrev pub clear_first {ℓ} : {A : Type ℓ} → ℕ → List (Option A) → List (Option A)
clear_first zero ss = ss
clear_first (suc n) [] = []
clear_first (suc n) (s ∷ ss) = none ∷ clear_first n ss

module _ ⦃f : Float⦄ where
  abbrev pub or_now : Option f.F → f.F → f.F
  or_now none now = now
  or_now (some s) now = s

  -- What the loop over the thresholds found.
  pub record Scan : Type 0 where
    pub since : List (Option f.F)
    pub started : Bool
    pub pending : Bool
    pub reset : Bool
    pub elapsed : List AdaptiveClipLevel

  abbrev pub is_none : Option f.F → Bool
  is_none none = true
  is_none (some s) = false

  module _ (now pressure hold : f.F) (current : AdaptiveClipLevel) where
    -- One round of the loop, with what the later rounds found.
    unfoldable pub visit : AdaptiveClipLevel → f.F → Option f.F → Scan → Scan
    visit level threshold since rest =
        if leb (int level) (int current)
        then record rest { since = none ∷ rest.since }
        else if threshold ≼ pressure
        then record {
          since = some (or_now since now) ∷ rest.since;
          started = is_none since || rest.started;
          pending = not (is_none since) || rest.pending;
          reset = rest.reset;
          elapsed = if hold ≼ now ⊖ or_now since now then level ∷ rest.elapsed else rest.elapsed;
        }
        else record rest { since = none ∷ rest.since; reset = not (is_none since) || rest.reset }

    -- `for level_value, threshold in enumerate(thresholds, start=n)`. The rounds set flags and
    -- append to `elapsed`, so they are put together from the last.
    unfoldable pub scan : ℕ → List f.F → List (Option f.F) → Result Scan
    unfolding visit
    scan n [] since =
        ok (record { since = since; started = false; pending = false; reset = false; elapsed = [] })
    scan n (t ∷ ts) [] = err (index_error "list index out of range")
    scan n (t ∷ ts) (s ∷ ss) =
        let later = scan (n + 1) ts ss in
        do level ← of_value n; rest ← later; ok (visit level t s rest)

  unfoldable pub relax :
      f.F → AdaptiveClipController → Bool → Result (AdaptiveClipTrigger × AdaptiveClipController)
  relax now c tighten_reset = elim (get_elem? c.relax_thresholds (int c.level - 1)) [
    | none ↦ err (index_error "tuple index out of range")
    | some threshold ↦
        if threshold ≼ pressure c
        then if is_none c.relax_since_s
          then ok ((if tighten_reset then tighten_hold_reset else no_change), c)
          else ok (relax_hold_reset, record c { relax_since_s = none })
        else let since = or_now c.relax_since_s now in
          if c.relax_hold_s ≼ now ⊖ since
          then ok (relax_hold_elapsed, record c { level = lower c.level; relax_since_s = none })
          else ok (
            (if is_none c.relax_since_s then relax_hold_started else relax_hold_pending),
            record c { relax_since_s = some since },
          )
  ]

  -- The trigger while a tighter level is wanted and no hold has elapsed.
  unfoldable pub hold_trigger : Scan → Result AdaptiveClipTrigger
  hold_trigger s =
      if s.reset
      then ok tighten_hold_reset
      else if s.started
      then ok tighten_hold_started
      else if s.pending
      then ok tighten_hold_pending
      else err (runtime_error "tighten target has no hold state")

  -- The part of `_update_level` below the loop.
  unfoldable pub settle :
      f.F
      → AdaptiveClipLevel
      → AdaptiveClipController
      → Scan
      → Result (AdaptiveClipTrigger × AdaptiveClipController)
  unfolding relax hold_trigger
  settle now target c s = elim s.elapsed [
    | l ∷ ls ↦
        let level = max_level l ls in
        ok (
          tighten_hold_elapsed,
          record c {
            level = level;
            tighten_since_s = clear_first (int level) c.tighten_since_s;
            relax_since_s = none;
          },
        )
    | [] ↦
        if ltb (int c.level) (int target)
        then (do trigger ← hold_trigger s; ok (trigger, record c { relax_since_s = none }))
        else if leb (int c.level) 0
        then ok
            ((if s.reset then tighten_hold_reset else no_change), record c { relax_since_s = none })
        else relax now c s.reset
  ]

  -- `_update_level`. Reading the pressure converts the depth to a float.
  unfoldable pub update_level :
      f.F → AdaptiveClipController → Result (AdaptiveClipTrigger × AdaptiveClipController)
  update_level now c = do
    raise_if (not (f.fits c.q_inst)) (overflow_error "int too large to convert to float")
    target ← of_value (bisect_right c.tighten_thresholds (pressure c))
    s ← scan now (pressure c) c.tighten_hold_s c.level 1 c.tighten_thresholds c.tighten_since_s
    settle now target (record c { tighten_since_s = s.since }) s

  -- The exponentially weighted average over the elapsed time, of the depth of the last reading. That
  -- depth is zero or was held by a float at the last update.
  abbrev integrate : Option f.F → f.F → AdaptiveClipController → Result f.F
  integrate none now c = ok c.q_bar
  integrate (some last) now c = do
    let delta_t = now ⊖ last
    raise_if (delta_t ≺ zero_f) (value_error "clock must be monotonic")
    raise_if (eq c.tau_s zero_f) (zero_division_error "float division by zero")
    let decay = f.exp (f.neg delta_t ⊘ c.tau_s)
    ok (decay ⊗ c.q_bar ⊕ (one_f ⊖ decay) ⊗ float c.q_inst)

  -- The statements of `update` before `_update_level`.
  unfoldable pub observe : f.F → ℤ → AdaptiveClipController → Result AdaptiveClipController
  observe now q_inst c = do
    raise_if (ltb_ℤ q_inst (pos 0)) (value_error "q_inst must be a non-negative integer")
    raise_if (not (f.is_finite now)) (value_error "clock must return a finite timestamp")
    q_bar ← integrate c.last_update_s now c
    ok (record c { q_bar = q_bar; last_update_s = some now; q_inst = q_inst })

  abbrev pub decision :
      f.F
      → AdaptiveClipTrigger
      → AdaptiveClipLevel
      → AdaptiveClipController
      → Option ℤ
      → AdaptiveClipDecision
  decision now trigger old c cap = record {
    decision_time_s = now;
    q_inst = c.q_inst;
    q_bar = c.q_bar;
    old_level = old;
    new_level = c.level;
    selected_cap = cap;
    trigger_reason = trigger;
  }

  unfoldable pub update :
      f.F → ℤ → AdaptiveClipController → Result (AdaptiveClipDecision × AdaptiveClipController)
  update now q_inst c = do
    c₁ ← observe now q_inst c
    (trigger, c₂) ← update_level now c₁
    cap ← selected_cap c₂
    ok (decision now trigger c₁.level c₂ cap, c₂)
