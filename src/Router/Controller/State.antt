-- ===== src/Router/Controller/State.antt =====
-- The levels, the triggers, the decision and the fields of the controller.
use sloserve.Prelude.{
  ℕ, ℤ, pos, zero, suc, ◌+◌, ◌-◌, Bool, not, Option, none, some, List, [], ◌∷◌, map, get_elem?,
  Result, ok, err, raise_if, value_error, index_error, ◌>>=◌, ◌>>◌, if◌then◌else◌,
}
use sloserve.Float.{Float, ◌≺◌, zero_f, float, max_f}
use sloserve.Config.{AdaptiveClipSignal, queue_depth_ewma}
use sloserve.Config.Admission.{AdmissionControlConfig}

pub data AdaptiveClipLevel : Type 0 where
  level_0 level_1 level_2 level_3 : AdaptiveClipLevel

-- `int(level)` and `AdaptiveClipLevel(n)`.
abbrev pub int : AdaptiveClipLevel → ℕ
int level_0 = 0
int level_1 = 1
int level_2 = 2
int level_3 = 3

abbrev pub of_value : ℕ → Result AdaptiveClipLevel
of_value zero = ok level_0
of_value (suc zero) = ok level_1
of_value (suc (suc zero)) = ok level_2
of_value (suc (suc (suc zero))) = ok level_3
of_value (suc (suc (suc (suc n)))) = err (value_error "not a valid AdaptiveClipLevel")

-- `AdaptiveClipLevel(int(level) - 1)` of a level above the lowest.
abbrev pub lower : AdaptiveClipLevel → AdaptiveClipLevel
lower level_0 = level_0
lower level_1 = level_0
lower level_2 = level_1
lower level_3 = level_2

pub data AdaptiveClipTrigger : Type 0 where
  no_change : AdaptiveClipTrigger
  tighten_hold_started tighten_hold_pending tighten_hold_reset tighten_hold_elapsed :
      AdaptiveClipTrigger
  relax_hold_started relax_hold_pending relax_hold_reset relax_hold_elapsed : AdaptiveClipTrigger

abbrev is_queue_depth : AdaptiveClipSignal → Bool
is_queue_depth queue_depth_ewma = sloserve.Prelude.true
is_queue_depth _ = sloserve.Prelude.false

module _ ⦃f : Float⦄ where
  pub record AdaptiveClipDecision : Type 0 where
    pub decision_time_s : f.F
    pub q_inst : ℤ
    pub q_bar : f.F
    pub old_level : AdaptiveClipLevel
    pub new_level : AdaptiveClipLevel
    pub selected_cap : Option ℤ
    pub trigger_reason : AdaptiveClipTrigger

  pub record AdaptiveClipController : Type 0 where
    pub caps : List ℤ
    pub tighten_thresholds : List f.F
    pub relax_thresholds : List f.F
    pub tau_s : f.F
    pub tighten_hold_s : f.F
    pub relax_hold_s : f.F
    pub level : AdaptiveClipLevel
    pub q_inst : ℤ
    pub q_bar : f.F
    pub last_update_s : Option f.F
    pub tighten_since_s : List (Option f.F)
    pub relax_since_s : Option f.F

  -- `__init__`
  unfoldable pub build_controller : AdmissionControlConfig → Result AdaptiveClipController
  build_controller c = do
    raise_if (not c.adaptive_clip_enabled)
        (value_error "adaptive clip controller requires adaptive_clip_enabled=true")
    raise_if (not (is_queue_depth c.adaptive_clip_signal))
        (value_error "queue-depth controller requires adaptive_clip_signal=queue_depth_ewma")
    ok (record {
      caps = c.adaptive_clip_caps;
      tighten_thresholds = c.adaptive_clip_tighten_thresholds;
      relax_thresholds = c.adaptive_clip_relax_thresholds;
      tau_s = c.adaptive_clip_ewma_tau_s;
      tighten_hold_s = c.adaptive_clip_tighten_hold_s;
      relax_hold_s = c.adaptive_clip_relax_hold_s;
      level = level_0;
      q_inst = pos 0;
      q_bar = zero_f;
      last_update_s = none;
      tighten_since_s = map (λ t. none) c.adaptive_clip_tighten_thresholds;
      relax_since_s = none;
    })

  -- `build_adaptive_clip_controller`
  unfoldable pub build_adaptive_clip_controller :
      AdmissionControlConfig → Result (Option AdaptiveClipController)
  build_adaptive_clip_controller c =
      if not c.adaptive_clip_enabled then ok none else do k ← build_controller c; ok (some k)

  -- `pressure`, of a depth that a float can hold: `_update_level`, which reads it first, raises on
  -- any other.
  unfoldable pub pressure : AdaptiveClipController → f.F
  pressure c = max_f (float c.q_inst) c.q_bar

  abbrev or_index_error : Option ℤ → Result (Option ℤ)
  or_index_error none = err (index_error "tuple index out of range")
  or_index_error (some cap) = ok (some cap)

  abbrev cap_at : AdaptiveClipLevel → List ℤ → Result (Option ℤ)
  cap_at level_0 caps = ok none
  cap_at level caps = or_index_error (get_elem? caps (int level - 1))

  unfoldable pub selected_cap : AdaptiveClipController → Result (Option ℤ)
  selected_cap c = cap_at c.level c.caps

  -- `bisect.bisect_right`, whose list is sorted: the number of items that are not above `x`.
  unfoldable pub bisect_right : List f.F → f.F → ℕ
  bisect_right [] x = 0
  bisect_right (t ∷ ts) x = let rest = bisect_right ts x in if x ≺ t then 0 else suc rest
