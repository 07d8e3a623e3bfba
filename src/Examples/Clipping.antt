-- ===== src/Examples/Clipping.antt =====
-- Clipping under one configuration: the fixed cap, the cap at dispatch, and the controller.
use sloserve.Config.Admission
use sloserve.Prelude.{
  ℤ, pos, none, some, refl, false, List, [], ◌∷◌, ok, ◌≡◌, ◌≤ℤ◌, ◌⊎◌, arith, ◌-ℤ◌,
}
use sloserve.Float.Integers.{integers, integers-IsRounded}
use sloserve.Float.{◌≺◌, zero_f}
use sloserve.Examples.Data.{chat, clipping, clipper, controller, read_controller, loader}
use sloserve.Config.Admission.{
  validate_adaptive_clip_contract, validate_caps, validate_thresholds, validate_levels,
  learned_clip_source_has_estimator,
}
use sloserve.Router.Models.{RequestEnvelope, construct, post_init}
use sloserve.Router.Models.Validity.{construct-ok_iff, IsValid}
use sloserve.Router.Clipping.{build_clipper, apply, apply_adaptive_cap}
use sloserve.Router.Clipping.Caps.{apply-Clipped, apply_adaptive_cap-Clipped, Clipped}
use sloserve.Router.Controller.{
  AdaptiveClipController, AdaptiveClipDecision, build_controller, observe, update, pressure,
  selected_cap, level_0, tighten_hold_started, update_level, bisect_right, scan, settle,
}
use sloserve.Router.Controller.Runs.{updates, updates_never_raise, AreReadings}
use sloserve.Router.Controller.Transitions.{update_transition, Stays, Tightens, Relaxes}
use sloserve.Router.Controller.Average.{observe_nonneg}

chat-constructs : construct chat ≡ ok chat
unfolding construct post_init
chat-constructs = refl

clipper-builds : build_clipper loader clipping ≡ ok clipper
unfolding build_clipper
clipper-builds = refl

controller-builds : build_controller clipping ≡ ok controller
unfolding build_controller
controller-builds = refl

clipping-validates : Admission.validate clipping ≡ ok tt
unfolding Admission.validate validate_adaptive_clip_contract validate_caps validate_thresholds
    validate_levels learned_clip_source_has_estimator
clipping-validates = refl

apply-Clipped_example :
    (s : RequestEnvelope) × (apply clipper chat ≡ ok s) × IsValid s × Clipped chat (pos 1024) s
apply-Clipped_example =
    apply-Clipped loader clipping clipper chat clipper-builds refl (omega arith)
      ((construct-ok_iff chat).0 chat-constructs)

apply_adaptive_cap-Clipped_example :
    (apply_adaptive_cap clipper chat none ≡ ok chat)
    × ((cap : ℤ)
        → pos 1 ≤ℤ cap
        → (s : RequestEnvelope) × (apply_adaptive_cap clipper chat (some cap) ≡ ok s)
          × IsValid s
          × Clipped chat cap s)
apply_adaptive_cap-Clipped_example =
    apply_adaptive_cap-Clipped loader clipping clipper chat clipper-builds refl refl
      ((construct-ok_iff chat).0 chat-constructs)

abbrev readings : List (ℤ × ℤ)
readings = (pos 1, pos 9) ∷ (pos 5, pos 9) ∷ (pos 6, pos 0) ∷ []

readings-are : AreReadings none readings
unfolding ◌-ℤ◌
readings-are = ground arith

updates_never_raise_example :
    (r : List AdaptiveClipDecision × AdaptiveClipController) × (updates readings controller ≡ ok r)
updates_never_raise_example =
    updates_never_raise clipping controller readings clipping-validates controller-builds
      readings-are

abbrev first_decision : AdaptiveClipDecision
first_decision = record {
  decision_time_s = pos 1;
  q_inst = pos 9;
  q_bar = pos 0;
  old_level = level_0;
  new_level = level_0;
  selected_cap = none;
  trigger_reason = tighten_hold_started;
}

first_update : update (pos 1) (pos 9) controller ≡ ok (first_decision, read_controller)
unfolding update observe update_level bisect_right pressure scan settle ◌-ℤ◌ selected_cap
first_update = refl

update_transition_example :
    (c : AdaptiveClipController) × (observe (pos 1) (pos 9) controller ≡ ok c)
    × (first_decision.old_level ≡ controller.level)
    × (first_decision.new_level ≡ read_controller.level)
    × (selected_cap read_controller ≡ ok first_decision.selected_cap)
    × (Stays c first_decision.new_level first_decision.trigger_reason
        ⊎ Tightens (pos 1) c first_decision.new_level first_decision.trigger_reason
        ⊎ Relaxes (pos 1) c first_decision.new_level first_decision.trigger_reason)
update_transition_example =
    update_transition (pos 1) (pos 9) controller read_controller first_decision first_update

abbrev observed : AdaptiveClipController
observed = record read_controller { tighten_since_s = none ∷ none ∷ none ∷ [] }

first_reading : observe (pos 1) (pos 9) controller ≡ ok observed
unfolding observe
first_reading = refl

observe_nonneg_example :
    ((observed.q_bar ≺ zero_f) ≡ false)
    × (pos 0 ≤ℤ observed.q_inst)
    × ((pressure observed ≺ zero_f) ≡ false)
observe_nonneg_example =
    observe_nonneg integers-IsRounded (pos 1) (pos 9) controller observed refl refl (omega arith)
      first_reading
