-- ===== src/Metrics/AdaptiveCap.antt =====
-- src/sloserve/metrics/adaptive_cap.py: the decisions of the controller as facts of a repetition.
-- Writing them to a file is not modelled.
use text.Mathlib.Text.{◌==◌ as str_eq}
use sloserve.Prelude.{ℤ, pos, ltb_ℤ, String, Option, Result, ok, raise_if, value_error, ◌>>◌}
use sloserve.Float.{Float}
use sloserve.Router.Controller.{AdaptiveClipLevel, AdaptiveClipTrigger}
use sloserve.Router.Admission.{AdaptiveAdmissionDecision}

module _ ⦃f : Float⦄ where
  pub record AdaptiveCapDecisionRecord : Type 0 where
    pub request_id : String
    pub repetition_index : ℤ
    pub decision_time_s : f.F
    pub q_inst : ℤ
    pub q_bar : f.F
    pub old_level : AdaptiveClipLevel
    pub new_level : AdaptiveClipLevel
    pub selected_cap : Option ℤ
    pub trigger_reason : AdaptiveClipTrigger

  -- The constructor with `__post_init__`.
  unfoldable pub build_decision_record :
      AdaptiveCapDecisionRecord → Result AdaptiveCapDecisionRecord
  build_decision_record r = do
    raise_if (str_eq r.request_id "") (value_error "adaptive-cap request_id must not be empty")
    raise_if (ltb_ℤ r.repetition_index (pos 0))
        (value_error "adaptive-cap repetition_index must be non-negative")
    ok r

  unfoldable pub from_admission : AdaptiveAdmissionDecision → ℤ → Result AdaptiveCapDecisionRecord
  unfolding build_decision_record
  from_admission a repetition_index = build_decision_record (record {
    request_id = a.request_id;
    repetition_index = repetition_index;
    decision_time_s = a.decision.decision_time_s;
    q_inst = a.decision.q_inst;
    q_bar = a.decision.q_bar;
    old_level = a.decision.old_level;
    new_level = a.decision.new_level;
    selected_cap = a.decision.selected_cap;
    trigger_reason = a.decision.trigger_reason;
  })
