-- ===== src/Examples/Gates.antt =====
-- Two switches of the level, over integers: it tightens at 10 s and relaxes at 40 s.
use sloserve.Prelude.{pos, none, some, [], ◌∷◌, ◌≤ℤ◌, ◌↔◌, ◌≡◌, true, false, is_ok, length}
use sloserve.Float.{◌≺◌, ◌⊗◌, float}
use sloserve.Float.Integers.{integers}
use sloserve.Router.Controller.{level_0, level_1, tighten_hold_elapsed, relax_hold_elapsed}
use sloserve.Analysis.Gates.{DecisionFact, check_thrash}
use sloserve.Analysis.Gates.Thrash.{Successive, IsHeld, switches, check_thrash_iff}

abbrev tightened : DecisionFact
tightened = record {
  request_id = "req-0";
  repetition_index = pos 0;
  decision_time_s = pos 10;
  q_inst = pos 5;
  q_bar = pos 4;
  old_level = level_0;
  new_level = level_1;
  selected_cap = some (pos 64);
  trigger_reason = tighten_hold_elapsed;
}

abbrev relaxed : DecisionFact
relaxed = record tightened {
  request_id = "req-9";
  decision_time_s = pos 40;
  q_inst = pos 0;
  q_bar = pos 0;
  old_level = level_1;
  new_level = level_0;
  selected_cap = none;
  trigger_reason = relax_hold_elapsed;
}

check_thrash_iff_example :
    (is_ok (check_thrash (pos 5) (pos 20) (tightened ∷ relaxed ∷ []) (pos 30)) ≡ true) ↔ (
      (pos 1 ≤ℤ pos 30)
      × Successive (IsHeld (pos 5) (pos 20)) (switches (tightened ∷ relaxed ∷ []))
      × ((float (pos 30) ⊗ integers.of_decimal (pos 10) 2
            ≺ float (pos (length (switches (tightened ∷ relaxed ∷ [])))))
          ≡ false))
check_thrash_iff_example = check_thrash_iff (pos 5) (pos 20) (tightened ∷ relaxed ∷ []) (pos 30)
