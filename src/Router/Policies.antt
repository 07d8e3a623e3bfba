-- ===== src/Router/Policies.antt =====
-- src/sloserve/router/policies: the keys of the three policies, the order that they give, and their
-- construction. A policy's class is a constructor; `order` matches on it as the method dispatch does.
mod SloAware
pub mod Order
pub mod Estimates
pub mod Aging
pub mod Totality
unfoldable pub use SloAware.*
use sloserve.Prelude.{
  ℤ, pos, ltb_ℤ, Bool, true, false, List, [], ◌∷◌, map, Option, none, some, Result, ok, err,
  value_error, ◌>>=◌, if◌then◌else◌, not, String,
}
use sloserve.Prelude.Sorting.{sorted, lex}
use sloserve.Float.{Float, ◌⊖◌, min_f, max_f, ◌⊗◌}
use sloserve.Statistics.{median}
use sloserve.Config.{SchedulerPolicyName}
use sloserve.Config
use sloserve.Config.SloAware.{SloAwareConfig}
use sloserve.Workload.LengthPredictor.{LengthPredictor}
use sloserve.Router.Models.{RequestEnvelope, RequestClass, interactive, batch}

module _ ⦃f : Float⦄ where
  pub data SchedulingPolicy : Type 0 where
    fcfs_policy static_priority_policy : SchedulingPolicy
    slo_aware_policy : SloAwarePolicy → SchedulingPolicy

  -- `FcfsPolicy.priority_key`
  abbrev pub fcfs_key : RequestEnvelope → f.F × ℤ
  fcfs_key r = (r.arrival_time_s, r.sequence_id)

  abbrev pub fcfs_less : f.F × ℤ → f.F × ℤ → Bool
  fcfs_less = lex f.lt ltb_ℤ

  abbrev pub class_rank : RequestClass → ℤ
  class_rank interactive = pos 0
  class_rank batch = pos 1

  -- `StaticPriorityPolicy.priority_key`, as a pair of the rank and the rest.
  abbrev pub static_key : RequestEnvelope → ℤ × (f.F × ℤ)
  static_key r = (class_rank r.request_class, (r.arrival_time_s, r.sequence_id))

  abbrev pub static_less : ℤ × (f.F × ℤ) → ℤ × (f.F × ℤ) → Bool
  static_less = lex ltb_ℤ fcfs_less

  -- The items that `sorted` orders are envelopes, or entries that carry one: `envelope` reads it.
  module _ {A : Type 0} (envelope : A → RequestEnvelope) where
    -- `sorted` computes every key before it compares two.
    unfoldable pub with_keys :
        (RequestEnvelope → Result SloKey) → List A → Result (List (SloKey × A))
    with_keys key [] = ok []
    with_keys key (x ∷ xs) = do k ← key (envelope x); rest ← with_keys key xs; ok ((k, x) ∷ rest)

    unfoldable pub sorted_by : (RequestEnvelope → Result SloKey) → List A → Result (List A)
    sorted_by key xs = do
      keyed ← with_keys key xs
      ok (map (λ p. p.1) (sorted slo_less (λ p. p.0) keyed))

    -- The adaptive branch of `SloAwarePolicy.order`.
    unfoldable pub adaptive_order : SloAwarePolicy → f.F → List A → Result (List A)
    adaptive_order p now [] = ok []
    adaptive_order p now (x ∷ xs) = do
      threshold ← effective_threshold p (map (λ y. now ⊖ (envelope y).arrival_time_s) (x ∷ xs))
      sorted_by (λ r. slo_key p r now threshold) (x ∷ xs)

    unfoldable pub order : SchedulingPolicy → f.F → List A → Result (List A)
    order fcfs_policy now xs = ok (sorted fcfs_less (λ x. fcfs_key (envelope x)) xs)
    order static_priority_policy now xs = ok (sorted static_less (λ x. static_key (envelope x)) xs)
    order (slo_aware_policy p) now xs =
        if not p.adaptive_ceiling
        then sorted_by (λ r. slo_key p r now p.aging_threshold_s) xs
        else adaptive_order p now xs

  -- `build_policy`. `load` reads the artifact of the length predictor.
  unfoldable pub build_policy :
      (String → Result LengthPredictor)
      → SchedulerPolicyName
      → SloAwareConfig
      → Result SchedulingPolicy
  build_policy load Config.fcfs c = ok fcfs_policy
  build_policy load Config.static_priority c = ok static_priority_policy
  build_policy load Config.slo_aware c = do p ← build_slo_aware load c; ok (slo_aware_policy p)
