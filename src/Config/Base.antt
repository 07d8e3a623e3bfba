-- ===== src/Config/Base.antt =====
-- The enumerations of config.py, the constraints of fields, and the plain models.
use text.Mathlib.Text.{◌==◌ as str_eq}
use sloserve.Prelude.{◌>>◌, ℤ, pos, String, Result, raise_if, value_error, ltb_ℤ, not}
use sloserve.Float.{Float, ◌≺◌, ◌≼◌, zero_f}

pub data SchedulerPolicyName : Type 0 where
  fcfs static_priority slo_aware : SchedulerPolicyName

pub data ArrivalProcess : Type 0 where
  fixed poisson burst : ArrivalProcess

pub data LengthModel : Type 0 where
  uniform_cap realistic : LengthModel

pub data LengthSource : Type 0 where
  true_length advertised learned : LengthSource

pub data ClipSource : Type 0 where
  advertised_cap learned_length : ClipSource

pub data AdaptiveClipSignal : Type 0 where
  queue_depth_ewma in_system rho_hat : AdaptiveClipSignal

-- `Field(gt=0)` and `Field(ge=n)`: the message is the field's name.
abbrev pub field_ge : String → ℤ → ℤ → Result (Unit {0})
field_ge name low n = raise_if (ltb_ℤ n low) (value_error name)

module _ ⦃f : Float⦄ where
  abbrev pub field_positive : String → f.F → Result (Unit {0})
  field_positive name x = raise_if (x ≼ zero_f) (value_error name)

  abbrev pub field_nonneg : String → f.F → Result (Unit {0})
  field_nonneg name x = raise_if (x ≺ zero_f) (value_error name)

  -- `allow_inf_nan=False`
  abbrev pub field_finite : String → f.F → Result (Unit {0})
  field_finite name x = raise_if (not (f.is_finite x)) (value_error name)

  pub record BackendConfig : Type 0 where
    pub base_url : String
    pub model : String
    pub model_revision : String
    pub tokenizer_revision : String
    pub request_timeout_s : f.F

pub record RouterConfig : Type 0 where
  pub policy : SchedulerPolicyName
  pub listen_host : String
  pub listen_port : ℤ
  pub max_in_flight : ℤ
  pub queue_capacity : ℤ

-- `RouterConfig.model_validate`
unfoldable pub validate_router : RouterConfig → Result (Unit {0})
validate_router c = do
  raise_if (str_eq c.listen_host "") (value_error "listen_host")
  field_ge "listen_port" (pos 1) c.listen_port
  raise_if (ltb_ℤ (pos 65535) c.listen_port) (value_error "listen_port")
  field_ge "max_in_flight" (pos 1) c.max_in_flight
  field_ge "queue_capacity" (pos 1) c.queue_capacity
