-- ===== src/Config.antt =====
-- src/sloserve/config.py: the configuration models that the router and the workload read. pydantic
-- runs the constraints of the fields first and then the model validators in their order.
mod Base
pub mod Admission
pub mod SloAware
pub mod Workload
pub mod Experiment
pub mod Validation
unfoldable pub use Base.*
