-- ===== src/Workload.antt =====
-- src/sloserve/workload
pub mod LengthPredictor
pub mod Dispatcher
pub mod HttpBackend
pub mod Pacing
pub mod Quality
pub mod Training
pub mod Generator
pub mod Arrivals
pub mod Random
