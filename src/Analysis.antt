-- ===== src/Analysis.antt =====
-- src/sloserve/analysis
pub mod Queueing
pub mod Percentiles
pub mod Attainment
pub mod Seeds
pub mod Gates
pub mod Retention
pub mod Reconciliation
pub mod Metrics
