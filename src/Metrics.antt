-- ===== src/Metrics.antt =====
-- src/sloserve/metrics
pub mod Records
pub mod Serialization
pub mod Jsonl
pub mod AdaptiveCap
