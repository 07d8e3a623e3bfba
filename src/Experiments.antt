-- ===== src/Experiments.antt =====
-- src/sloserve/experiments
pub mod Correctness
pub mod Benchmark
pub mod Completeness
pub mod Sweep
