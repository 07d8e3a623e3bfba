-- ===== src/Examples.antt =====
-- Concrete requests, configurations and queues, over the integers as floats.
mod Data
mod Requests
mod Policies
mod Clipping
mod Queue
mod Workload
mod Records
mod Metrics
mod Experiments
mod Backend
mod Seeds
mod Gates
mod Deadlines
