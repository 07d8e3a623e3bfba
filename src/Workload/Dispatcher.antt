-- ===== src/Workload/Dispatcher.antt =====
-- src/sloserve/workload/dispatcher.py: the outcomes of a dispatched request. The dispatcher is in
-- Workload/Pacing.
pub data DispatchStatus : Type 0 where
  success error timeout cancelled rejected : DispatchStatus
