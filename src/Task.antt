-- ===== src/Task.antt =====
-- The task module: include/mammut/task, src/task.
pub mod Throttler
pub mod ExecutionUnits
