-- ===== src/Layers.antt =====
-- src/layers: what stands between the worker and the task.
pub mod Retry
pub mod Acknowledge
pub mod Examples
