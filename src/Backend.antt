-- ===== src/Backend.antt =====
-- packages/apalis-core: how a backend hands requests to a worker, and the backend in memory.
pub mod Channel
pub mod Queue
pub mod Controller
pub mod Receiver
pub mod Notify
pub mod Poller
pub mod Memory
pub mod Examples
