-- ===== src/Core.antt =====
-- packages/apalis-core: errors, job states, attempts, responses and requests.
pub mod Error
pub mod State
pub mod Attempt
pub mod Response
pub mod Request
pub mod Examples
