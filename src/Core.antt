-- ===== src/Core.antt =====
-- Helpers of api/core that the calls of Microsoft Graph go through.
pub mod CircuitBreaker
pub mod Retry
pub mod Idempotency
