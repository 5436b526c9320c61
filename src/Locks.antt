-- ===== src/Locks.antt =====
-- The time-based folder locks of an order: rules, states, change requests (api/services/locks).
pub mod Model
pub mod Windows
pub mod Rules
pub mod Evaluator
pub mod ChangeRequests
