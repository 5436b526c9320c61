-- ===== src/Guests.antt =====
-- Guest users of partner companies.
pub mod Model
pub mod Lifecycle
