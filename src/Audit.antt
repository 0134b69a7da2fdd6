-- ===== src/Audit.antt =====
-- core/src/audit.rs and its modules: one world's HMAC-linked chain of events.
pub mod Events
pub mod Frame
pub mod Headers
pub mod Retention
pub mod Bodies
pub mod Verify
pub mod Walk
pub mod Access
pub mod Append
