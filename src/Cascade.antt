-- ===== src/Cascade.antt =====
-- internal/cascade: the hub's side of a session with a spoke.
pub mod Waiter
pub mod Session
pub mod Hub
pub mod Metadata
