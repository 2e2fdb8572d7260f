-- ===== src/Config.antt =====
-- internal/config: the parts of the configuration that the scheduler computes with.
pub mod TimeRange
pub mod Effort
pub mod Rules
pub mod Provider
