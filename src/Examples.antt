-- ===== src/Examples.antt =====
-- Runs of the definitions at concrete inputs, and the theorems at them.
pub mod Cascade
pub mod Config
pub mod Health
pub mod Model
pub mod Resolver
pub mod RateLimit
pub mod Rules
pub mod Scheduler
