-- ===== src/Scheduler.antt =====
-- internal/scheduler: how a request is tried on the candidates of a model group.
pub mod Tracker
pub mod Adaptive
pub mod Types
pub mod Abort
pub mod Fallback
pub mod Selector
pub mod Sticky
pub mod LoadBalance
pub mod Windows
pub mod Classify
pub mod World
pub mod Leaf
pub mod Failover
pub mod Race
pub mod Concurrent
