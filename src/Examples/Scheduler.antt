-- ===== src/Examples/Scheduler.antt =====
-- The scheduler (internal/scheduler) at work, against upstreams that always answer alike.
pub mod Upstreams
pub mod Leaf
pub mod Failover
pub mod LoadBalance
pub mod Adaptive
pub mod Choice
pub mod Race
