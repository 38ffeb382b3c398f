-- ===== src/Scheduler.antt =====
-- krake/krake/controller/scheduler/: the scheduler of applications.
pub mod Constraints
pub mod Ranking
pub mod Selection
pub mod Applications
pub mod Clusters
pub mod Magnum
