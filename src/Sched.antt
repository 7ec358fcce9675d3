-- ===== src/Sched.antt =====
-- sched/: the scheduler's side of the dialogue with the crawlers.
pub mod Session
pub mod Crawler
pub mod DeferredUpdate
pub mod Node
pub mod Scheduler
