-- ===== src/Scheduler.antt =====
-- pkg/scheduler: the cron expressions.
pub mod Cron
pub mod Matching
pub mod Search
pub mod Jobs
pub mod Due
pub mod Examples
pub mod JobExamples
