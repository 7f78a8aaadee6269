-- ===== src/Scheduler.antt =====
-- The scheduler: source/internal/scheduler/scheduler.go.
pub mod Actions
pub mod Runs
pub mod Known
pub mod Once
pub mod Outcome
pub mod Times
pub mod TimesLaws
pub mod Cron
pub mod CronValues
pub mod CronLaws
pub mod NextRun
pub mod NextRunLaws
pub mod Monthly
pub mod NextRunEnds
pub mod MonthlyLaws
mod Tests
