-- ===== src/Work.antt =====
-- Leased work: how its end is reported (agent/src/agent-work-reporting.ts) and how many work items
-- run at once (agent/src/work-scheduler.ts).
pub mod Reporting
pub mod Scheduler
mod Tests
