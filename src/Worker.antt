-- ===== src/Worker.antt =====
-- Worker services: the rollout plan (agent/src/worker-rollout-plan.ts), the shutdown policy and its
-- reports (packages/runtime/src/worker-shutdown.ts), and the graceful stop of one container
-- (agent/src/worker-shutdown.ts).
pub mod Policy
pub mod Rollout
pub mod Readiness
pub mod Signal
pub mod Shutdown
pub mod Reports
mod Tests
