-- ===== src/Release.antt =====
-- Release phases of a deployment: packages/runtime/src/release-phases.ts, the decisions that the
-- control plane and the agent share, and the sweeps of job containers of
-- agent/src/release-jobs.ts.
pub mod Phases
pub mod Config
pub mod Claim
pub mod Blockers
pub mod Recovery
pub mod Gates
pub mod Outside
pub mod Jobs
pub mod Runner
pub mod Protocol
mod Tests
