-- ===== src/Agent.antt =====
-- The agent's own loops and calls: the heartbeat, timers, the cleanup of containers and the clock.
pub mod Interval
pub mod Cleanup
pub mod Heartbeat
pub mod Clock
pub mod Wipe
mod Tests
