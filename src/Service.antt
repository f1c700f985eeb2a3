-- ===== src/Service.antt =====
-- The containers of a service: their readiness, restarts and resource limits.
pub mod Readiness
pub mod Limits
pub mod Restarts
pub mod Update
mod Tests
