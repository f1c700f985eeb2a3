-- ===== src/Capacity.antt =====
-- packages/runtime/src/server-capacity.ts: what a server keeps back, and what its disks can still
-- reserve.
pub mod Budget
pub mod Storage
pub mod Laws
mod Tests
