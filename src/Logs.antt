-- ===== src/Logs.antt =====
-- What becomes of the output of a build.
pub mod Lines
pub mod Publisher
mod Tests
