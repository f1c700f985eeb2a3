-- ===== src/Backup.antt =====
-- The admission of database backups that a customer supplies.
pub mod Reading
pub mod Versions
pub mod Archive
pub mod Snapshot
pub mod Admission
mod Tests
