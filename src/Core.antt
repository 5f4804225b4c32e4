-- ===== src/Core.antt =====
-- core/: what the apps share.
pub mod Db
pub mod Trials
pub mod Permissions
pub mod Recurrence
mod Tests
