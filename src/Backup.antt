-- ===== src/Backup.antt =====
-- The backups: source/internal/backup, its retention, its storage paths and its restore scopes.
pub mod Retention
pub mod RetentionLaws
pub mod Storage
pub mod StorageLaws
mod Tests
