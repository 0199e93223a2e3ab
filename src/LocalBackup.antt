-- ===== src/LocalBackup.antt =====
-- vmbackupd/backup_catalog_v2.py, the retention of vmbackupd/local_backup_v2.py and the operations of
-- repository_v2.py that they use: deleting local backups with their files.
pub mod Delete
pub mod Chain
pub mod Deletion
pub mod Others
pub mod Effects
pub mod Deleted
pub mod Closed
pub mod Kept
pub mod Floor
pub mod Retention
