-- ===== src/Backup.antt =====
-- The backups: backup/ and the object store that they go to, shared/client/s3store/.
pub mod Store
pub mod Local
pub mod S3
pub mod Upload
pub mod Quota
pub mod Dumps
pub mod Workflow
