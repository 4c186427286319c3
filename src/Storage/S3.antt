-- ===== src/Storage/S3.antt =====
-- storage/s3.py: the storage backend.
pub mod Documents
pub mod Requests
pub mod Registry
pub mod Acquire
mod Examples
pub mod Persist
pub mod Commit
pub mod Restore
