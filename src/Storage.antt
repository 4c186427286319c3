-- ===== src/Storage.antt =====
-- storage: archives of a Workspace.
pub mod Archive
pub mod Cache
pub mod Capped
pub mod Fencing
pub mod Refs
pub mod S3
