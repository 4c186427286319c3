-- ===== src/Harness.antt =====
-- runtime/src/ach_runtime/harness
pub mod Refs
pub mod Admission
pub mod Workspaces
