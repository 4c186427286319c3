-- ===== src/Channels.antt =====
-- runtime/src/ach_runtime/channels
pub mod Event
pub mod Routing
pub mod Queue
