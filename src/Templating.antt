-- ===== src/Templating.antt =====
-- runtime/src/ach_runtime/templating
pub mod Render
