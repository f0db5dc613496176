-- ===== src/Queue/Insert.antt =====
-- The macros that insert into a list.
pub mod Push
pub mod Between
pub mod Enqueue
pub mod Conditional
