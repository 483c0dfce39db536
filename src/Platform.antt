-- ===== src/Platform.antt =====
-- crates/platform: the parts that call no operating system.
pub mod Held
