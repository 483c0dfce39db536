-- ===== src/Transport.antt =====
-- crates/transport: the parts that are not input and output.
pub mod Replay
pub mod Reconnect
