-- ===== src/Protocol.antt =====
-- crates/protocol: the messages of a session and their framing.
pub mod Clipboard
pub mod Message
pub mod Codec
