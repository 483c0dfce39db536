-- ===== src/Runtime.antt =====
-- crates/tevir: the parts of the program that are not input and output.
pub mod Config
pub mod Edges
pub mod Channel
pub mod Controller
pub mod Agent
pub mod Shortcut
pub mod Resize
mod Examples
