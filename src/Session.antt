-- ===== src/Session.antt =====
-- crates/session: the agent's and the controller's side of a session.
pub mod Agent
pub mod Coalesce
pub mod Pointer
pub mod Controller
pub mod Routing
pub mod Exchange
pub mod Scenario
pub mod Clipboard
