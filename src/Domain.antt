-- ===== src/Domain.antt =====
-- crates/domain: node identities, geometry, input events, desktop layouts and the screen topology.
pub mod Identity
pub mod NodeSet
pub mod Geometry
pub mod Rect
pub mod Edge
pub mod Input
pub mod Display
pub mod Placement
pub mod Connectivity
pub mod Topology
mod Examples
