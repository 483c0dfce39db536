-- ===== src/Runtime/Config/File.antt =====
-- crates/tevir/src/config.rs: a configuration, and the form in which it is stored. The text of a file is
-- read and written by a third-party library, and a network address is a parameter.
use tevir.Prelude.{none, some, List, map, Result, ok, err, ◌==◌, if◌then◌else◌, ℤ, ℕ}
use tevir.Domain.Identity.{NodeId, node_eq}
use tevir.Domain.Display.{DesktopLayout, single as single_layout}
use tevir.Domain.Placement.{ScreenPlacement, TopologyError, single}
use tevir.Domain.Topology
use tevir.Domain.Topology.{Topology, screen}
use tevir.Runtime.Config.{EdgeBehavior, InvalidEdgeBehavior, validate}

pub data Role (SocketAddr : Type 0) : Type 0 where
  controller :
      (listen : SocketAddr) (topology : Topology) (edge_behavior : EdgeBehavior) → Role SocketAddr
  agent :
      (controller_node : NodeId) (address : SocketAddr) (display_layout : DesktopLayout)
      → Role SocketAddr

pub record Config (SocketAddr : Type 0) : Type 0 where
  pub node : NodeId
  pub role : Role SocketAddr

pub data ConfigError : Type 0 where
  missing_local_screen : NodeId → ConfigError
  invalid_edge_behavior : InvalidEdgeBehavior → ConfigError
  local_controller : NodeId → ConfigError
  rejected_topology : TopologyError → ConfigError

-- A screen, a role and a whole configuration as they are stored.
pub record Screen : Type 0 where
  pub node : NodeId
  pub x : ℤ
  pub y : ℤ
  pub width : ℕ
  pub height : ℕ

pub data RoleFile (SocketAddr : Type 0) : Type 0 where
  controller :
      (listen : SocketAddr) (screens : List Screen) (edge_behavior : EdgeBehavior)
      → RoleFile SocketAddr
  agent :
      (controller_node : NodeId) (address : SocketAddr) (display_width display_height : ℕ)
      → RoleFile SocketAddr

pub record ConfigFile (SocketAddr : Type 0) : Type 0 where
  pub node : NodeId
  pub role : RoleFile SocketAddr

unfoldable pub into_placement : Screen → ScreenPlacement
into_placement s = single s.node (record {
  origin = record { x = s.x; y = s.y };
  size = record { width = s.width; height = s.height };
})

unfoldable pub from_placement : ScreenPlacement → Screen
from_placement p = record {
  node = p.node;
  x = p.bounds.origin.x;
  y = p.bounds.origin.y;
  width = p.bounds.size.width;
  height = p.bounds.size.height;
}

module _ {SocketAddr : Type 0} where
  unfoldable pub new_config : NodeId → Role SocketAddr → Result (Config SocketAddr) ConfigError
  new_config node (Role.controller listen topology edge_behavior) = elim (screen topology node) [
    | none ↦ err (ConfigError.missing_local_screen node)
    | some _ ↦ elim (validate edge_behavior) [
      | err e ↦ err (ConfigError.invalid_edge_behavior e)
      | ok _ ↦ ok (record { node = node; role = Role.controller listen topology edge_behavior })
    ]
  ]
  new_config node (Role.agent controller_node address display_layout) =
      if controller_node == node
      then err (ConfigError.local_controller node)
      else ok (record { node = node; role = Role.agent controller_node address display_layout })

  unfoldable pub validate_role : RoleFile SocketAddr → Result (Role SocketAddr) ConfigError
  validate_role (RoleFile.controller listen screens edge_behavior) =
      elim (Topology.new (map into_placement screens)) [
        | err e ↦ err (ConfigError.rejected_topology e)
        | ok topology ↦ ok (Role.controller listen topology edge_behavior)
      ]
  validate_role (RoleFile.agent controller_node address display_width display_height) = ok (
      Role.agent controller_node address
        (single_layout (record { width = display_width; height = display_height })))

  unfoldable pub validate_file : ConfigFile SocketAddr → Result (Config SocketAddr) ConfigError
  validate_file file = elim (validate_role file.role) [
    | err e ↦ err e
    | ok role ↦ new_config file.node role
  ]

  unfoldable pub from_role : Role SocketAddr → RoleFile SocketAddr
  from_role (Role.controller listen topology edge_behavior) =
      RoleFile.controller listen (map from_placement topology.screens) edge_behavior
  from_role (Role.agent controller_node address display_layout) =
      RoleFile.agent controller_node address display_layout.size.width display_layout.size.height

  unfoldable pub from_config : Config SocketAddr → ConfigFile SocketAddr
  from_config config = record { node = config.node; role = from_role config.role }
