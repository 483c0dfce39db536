-- ===== src/Runtime/Resize.antt =====
-- crates/tevir/src/runtime.rs: the local desktop takes a new size and layout. A text of an error is the
-- case that it describes.
pub mod Kept
pub mod Attached
pub mod Adjacent
use tevir.Prelude.{
  ℕ, ℤ, pos, ◌+ℤ◌, ◌-ℤ◌, eqb_ℤ, none, some, List, [], ◌∷◌, map, Result, ok, err, to_i32, ◌==◌,
  PartialEq, derived_eq, ℕ_discrete, if◌then◌else◌,
}
use tevir.Domain.Identity.{NodeId, node_eq}
use tevir.Domain.Geometry.{Point, Size, Rect, Point-discrete, Size-discrete}
use tevir.Domain.Rect
use tevir.Domain.Display.{DesktopLayout, Monitor, DisplayRotation}
use tevir.Domain.Placement.{ScreenPlacement, TopologyError}
use tevir.Domain.Topology.{Topology, new, screen}
use tevir.Runtime.Edges.{half}

-- The derived equality of layouts.
unfoldable pub DesktopLayout-discrete : Discrete DesktopLayout
unfolding ℕ_discrete
DesktopLayout-discrete = hlevel ℕ_discrete

instance abbrev pub layout_eq : PartialEq DesktopLayout
layout_eq = derived_eq DesktopLayout-discrete

pub data ResizeError : Type 0 where
  missing_node : NodeId → ResizeError
  coordinate_range : NodeId → ResizeError
  topology : TopologyError → ResizeError

-- One round of the loop over the neighbours, on the position so far.
unfoldable pub attach : Rect → Size → ℤ × ℤ → Rect → ℤ × ℤ
attach current size position neighbor = (
  if eqb_ℤ (Rect.left current) (Rect.right neighbor)
      then Rect.left current
      else if eqb_ℤ (Rect.right current) (Rect.left neighbor)
      then Rect.left neighbor -ℤ pos size.width
      else position.0,
  if eqb_ℤ (Rect.top current) (Rect.bottom neighbor)
      then Rect.top current
      else if eqb_ℤ (Rect.bottom current) (Rect.top neighbor)
      then Rect.top neighbor -ℤ pos size.height
      else position.1,
)

unfoldable pub attach_all : NodeId → Rect → Size → ℤ × ℤ → List ScreenPlacement → ℤ × ℤ
attach_all node current size position [] = position
attach_all node current size position (s ∷ ss) =
    attach_all node current size
      (if s.node == node then position else attach current size position s.bounds) ss

-- The position before the loop, which keeps the centre.
unfoldable pub centred : Rect → Size → ℤ × ℤ
centred current size = (
  Rect.left current +ℤ half (pos current.size.width -ℤ pos size.width),
  Rect.top current +ℤ half (pos current.size.height -ℤ pos size.height),
)

-- The closure that makes the new screens.
unfoldable pub replace : NodeId → Point → DesktopLayout → ScreenPlacement → ScreenPlacement
replace node origin layout s =
    if s.node == node
    then record {
      node = s.node;
      bounds = record { origin = origin; size = layout.size };
      layout = layout;
    }
    else s

-- The end of `resize_topology_screen`, from the position on.
unfoldable pub place : Topology → NodeId → DesktopLayout → ℤ × ℤ → Result Topology ResizeError
place t node layout position = elim (to_i32 (position.0)) [
  | none ↦ err (ResizeError.coordinate_range node)
  | some x ↦ elim (to_i32 (position.1)) [
    | none ↦ err (ResizeError.coordinate_range node)
    | some y ↦ elim (new (map (replace node (record { x = x; y = y }) layout) t.screens)) [
      | err e ↦ err (ResizeError.topology e)
      | ok updated ↦ ok updated
    ]
  ]
]

unfoldable pub resize_topology_screen :
    Topology → NodeId → DesktopLayout → Result Topology ResizeError
resize_topology_screen t node layout = elim (screen t node) [
  | none ↦ err (ResizeError.missing_node node)
  | some current ↦
      if current.layout == layout
      then ok t
      else place t node layout (
          attach_all node current.bounds layout.size (centred current.bounds layout.size) t.screens)
]
