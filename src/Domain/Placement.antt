-- ===== src/Domain/Placement.antt =====
-- crates/domain/src/topology.rs: the screens of a topology and its errors.
use tevir.Prelude.{Result, ok}
use tevir.Prelude.Fallible.{◌>>◌, map_err}
use tevir.Domain.Identity.{NodeId}
use tevir.Domain.Geometry.{Point, Rect}
use tevir.Domain.Display.{DesktopLayout, DesktopLayoutError, validate, single as single_layout}

pub record ScreenPlacement : Type 0 where
  pub node : NodeId
  pub bounds : Rect
  pub layout : DesktopLayout

pub data TopologyError : Type 0 where
  empty : TopologyError
  duplicate_node : NodeId → TopologyError
  overlapping_screens : (first second : NodeId) → TopologyError
  desktop_size_mismatch : NodeId → TopologyError
  invalid_desktop : DesktopLayoutError → TopologyError
  coordinate_overflow : NodeId → TopologyError
  disconnected_node : NodeId → TopologyError

-- `ScreenPlacement::single`.
unfoldable pub single : NodeId → Rect → ScreenPlacement
single node bounds = record { node = node; bounds = bounds; layout = single_layout bounds.size }

unfoldable pub with_layout : NodeId → Point → DesktopLayout → Result ScreenPlacement TopologyError
with_layout node origin layout = do
  map_err TopologyError.invalid_desktop (validate layout)
  ok (record {
    node = node;
    bounds = record { origin = origin; size = layout.size };
    layout = layout;
  })
