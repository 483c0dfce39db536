-- ===== src/Runtime/Edges.antt =====
-- crates/tevir/src/runtime.rs: the edges of the local desktop at which the pointer is captured, and
-- where an edge leads.
pub mod Segments
pub mod Midpoint
pub mod Facing
pub mod Crossing
pub mod Reaching
pub mod Captured
pub mod Positions
use tevir.Prelude.{
  ℕ, ◌+◌, ◌/◌, ℤ, pos, negsuc, ◌+ℤ◌, ◌-◌, ◌-ℤ◌, leb_ℤ, eqb_ℤ, Bool, false, true, ◌&&◌, Option, none,
  some, is_some, List, [], ◌∷◌, filter, find_map, to_u32, ◌==◌, if◌then◌else◌,
}
use tevir.Prelude.Optional.{◌>>=◌}
use tevir.Domain.Identity.{NodeId, node_eq}
use tevir.Domain.Geometry.{Rect}
use tevir.Domain.Rect
use tevir.Domain.Edge.{Edge}
use tevir.Domain.Display.{edge_segments}
use tevir.Domain.Placement.{ScreenPlacement}
use tevir.Domain.Topology.{Topology, screen, transition}
use tevir.Runtime.Config.{EdgeBehavior, active_interval}

-- `i64` division by 2, which rounds towards zero.
unfoldable pub half : ℤ → ℤ
half (pos n) = pos (n / 2)
half (negsuc n) = pos 0 -ℤ pos ((n + 1) / 2)

unfoldable pub max_ℤ : ℤ → ℤ → ℤ
max_ℤ a b = if leb_ℤ a b then b else a

unfoldable pub min_ℤ : ℤ → ℤ → ℤ
min_ℤ a b = if leb_ℤ a b then a else b

-- The four parts of the tuple that `shared_edge_offset` makes of an edge.
unfoldable pub edges_touch : Edge → Rect → Rect → Bool
edges_touch Edge.left source candidate = eqb_ℤ (Rect.right candidate) (Rect.left source)
edges_touch Edge.right source candidate = eqb_ℤ (Rect.left candidate) (Rect.right source)
edges_touch Edge.top source candidate = eqb_ℤ (Rect.bottom candidate) (Rect.top source)
edges_touch Edge.bottom source candidate = eqb_ℤ (Rect.top candidate) (Rect.bottom source)

unfoldable pub opposite : Edge → Edge
opposite Edge.left = Edge.right
opposite Edge.right = Edge.left
opposite Edge.top = Edge.bottom
opposite Edge.bottom = Edge.top

unfoldable pub start_of : Edge → Rect → ℤ
start_of Edge.left r = Rect.top r
start_of Edge.right r = Rect.top r
start_of Edge.top r = Rect.left r
start_of Edge.bottom r = Rect.left r

-- The inner closure: the middle of what two segments share.
unfoldable pub shared_midpoint : ℤ → ℤ → ℕ × ℕ → ℕ × ℕ → Option ℕ
shared_midpoint source_start candidate_start a b =
    let overlap_start = max_ℤ (source_start +ℤ pos (a.0)) (candidate_start +ℤ pos (b.0)) in
    let overlap_end = min_ℤ (source_start +ℤ pos (a.1)) (candidate_start +ℤ pos (b.1)) in
    if leb_ℤ overlap_end overlap_start
    then none
    else let midpoint = overlap_start +ℤ half (overlap_end -ℤ overlap_start -ℤ pos 1) in
      to_u32 (midpoint -ℤ source_start)

unfoldable pub shared_edge_offset : ScreenPlacement → ScreenPlacement → Edge → Option ℕ
shared_edge_offset source candidate edge =
    if edges_touch edge source.bounds candidate.bounds
    then find_map
        (λ a.
          find_map
            (shared_midpoint (start_of edge source.bounds) (start_of edge candidate.bounds) a)
            (edge_segments candidate.layout (opposite edge)))
        (edge_segments source.layout edge)
    else none

-- The closure of `activation_target`, and its search, for want of a position.
unfoldable pub try_adjacent : Edge → ScreenPlacement → ScreenPlacement → Option (NodeId × ℕ)
try_adjacent edge source candidate =
    if candidate.node == source.node
    then none
    else (do offset ← shared_edge_offset source candidate edge; some (candidate.node, offset))

unfoldable pub adjacent_target : Topology → NodeId → Edge → Option (NodeId × ℕ)
adjacent_target t local_node edge = do
  source ← screen t local_node
  find_map (try_adjacent edge source) t.screens

unfoldable pub edge_size : Edge → ScreenPlacement → ℕ
edge_size Edge.left source = source.bounds.size.height
edge_size Edge.right source = source.bounds.size.height
edge_size Edge.top source = source.bounds.size.width
edge_size Edge.bottom source = source.bounds.size.width

-- Positions are floating-point numbers: `offset_at p maximum` is
-- `(p.clamp(0.0, 1.0) * f64::from(maximum)).round() as u32`.
module _ {F64 : Type 0} (offset_at : F64 → ℕ → ℕ) where
  unfoldable pub activation_target : Topology → NodeId → Edge → Option F64 → Option (NodeId × ℕ)
  activation_target t local_node edge (some edge_position) = do
    source ← screen t local_node
    found ← transition t local_node edge (offset_at edge_position (edge_size edge source - 1))
    some (found.target, offset_at edge_position (edge_size edge source - 1))
  activation_target t local_node edge none = adjacent_target t local_node edge

  unfoldable pub capture_edges : Topology → NodeId → EdgeBehavior → List Edge
  capture_edges t local_node edge_behavior =
      filter
        (λ edge.
          is_some (active_interval edge_behavior edge)
          && is_some (activation_target t local_node edge none))
        (Edge.left ∷ Edge.right ∷ Edge.top ∷ Edge.bottom ∷ [])
