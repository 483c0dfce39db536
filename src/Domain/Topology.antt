-- ===== src/Domain/Topology.antt =====
-- crates/domain/src/topology.rs: the validated arrangement of screens, and the screen entered when
-- the pointer crosses an edge.
pub mod Crossing
pub mod Checks
pub mod Accepted
use tevir.Prelude.{
  ℕ, ◌+◌, ◌-◌, ◌*◌, ℤ, pos, ◌+ℤ◌, ◌-ℤ◌, Bool, ◌&&◌, ◌||◌, not, Option, none, some, List, [], ◌∷◌,
  Result, ok, err, length, any, find, find_map, ltb, leb, ltb_ℤ, eqb_ℤ, eqb, ◌==◌, i32_max, to_i32,
  to_u32, if◌then◌else◌,
}
use tevir.Prelude.Optional.{◌>>=◌}
use tevir.Domain.Identity.{NodeId, node_eq}
use tevir.Domain.Geometry.{Point, Rect, size_eq}
use tevir.Domain.Rect
use tevir.Domain.Edge.{Edge, contains_axis}
use tevir.Domain.Display.{validate, contains_edge_offset}
use tevir.Domain.Placement.{ScreenPlacement, TopologyError}
use tevir.Domain.Connectivity.{has, visit}

pub record Topology : Type 0 where
  pub screens : List ScreenPlacement

pub record Transition : Type 0 where
  pub target : NodeId
  pub local_position : Point

-- The first loop of `new`: a node that is already in the set.
unfoldable pub first_duplicate : List NodeId → List ScreenPlacement → Option NodeId
first_duplicate nodes [] = none
first_duplicate nodes (s ∷ ss) =
    if any (λ n. n == s.node) nodes then some s.node else first_duplicate (s.node ∷ nodes) ss

unfoldable pub overflows : Rect → Bool
overflows b =
    ltb (i32_max + 1) b.size.width
    || ltb (i32_max + 1) b.size.height
    || ltb_ℤ (pos (i32_max + 1)) (Rect.right b)
    || ltb_ℤ (pos (i32_max + 1)) (Rect.bottom b)

-- The second loop of `new`, which checks each screen against those behind it.
unfoldable pub check_screens : List ScreenPlacement → Result (Unit {0}) TopologyError
check_screens [] = ok tt
check_screens (first ∷ rest) =
    let later = check_screens rest in
    elim (validate first.layout) [
      | err e ↦ err (TopologyError.invalid_desktop e)
      | ok _ ↦
          if not (first.layout.size == first.bounds.size)
          then err (TopologyError.desktop_size_mismatch first.node)
          else if overflows first.bounds
          then err (TopologyError.coordinate_overflow first.node)
          else elim (find (λ s. Rect.overlaps first.bounds s.bounds) rest) [
            | some second ↦ err (TopologyError.overlapping_screens first.node second.node)
            | none ↦ later
          ]
    ]

-- The first screen, from `index` on, outside the connected set.
unfoldable pub first_outside : List ℕ → ℕ → List ScreenPlacement → Option NodeId
first_outside connected index [] = none
first_outside connected index (s ∷ ss) =
    if has connected index then first_outside connected (index + 1) ss else some s.node

-- Fuel for the search: each index is expanded once, and then adds at most every index.
unfoldable pub connected_screen_indexes : List ScreenPlacement → Option (List ℕ)
unfolding visit
connected_screen_indexes screens = visit screens (length screens * length screens + 2) [] (0 ∷ [])

-- The last check of `new`. The `none` of the search is excluded by its fuel.
unfoldable pub check_connected : List ScreenPlacement → Result (Unit {0}) TopologyError
unfolding connected_screen_indexes
check_connected screens = elim (connected_screen_indexes screens) [
  | none ↦ err TopologyError.empty
  | some connected ↦
      if eqb (length connected) (length screens)
      then ok tt
      else elim (first_outside connected 0 screens) [
        | none ↦ ok tt
        | some node ↦ err (TopologyError.disconnected_node node)
      ]
]

unfoldable pub new : List ScreenPlacement → Result Topology TopologyError
new [] = err TopologyError.empty
new (s ∷ ss) = elim (first_duplicate [] (s ∷ ss)) [
  | some node ↦ err (TopologyError.duplicate_node node)
  | none ↦ elim (check_screens (s ∷ ss)) [
    | err e ↦ err e
    | ok _ ↦ elim (check_connected (s ∷ ss)) [
      | err e ↦ err e
      | ok _ ↦ ok (record { screens = s ∷ ss })
    ]
  ]
]

unfoldable pub screen : Topology → NodeId → Option ScreenPlacement
screen t node = find (λ s. s.node == node) t.screens

unfoldable pub screen_at : Topology → Point → Option ScreenPlacement
screen_at t p = find (λ s. Rect.contains s.bounds p) t.screens

-- The arms of the `match` in `transition`: where a candidate is entered, if it is.
unfoldable pub enter : Edge → Rect → ScreenPlacement → ℤ → Option Point
enter Edge.left source c axis =
    if eqb_ℤ (Rect.right c.bounds) (Rect.left source)
      && contains_axis (Rect.top c.bounds) (Rect.bottom c.bounds) axis
    then (do
      offset ← to_u32 (axis -ℤ Rect.top c.bounds)
      if contains_edge_offset c.layout Edge.right offset
          then (do
            x ← to_i32 (pos (c.bounds.size.width - 1))
            y ← to_i32 (axis -ℤ Rect.top c.bounds)
            some (record { x = x; y = y }))
          else none)
    else none
enter Edge.right source c axis =
    if eqb_ℤ (Rect.left c.bounds) (Rect.right source)
      && contains_axis (Rect.top c.bounds) (Rect.bottom c.bounds) axis
    then (do
      offset ← to_u32 (axis -ℤ Rect.top c.bounds)
      if contains_edge_offset c.layout Edge.left offset
          then (do y ← to_i32 (axis -ℤ Rect.top c.bounds); some (record { x = pos 0; y = y }))
          else none)
    else none
enter Edge.top source c axis =
    if eqb_ℤ (Rect.bottom c.bounds) (Rect.top source)
      && contains_axis (Rect.left c.bounds) (Rect.right c.bounds) axis
    then (do
      offset ← to_u32 (axis -ℤ Rect.left c.bounds)
      if contains_edge_offset c.layout Edge.bottom offset
          then (do
            x ← to_i32 (axis -ℤ Rect.left c.bounds)
            y ← to_i32 (pos (c.bounds.size.height - 1))
            some (record { x = x; y = y }))
          else none)
    else none
enter Edge.bottom source c axis =
    if eqb_ℤ (Rect.top c.bounds) (Rect.bottom source)
      && contains_axis (Rect.left c.bounds) (Rect.right c.bounds) axis
    then (do
      offset ← to_u32 (axis -ℤ Rect.left c.bounds)
      if contains_edge_offset c.layout Edge.top offset
          then (do x ← to_i32 (axis -ℤ Rect.left c.bounds); some (record { x = x; y = pos 0 }))
          else none)
    else none

-- The crossing point on the axis along the edge, if the offset lies on the source's edge.
unfoldable pub axis_of : Edge → ScreenPlacement → ℕ → Option ℤ
axis_of Edge.left s offset =
    if leb s.bounds.size.height offset then none else some (Rect.top s.bounds +ℤ pos offset)
axis_of Edge.right s offset =
    if leb s.bounds.size.height offset then none else some (Rect.top s.bounds +ℤ pos offset)
axis_of Edge.top s offset =
    if leb s.bounds.size.width offset then none else some (Rect.left s.bounds +ℤ pos offset)
axis_of Edge.bottom s offset =
    if leb s.bounds.size.width offset then none else some (Rect.left s.bounds +ℤ pos offset)

-- The closure of `find_map`.
unfoldable pub try_candidate : Edge → ScreenPlacement → ℤ → ScreenPlacement → Option Transition
try_candidate edge source axis c = if c.node == source.node then none else (do
  p ← enter edge source.bounds c axis
  some (record { target = c.node; local_position = p }))

-- `transition` once the source screen is found.
unfoldable pub leave : Topology → Edge → ℕ → ScreenPlacement → Option Transition
leave t edge offset source =
    if contains_edge_offset source.layout edge offset
    then (do axis ← axis_of edge source offset; find_map (try_candidate edge source axis) t.screens)
    else none

unfoldable pub transition : Topology → NodeId → Edge → ℕ → Option Transition
unfolding leave
transition t current edge offset = do source ← screen t current; leave t edge offset source
