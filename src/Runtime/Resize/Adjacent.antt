-- ===== src/Runtime/Resize/Adjacent.antt =====
-- Which neighbours a desktop that does not shrink still has.
use tevir.Prelude.{
  ℕ, ◌+◌, pos_part, neg_part, ◌≤◌, ◌≡◌, ◌≢◌, ap, sym, ◌∙◌, ℤ, pos, ◌+ℤ◌, ◌-ℤ◌, ◌≤ℤ◌, ◌<ℤ◌, eqb_ℤ,
  +ℤ_parts, -ℤ_parts, true, false, some, ok, List, [], ◌∷◌, All, ◌==◌, if◌then◌else◌, if-cases,
  arith, inl, inr, Bool-cases,
}
use tevir.Domain.Identity.{NodeId, node_eq}
use tevir.Domain.Geometry.{Size, Rect}
use tevir.Domain.Rect
use tevir.Domain.Display.{DesktopLayout}
use tevir.Domain.Topology.{Topology, screen}
use tevir.Domain.Placement.{ScreenPlacement}
use tevir.Domain.Edge.{Edge}
use tevir.Domain.Topology.Crossing.{OneOf}
use tevir.Runtime.Edges.{edges_touch, start_of, half}
use tevir.Runtime.Resize.{layout_eq, centred, attach, attach_all, resize_topology_screen}
use tevir.Runtime.Resize.Kept.{placed, screen_after}
use tevir.Runtime.Resize.Attached.{Free, loop_kept, kept-touches}

-- The extent along an edge.
abbrev pub extent : Edge → Size → ℕ
extent Edge.left size = size.height
extent Edge.right size = size.height
extent Edge.top size = size.width
extent Edge.bottom size = size.width

abbrev pub end_of : Edge → Rect → ℤ
end_of edge r = start_of edge r +ℤ pos (extent edge r.size)

-- Two desktops are adjacent at an edge of the first: their sides there are on one line, and share a stretch.
abbrev pub Adjacent : Edge → Rect → Rect → Type 0
Adjacent edge r neighbor =
    (edges_touch edge r neighbor ≡ true)
    × (start_of edge r <ℤ end_of edge neighbor)
    × (start_of edge neighbor <ℤ end_of edge r)

-- A stretch of length `old` lies in one of length `new` at `position`.
abbrev Spans : ℤ → ℕ → ℤ → ℕ → Type 0
Spans start old position new = (position ≤ℤ start) × (start +ℤ pos old ≤ℤ position +ℤ pos new)

attach-Spans :
    (start : ℤ) (old new : ℕ) (position before after : ℤ)
    → old ≤ new
    → Spans start old position new
    → Spans start old
        (if eqb_ℤ start before
          then start
          else if eqb_ℤ (start +ℤ pos old) after
          then after -ℤ pos new
          else position)
        new
attach-Spans start old new position before after h s = ground (
  arith,
  +ℤ_parts start (pos old),
  +ℤ_parts start (pos new),
  -ℤ_parts after (pos new),
  +ℤ_parts (after -ℤ pos new) (pos new),
)

half_shrinks :
    (old new : ℕ)
    → old ≤ new
    → (pos_part (half (pos old -ℤ pos new)) ≡ 0)
      × (neg_part (half (pos old -ℤ pos new)) + old ≤ new)
unfolding half ◌-ℤ◌
half_shrinks old new h = ground arith

centred-Spans :
    (start : ℤ) (old new : ℕ) → old ≤ new → Spans start old (start +ℤ half (pos old -ℤ pos new)) new
centred-Spans start old new h =
    let centre = half (pos old -ℤ pos new) in
    omega (
      arith,
      half_shrinks old new h,
      +ℤ_parts start (pos old),
      +ℤ_parts start centre,
      +ℤ_parts (start +ℤ centre) (pos new),
    )

abbrev beside : Edge → ℤ × ℤ → ℤ
beside Edge.left position = position.1
beside Edge.right position = position.1
beside Edge.top position = position.0
beside Edge.bottom position = position.0

abbrev Covers : Edge → Rect → Size → ℤ × ℤ → Type 0
Covers edge current size position =
    Spans (start_of edge current) (extent edge current.size) (beside edge position)
      (extent edge size)

attach-Covers :
    (edge : Edge) (current : Rect) (size : Size) (position : ℤ × ℤ) (neighbor : Rect)
    → extent edge current.size ≤ extent edge size
    → Covers edge current size position
    → Covers edge current size (attach current size position neighbor)
unfolding attach start_of Rect.right Rect.bottom
attach-Covers Edge.left current size position neighbor h s = attach-Spans _ _ _ _ _ _ h s
attach-Covers Edge.right current size position neighbor h s = attach-Spans _ _ _ _ _ _ h s
attach-Covers Edge.top current size position neighbor h s = attach-Spans _ _ _ _ _ _ h s
attach-Covers Edge.bottom current size position neighbor h s = attach-Spans _ _ _ _ _ _ h s

centred-Covers :
    (edge : Edge) (current : Rect) (size : Size)
    → extent edge current.size ≤ extent edge size
    → Covers edge current size (centred current size)
unfolding centred start_of
centred-Covers Edge.left current size h = centred-Spans _ _ _ h
centred-Covers Edge.right current size h = centred-Spans _ _ _ h
centred-Covers Edge.top current size h = centred-Spans _ _ _ h
centred-Covers Edge.bottom current size h = centred-Spans _ _ _ h

loop-Covers :
    (node : NodeId) (edge : Edge) (current : Rect) (size : Size) (position : ℤ × ℤ)
    (ss : List ScreenPlacement)
    → extent edge current.size ≤ extent edge size
    → Covers edge current size position
    → Covers edge current size (attach_all node current size position ss)
unfolding attach_all
loop-Covers node edge current size position [] h s = s
loop-Covers node edge current size position (other ∷ ss) h s =
    loop-Covers node edge current size
      (if other.node == node then position else attach current size position other.bounds) ss h
      (if-cases (Covers edge current size) (other.node == node) position _ (λ _. s)
        (λ _. attach-Covers edge current size position other.bounds h s))

-- What shares a stretch with the old desktop shares one with the new desktop.
covers-shares :
    (edge : Edge) (current neighbor : Rect) (size : Size) (position : ℤ × ℤ)
    → Covers edge current size position
    → Adjacent edge current neighbor
    → (let r : Rect = record { origin = record { x = position.0; y = position.1 }; size = size } in
        (start_of edge r <ℤ end_of edge neighbor) × (start_of edge neighbor <ℤ end_of edge r))
unfolding start_of Rect.left Rect.top
covers-shares Edge.left current neighbor size position s a = omega (arith, s, a)
covers-shares Edge.right current neighbor size position s a = omega (arith, s, a)
covers-shares Edge.top current neighbor size position s a = omega (arith, s, a)
covers-shares Edge.bottom current neighbor size position s a = omega (arith, s, a)

-- If a desktop takes a layout that is at least as long along one of its edges, and no other desktop has a side
-- on the line of the opposite edge, then whichever desktop is adjacent to it at that edge, with sides on one
-- line that share a stretch, is adjacent to it there still.
pub resize-Adjacent :
    (t after : Topology) (node : NodeId) (layout : DesktopLayout) (edge : Edge)
    (current c : ScreenPlacement)
    → screen t node ≡ some current
    → OneOf c t.screens
    → c.node ≢ node
    → extent edge current.bounds.size ≤ extent edge layout.size
    → Adjacent edge current.bounds c.bounds
    → All (Free node edge current.bounds) t.screens
    → resize_topology_screen t node layout ≡ ok after
    → (resized : ScreenPlacement) × (screen after node ≡ some resized)
      × Adjacent edge resized.bounds c.bounds
unfolding resize_topology_screen
resize-Adjacent t after node layout edge current c here listed apart grown adjacent free h =
    elim (Bool-cases (current.layout == layout)) [
      | inl same ↦
          let unchanged : t ≡ after = ground arith in
          (current, ap (λ u. screen u node) (sym unchanged) ∙ here, adjacent)
      | inr changed ↦
          let begin = centred current.bounds layout.size in
          let position = attach_all node current.bounds layout.size begin t.screens in
          let (arranged, same) = placed t after node layout position (ground arith) in
          let other : (c.node == node) ≡ false = ground (arith, node_eq.eq_iff c.node node) in
          let kept =
            loop_kept node edge current.bounds layout.size begin c t.screens free listed other
              adjacent.0 in
          let covers =
            loop-Covers node edge current.bounds layout.size begin t.screens grown
              (centred-Covers edge current.bounds layout.size grown) in
          let shares =
            covers-shares edge current.bounds c.bounds layout.size position covers adjacent in
          (
            _,
            screen_after t after node (record { x = position.0; y = position.1 }) layout current
                here same,
            (
              kept-touches edge current.bounds c.bounds layout.size position kept adjacent.0,
              shares.0,
              shares.1,
            ),
          )
    ]
