-- ===== src/Runtime/Resize/Kept.antt =====
-- What a resized desktop changes of the topology, and what it keeps.
use tevir.Prelude.{
  ◌≡◌, ◌≢◌, refl, sym, ◌∙◌, ap, subst, ℤ, some, List, [], ◌∷◌, map, ok, find, ◌==◌, Bool-cases,
  Option-cases, inl, inr, arith, to_i32,
}
use tevir.Domain.Identity.{NodeId, node_eq}
use tevir.Domain.Geometry.{Point}
use tevir.Domain.Display.{DesktopLayout}
use tevir.Domain.Placement.{ScreenPlacement}
use tevir.Domain.Topology.{Topology, new, screen}
use tevir.Domain.Topology.Accepted.{IsArrangement, accepted-IsArrangement}
use tevir.Runtime.Edges.Reaching.{source_sound}
use tevir.Runtime.Resize.{layout_eq, replace, place, centred, attach_all, resize_topology_screen}

-- The screens of other nodes are found as before, and the node's own with its new layout.
find_other :
    (node other : NodeId) (origin : Point) (layout : DesktopLayout) (ss : List ScreenPlacement)
    → other ≢ node
    → find (λ s. s.node == other) (map (replace node origin layout) ss)
      ≡ find (λ s. s.node == other) ss
unfolding find replace
find_other node other origin layout [] h = refl
find_other node other origin layout (s ∷ ss) h = ground (
  arith,
  find_other node other origin layout ss h,
  node_eq.eq_iff s.node node,
  node_eq.eq_iff s.node other,
)

find_node :
    (node : NodeId) (origin : Point) (layout : DesktopLayout) (ss : List ScreenPlacement)
    (c : ScreenPlacement)
    → find (λ s. s.node == node) ss ≡ some c
    → find (λ s. s.node == node) (map (replace node origin layout) ss)
      ≡ some (record {
        node = c.node;
        bounds = record { origin = origin; size = layout.size };
        layout = layout;
      })
unfolding find replace
find_node node origin layout [] c h = absurd (ground arith)
find_node node origin layout (s ∷ ss) c h = elim (Bool-cases (s.node == node)) [
  | inl same ↦ ground arith
  | inr other ↦ ground (arith, find_node node origin layout ss c)
]

-- A node's screen in a topology, with a given layout.
pub record Resized (after : Topology) (node : NodeId) (layout : DesktopLayout) : Type 0 where
  pub resized : ScreenPlacement
  pub found : screen after node ≡ some resized
  pub laid_out : resized.layout ≡ layout
  pub sized : resized.bounds.size ≡ layout.size

-- The node's screen among the replaced ones.
pub screen_after :
    (t after : Topology) (node : NodeId) (origin : Point) (layout : DesktopLayout)
    (current : ScreenPlacement)
    → screen t node ≡ some current
    → after.screens ≡ map (replace node origin layout) t.screens
    → screen after node
      ≡ some (record {
        node = current.node;
        bounds = record { origin = origin; size = layout.size };
        layout = layout;
      })
unfolding screen
screen_after t after node origin layout current here same =
    ap (find (λ s. s.node == node)) same ∙ find_node node origin layout t.screens current here

screens-Resized :
    (t after : Topology) (node other : NodeId) (origin : Point) (layout : DesktopLayout)
    (current : ScreenPlacement)
    → other ≢ node
    → screen t node ≡ some current
    → after.screens ≡ map (replace node origin layout) t.screens
    → Resized after node layout × (screen after other ≡ screen t other)
unfolding screen
screens-Resized t after node other origin layout current h here same = (
  record {
    resized = record {
      node = current.node;
      bounds = record { origin = origin; size = layout.size };
      layout = layout;
    };
    found = screen_after t after node origin layout current here same;
    laid_out = refl;
    sized = refl;
  },
  ap (find (λ s. s.node == other)) same ∙ find_other node other origin layout t.screens h,
)

-- A position that was taken gives the screens of the topology after it.
pub placed :
    (t after : Topology) (node : NodeId) (layout : DesktopLayout) (position : ℤ × ℤ)
    → place t node layout position ≡ ok after
    → IsArrangement after.screens
      × (after.screens
          ≡ map (replace node (record { x = position.0; y = position.1 }) layout) t.screens)
unfolding place
placed t after node layout position h = elim (Option-cases (to_i32 (position.0))) [
  | inl low ↦ absurd (ground arith)
  | inr (x, ex) ↦ elim (Option-cases (to_i32 (position.1))) [
    | inl low ↦ absurd (ground arith)
    | inr (y, ey) ↦
        let origin : Point = record { x = x; y = y } in
        let accepted : new (map (replace node origin layout) t.screens) ≡ ok after = ground arith in
        let arranged =
          accepted-IsArrangement (map (replace node origin layout) t.screens) after accepted in
        let there : origin ≡ record { x = position.0; y = position.1 } = ground arith in
        (
          subst IsArrangement (sym arranged.0) arranged.1,
          arranged.0 ∙ ap (λ o. map (replace node o layout) t.screens) there,
        )
  ]
]

-- If a node's screen in an arrangement takes a new layout, then the topology after it is an arrangement
-- again, in which the node's screen has that layout and its size, and another node the screen that it
-- had, if it had one.
pub resize_lem :
    (t after : Topology) (node other : NodeId) (layout : DesktopLayout)
    → IsArrangement t.screens
    → other ≢ node
    → resize_topology_screen t node layout ≡ ok after
    → IsArrangement after.screens
      × Resized after node layout
      × (screen after other ≡ screen t other)
unfolding resize_topology_screen
resize_lem t after node other layout a apart h = elim (Option-cases (screen t node)) [
  | inl absent ↦ absurd (ground arith)
  | inr (current, here) ↦ elim (Bool-cases (current.layout == layout)) [
    | inr changed ↦
        let position =
          attach_all node current.bounds layout.size (centred current.bounds layout.size)
            t.screens in
        let (arranged, same) = placed t after node layout position (ground arith) in
        let (taken, kept) =
          screens-Resized t after node other (record { x = position.0; y = position.1 }) layout
            current apart here same in
        (arranged, taken, kept)
    | inl same ↦
        let unchanged : t ≡ after = ground arith in
        let equal = (layout_eq.eq_iff current.layout layout).0 same in
        subst
          (λ u. IsArrangement u.screens × Resized u node layout × (screen u other ≡ screen t other))
          unchanged
          (
            a,
            record {
              resized = current;
              found = here;
              laid_out = equal;
              sized = sym (source_sound t node current a here).filled ∙ ap (λ l. l.size) equal;
            },
            refl,
          )
  ]
]
