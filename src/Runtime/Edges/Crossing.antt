-- ===== src/Runtime/Edges/Crossing.antt =====
-- Offsets that two screens share, and the transitions of the topology.
use tevir.Prelude.{
  ◌∙◌, Option-cases, inl, inr, ◌-◌, ap, pos_part, neg_part, ℕ, ◌+◌, ◌≤◌, ◌<◌, ◌≡◌, sym, pos, ◌+ℤ◌,
  ◌-ℤ◌, +ℤ_parts, -ℤ_parts, true, any, i32_max, some, none, arith, to_u32,
}
use tevir.Domain.Identity.{NodeId, node_eq}
use tevir.Domain.Geometry.{Point}
use tevir.Domain.Rect
use tevir.Domain.Placement.{ScreenPlacement}
use tevir.Domain.Edge.{Edge, contains_axis}
use tevir.Domain.Display.{edge_segments, contains_edge_offset}
use tevir.Domain.Topology.{Transition, enter, try_candidate}
use tevir.Domain.Topology.Checks.{ScreenOk}
use tevir.Domain.Topology.Crossing.{along}
use tevir.Runtime.Edges.{edges_touch, opposite, start_of, try_adjacent, shared_edge_offset}
use tevir.Runtime.Edges.Segments.{within, edge_length, exposed_below, exposed_segments}
use tevir.Runtime.Edges.Midpoint.{to_u32-some}
use tevir.Runtime.Edges.Facing.{shared-Facing, none-Facing}

-- Of a sound screen, the offsets of an edge lie before its end, and are those in its segments.
pub exposed_fits :
    (s : ScreenPlacement) (edge : Edge) (offset : ℕ)
    → ScreenOk s
    → contains_edge_offset s.layout edge offset ≡ true
    → (offset < edge_length edge s.bounds.size) × (edge_length edge s.bounds.size ≤ i32_max + 1)
exposed_fits s edge offset o h = ground (
  arith,
  exposed_below s.layout edge offset o.layout_valid h,
  o.filled,
  o.width_fits,
  o.height_fits,
)

pub exposed_by :
    (s : ScreenPlacement) (edge : Edge) (offset : ℕ)
    → ScreenOk s
    → contains_edge_offset s.layout edge offset ≡ any (within offset) (edge_segments s.layout edge)
exposed_by s edge offset o =
    exposed_segments s.layout edge offset o.layout_valid
      (ground (arith, o.filled, o.width_fits, o.height_fits))

enter_at :
    (source c : ScreenPlacement) (edge : Edge) (offset j : ℕ)
    → edges_touch edge source.bounds c.bounds ≡ true
    → pos j ≡ start_of edge source.bounds +ℤ pos offset -ℤ start_of edge c.bounds
    → contains_edge_offset c.layout (opposite edge) j ≡ true
    → (j < edge_length (opposite edge) c.bounds.size)
      × (c.bounds.size.width ≤ i32_max + 1)
      × (c.bounds.size.height ≤ i32_max + 1)
    → (p : Point) × (enter edge source.bounds c (along edge source.bounds offset) ≡ some p)
unfolding enter contains_axis edges_touch opposite start_of Rect.right Rect.bottom
enter_at source c Edge.left offset j touching e h k = (
  record { x = pos (c.bounds.size.width - 1); y = pos j },
  ground (
    arith,
    e,
    ap pos_part e,
    ap neg_part e,
    +ℤ_parts (Rect.top c.bounds) (pos c.bounds.size.height),
    -ℤ_parts (Rect.top source.bounds +ℤ pos offset) (Rect.top c.bounds),
  ),
)
enter_at source c Edge.right offset j touching e h k = (
  record { x = pos 0; y = pos j },
  ground (
    arith,
    e,
    ap pos_part e,
    ap neg_part e,
    +ℤ_parts (Rect.top c.bounds) (pos c.bounds.size.height),
    -ℤ_parts (Rect.top source.bounds +ℤ pos offset) (Rect.top c.bounds),
  ),
)
enter_at source c Edge.top offset j touching e h k = (
  record { x = pos j; y = pos (c.bounds.size.height - 1) },
  ground (
    arith,
    e,
    ap pos_part e,
    ap neg_part e,
    +ℤ_parts (Rect.left c.bounds) (pos c.bounds.size.width),
    -ℤ_parts (Rect.left source.bounds +ℤ pos offset) (Rect.left c.bounds),
  ),
)
enter_at source c Edge.bottom offset j touching e h k = (
  record { x = pos j; y = pos 0 },
  ground (
    arith,
    e,
    ap pos_part e,
    ap neg_part e,
    +ℤ_parts (Rect.left c.bounds) (pos c.bounds.size.width),
    -ℤ_parts (Rect.left source.bounds +ℤ pos offset) (Rect.left c.bounds),
  ),
)

-- What a successful `enter` has tested.
pub enter_tests :
    (source c : ScreenPlacement) (edge : Edge) (offset : ℕ) (p : Point)
    → enter edge source.bounds c (along edge source.bounds offset) ≡ some p
    → (edges_touch edge source.bounds c.bounds ≡ true)
      × ((j : ℕ) × (pos j ≡ start_of edge source.bounds +ℤ pos offset -ℤ start_of edge c.bounds)
          × (contains_edge_offset c.layout (opposite edge) j ≡ true))
unfolding enter contains_axis edges_touch opposite start_of
enter_tests source c Edge.left offset p h =
    elim (Option-cases (to_u32 (Rect.top source.bounds +ℤ pos offset -ℤ Rect.top c.bounds))) [
      | inl failed ↦ absurd (ground arith)
      | inr (j, e) ↦ (ground arith, (j, sym (to_u32-some _ j e), ground arith))
    ]
enter_tests source c Edge.right offset p h =
    elim (Option-cases (to_u32 (Rect.top source.bounds +ℤ pos offset -ℤ Rect.top c.bounds))) [
      | inl failed ↦ absurd (ground arith)
      | inr (j, e) ↦ (ground arith, (j, sym (to_u32-some _ j e), ground arith))
    ]
enter_tests source c Edge.top offset p h =
    elim (Option-cases (to_u32 (Rect.left source.bounds +ℤ pos offset -ℤ Rect.left c.bounds))) [
      | inl failed ↦ absurd (ground arith)
      | inr (j, e) ↦ (ground arith, (j, sym (to_u32-some _ j e), ground arith))
    ]
enter_tests source c Edge.bottom offset p h =
    elim (Option-cases (to_u32 (Rect.left source.bounds +ℤ pos offset -ℤ Rect.left c.bounds))) [
      | inl failed ↦ absurd (ground arith)
      | inr (j, e) ↦ (ground arith, (j, sym (to_u32-some _ j e), ground arith))
    ]

-- A screen that is adjacent by a shared offset is entered by a transition at that offset.
pub adjacent_enters :
    (source c : ScreenPlacement) (edge : Edge) (target : NodeId) (offset : ℕ)
    → ScreenOk source
    → ScreenOk c
    → try_adjacent edge source c ≡ some (target, offset)
    → (target ≡ c.node)
      × (contains_edge_offset source.layout edge offset ≡ true)
      × ((p : Point) × (enter edge source.bounds c (along edge source.bounds offset) ≡ some p)
          × (try_candidate edge source (along edge source.bounds offset) c
              ≡ some (record { target = c.node; local_position = p })))
unfolding try_adjacent try_candidate
adjacent_enters source c edge target offset source_ok c_ok h =
    elim (Option-cases (shared_edge_offset source c edge)) [
      | inl missed ↦ absurd (ground arith)
      | inr (offset', e) ↦
          let same : offset' ≡ offset = ground arith in
          let shared : shared_edge_offset source c edge ≡ some offset = ground arith in
          let (touching, (j, f)) = shared-Facing source c edge offset shared in
          let exit = exposed_by source edge offset source_ok ∙ f.exit in
          let entry = exposed_by c (opposite edge) j c_ok ∙ f.entry in
          let (p, entered) =
            enter_at source c edge offset j touching f.same_pixel entry (
              (exposed_fits c (opposite edge) j c_ok entry).0,
              c_ok.width_fits,
              c_ok.height_fits,
            ) in
          (ground arith, exit, (p, entered, ground arith))
    ]

-- A screen that a transition enters is adjacent.
pub entered-adjacent :
    (source c : ScreenPlacement) (edge : Edge) (offset : ℕ) (r : Transition)
    → ScreenOk source
    → ScreenOk c
    → contains_edge_offset source.layout edge offset ≡ true
    → try_candidate edge source (along edge source.bounds offset) c ≡ some r
    → try_adjacent edge source c ≡ none
    → ⊥
unfolding try_adjacent try_candidate
entered-adjacent source c edge offset r source_ok c_ok exit h missed =
    elim (Option-cases (enter edge source.bounds c (along edge source.bounds offset))) [
      | inl failed ↦ absurd (ground arith)
      | inr (p, e) ↦
          let (touching, (j, same, entry)) = enter_tests source c edge offset p e in
          none-Facing source c edge offset j touching (ground arith) (record {
            same_pixel = same;
            exit = sym (exposed_by source edge offset source_ok) ∙ exit;
            entry = sym (exposed_by c (opposite edge) j c_ok) ∙ entry;
          })
    ]
