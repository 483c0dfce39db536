-- ===== src/Runtime/Edges/Reaching.antt =====
-- Where an edge leads, and the transitions over it.
use tevir.Prelude.{
  ℕ, ◌<◌, ◌≡◌, refl, sym, ◌∙◌, ap, pos_part, neg_part, subst, ℤ, pos, +ℤ_parts, true, List, [], ◌∷◌,
  All, All-map, All-pair, find-All, find_map, find_map-elim, find_map-none, some, none,
  Option-cases, inl, inr, arith, is_some, ◌==◌,
}
use tevir.Domain.Identity.{NodeId, node_eq}
use tevir.Domain.Geometry.{Point}
use tevir.Domain.Rect
use tevir.Domain.Rect.Pixels.{Disjoint}
use tevir.Domain.Placement.{ScreenPlacement}
use tevir.Domain.Edge.{Edge}
use tevir.Domain.Display.{contains_edge_offset}
use tevir.Domain.Topology.{Topology, Transition, screen, leave, axis_of, try_candidate, transition}
use tevir.Domain.Topology.Checks.{Apart, ScreenOk}
use tevir.Domain.Topology.Accepted.{IsArrangement}
use tevir.Domain.Topology.Crossing.{
  along, behind, Lands, HasArea, OneOf, enter-Lands, transition_lands,
}
use tevir.Runtime.Edges.{adjacent_target, try_adjacent}
use tevir.Runtime.Edges.Segments.{edge_length}
use tevir.Runtime.Edges.Crossing.{exposed_fits, adjacent_enters, entered-adjacent}

OneOf-holds :
    (P : ScreenPlacement → Type 0) (c : ScreenPlacement) (ss : List ScreenPlacement)
    → All P ss
    → OneOf c ss
    → P c
OneOf-holds P c [] a h = absurd h
OneOf-holds P c (s ∷ ss) a h = elim h [
  | inl same ↦ subst P (sym same) a.0
  | inr other ↦ OneOf-holds P c ss a.1 other
]

every-OneOf : (ss : List ScreenPlacement) → All (λ c. OneOf c ss) ss
every-OneOf [] = tt
every-OneOf (s ∷ ss) =
    (inl refl, All-map (λ c. OneOf c ss) (λ c. OneOf c (s ∷ ss)) ss (λ c h. inr h) (every-OneOf ss))

-- Of screens that lie apart, one at most is at a pixel.
Apart-same :
    (ss : List ScreenPlacement) (a b : ScreenPlacement) (p : Point)
    → Apart ss
    → OneOf a ss
    → OneOf b ss
    → Rect.contains a.bounds p ≡ true
    → Rect.contains b.bounds p ≡ true
    → a ≡ b
Apart-same [] a b p apart i j h k = absurd i
Apart-same (s ∷ ss) a b p apart i j h k = elim i [
  | inl here ↦ elim j [
    | inl there ↦ here ∙ sym there
    | inr there ↦ absurd (
        let d = OneOf-holds (λ c. Disjoint s.bounds c.bounds) b ss apart.0 there p in
        ground (arith, d, here))
  ]
  | inr here ↦ elim j [
    | inl there ↦ absurd (
        let d = OneOf-holds (λ c. Disjoint s.bounds c.bounds) a ss apart.0 here p in
        ground (arith, d, there))
    | inr there ↦ Apart-same ss a b p apart.1 here there h k
  ]
]

-- A screen on which a position is a pixel contains that pixel.
Lands-contains :
    (c : ScreenPlacement) (p : Point) (x y : ℤ)
    → Lands c p (x, y)
    → Rect.contains c.bounds (record { x = x; y = y }) ≡ true
unfolding Rect.contains Rect.contains_coordinates Rect.right Rect.bottom
Lands-contains c p x y h = ground (
  arith,
  +ℤ_parts (Rect.left c.bounds) p.x,
  +ℤ_parts (Rect.top c.bounds) p.y,
  +ℤ_parts (Rect.left c.bounds) (pos c.bounds.size.width),
  +ℤ_parts (Rect.top c.bounds) (pos c.bounds.size.height),
  ap pos_part h.1,
  ap neg_part h.1,
  ap pos_part h.2,
  ap neg_part h.2,
)

axis_of-fits :
    (edge : Edge) (s : ScreenPlacement) (offset : ℕ)
    → offset < edge_length edge s.bounds.size
    → axis_of edge s offset ≡ some (along edge s.bounds offset)
unfolding axis_of
axis_of-fits edge s offset h = ground arith

-- A transition from a sound screen is the first that its screens give at the exposed offset.
transition_search :
    (t : Topology) (node : NodeId) (source : ScreenPlacement) (edge : Edge) (offset : ℕ)
    → screen t node ≡ some source
    → ScreenOk source
    → contains_edge_offset source.layout edge offset ≡ true
    → transition t node edge offset
      ≡ find_map (try_candidate edge source (along edge source.bounds offset)) t.screens
unfolding transition leave
transition_search t node source edge offset here source_ok exit =
    ground
      (arith, axis_of-fits edge source offset (exposed_fits source edge offset source_ok exit).0)

pub source_sound :
    (t : Topology) (node : NodeId) (source : ScreenPlacement)
    → IsArrangement t.screens
    → screen t node ≡ some source
    → ScreenOk source
unfolding screen
source_sound t node source a here =
    find-All ScreenOk (λ s. s.node == node) t.screens source here a.sound

-- Two screens that lie apart and are both at the pixel behind an edge are one.
behind_same :
    (ss : List ScreenPlacement) (a b : ScreenPlacement) (p q : Point) (pixel : ℤ × ℤ)
    → Apart ss
    → OneOf a ss
    → OneOf b ss
    → Lands a p pixel
    → Lands b q pixel
    → a ≡ b
behind_same ss a b p q pixel apart i j h k =
    Apart-same ss a b (record { x = pixel.0; y = pixel.1 }) apart i j
      (Lands-contains a p (pixel.0) (pixel.1) h) (Lands-contains b q (pixel.0) (pixel.1) k)

-- A candidate of the search, once it is found adjacent.
found_crosses :
    (t : Topology) (node : NodeId) (source c : ScreenPlacement) (edge : Edge) (target : NodeId)
    (offset : ℕ)
    → All HasArea t.screens
    → IsArrangement t.screens
    → screen t node ≡ some source
    → ScreenOk source
    → OneOf c t.screens
    → try_adjacent edge source c ≡ some (target, offset)
    → (r : Transition) × (transition t node edge offset ≡ some r) × (r.target ≡ target)
found_crosses t node source c edge target offset area a here source_ok one hit =
    let axis = along edge source.bounds offset in
    let c_ok = OneOf-holds ScreenOk c t.screens a.sound one in
    let (named, exit, (p, entered, tried)) =
      adjacent_enters source c edge target offset source_ok c_ok hit in
    let searched = transition_search t node source edge offset here source_ok exit in
    elim (Option-cases (find_map (try_candidate edge source axis) t.screens)) [
      | inl missed ↦ absurd (
          let never =
            OneOf-holds (λ s. try_candidate edge source axis s ≡ none) c t.screens
              (find_map-none (try_candidate edge source axis) t.screens missed) one in
          ground (arith, never, tried))
      | inr (r, e) ↦
          let went = searched ∙ e in
          let reached = transition_lands t node edge offset source r area here went in
          let c_area = OneOf-holds HasArea c t.screens area one in
          let lands = enter-Lands edge source.bounds c axis p c_area.0 c_area.1 entered in
          let same =
            behind_same t.screens reached.entered c r.local_position p
              (behind edge source.bounds axis) a.apart reached.listed one reached.lands lands in
          (r, went, reached.named ∙ ap (λ s. s.node) same ∙ sym named)
    ]

-- Without a position on the edge.
pub adjacent_crosses :
    (t : Topology) (local_node : NodeId) (edge : Edge) (target : NodeId) (offset : ℕ)
    → All HasArea t.screens
    → IsArrangement t.screens
    → adjacent_target t local_node edge ≡ some (target, offset)
    → (r : Transition) × (transition t local_node edge offset ≡ some r) × (r.target ≡ target)
unfolding adjacent_target
adjacent_crosses t local_node edge target offset area a h =
    elim (Option-cases (screen t local_node)) [
      | inl absent ↦ absurd (ground arith)
      | inr (source, here) ↦
          find_map-elim (λ c. OneOf c t.screens) (try_adjacent edge source) t.screens
            (target, offset) (ground arith) (every-OneOf t.screens)
            (λ c one hit.
              found_crosses t local_node source c edge target offset area a here
                (source_sound t local_node source a here) one hit)
    ]

transition_exits :
    (t : Topology) (node : NodeId) (source : ScreenPlacement) (edge : Edge) (offset : ℕ)
    (r : Transition)
    → screen t node ≡ some source
    → transition t node edge offset ≡ some r
    → contains_edge_offset source.layout edge offset ≡ true
unfolding transition leave
transition_exits t node source edge offset r here h = ground arith

-- The other way round: a transition over an edge, at whatever offset, makes the edge lead somewhere.
pub crosses_active :
    (t : Topology) (local_node : NodeId) (edge : Edge) (offset : ℕ) (r : Transition)
    → IsArrangement t.screens
    → transition t local_node edge offset ≡ some r
    → is_some (adjacent_target t local_node edge) ≡ true
unfolding adjacent_target transition
crosses_active t local_node edge offset r a h = elim (Option-cases (screen t local_node)) [
  | inl absent ↦ absurd (ground arith)
  | inr (source, here) ↦ elim (Option-cases (find_map (try_adjacent edge source) t.screens)) [
    | inr (found, e) ↦ ground arith
    | inl missed ↦
        let source_ok = source_sound t local_node source a here in
        let exit = transition_exits t local_node source edge offset r here h in
        let searched = transition_search t local_node source edge offset here source_ok exit in
        absurd (
          find_map-elim (λ c. ScreenOk c × (try_adjacent edge source c ≡ none))
            (try_candidate edge source (along edge source.bounds offset)) t.screens r
            (sym searched ∙ h)
            (All-pair _ _ t.screens a.sound
              (find_map-none (try_adjacent edge source) t.screens missed))
            (λ c known hit.
              entered-adjacent source c edge offset r source_ok known.0 exit hit known.1))
  ]
]
