-- ===== src/Domain/Topology/Crossing.antt =====
-- Where a transition leads: onto another screen, at the pixel just behind the edge.
use tevir.Prelude.{
  ℕ, ◌≤◌, ◌≡◌, ◌≢◌, ℤ, pos, ◌+ℤ◌, ◌-ℤ◌, ◌≤ℤ◌, ◌<ℤ◌, +ℤ_parts, -ℤ_parts, eq_of_parts, none, some,
  List, [], ◌∷◌, All, ◌==◌, find_map, find-holds, Option, Bool, if◌then◌else◌, arith, Option-cases,
  subst, ◌⊎◌, inl, inr, refl,
}
use tevir.Prelude.Optional.{◌>>=◌}
use tevir.Domain.Identity.{NodeId, node_eq}
use tevir.Domain.Geometry.{Point, Size, Rect}
use tevir.Domain.Rect
use tevir.Domain.Edge.{Edge, contains_axis}
use tevir.Domain.Display.{contains_edge_offset}
use tevir.Domain.Placement.{ScreenPlacement}
use tevir.Domain.Topology.{
  Topology, Transition, screen, enter, leave, axis_of, try_candidate, transition,
}

-- The desktop coordinates of the pixel behind an edge, at a crossing point on the axis along it.
abbrev pub behind : Edge → Rect → ℤ → ℤ × ℤ
behind Edge.left r axis = (Rect.left r -ℤ pos 1, axis)
behind Edge.right r axis = (Rect.right r, axis)
behind Edge.top r axis = (axis, Rect.top r -ℤ pos 1)
behind Edge.bottom r axis = (axis, Rect.bottom r)

-- The pixels of a desktop, in its own coordinates.
abbrev pub Inside : Size → Point → Type 0
Inside size p = (pos 0 ≤ℤ p.x) × (p.x <ℤ pos size.width) × (pos 0 ≤ℤ p.y) × (p.y <ℤ pos size.height)

-- A local position of a screen is the given pixel of the desktop coordinates, and on the screen.
abbrev pub Lands : ScreenPlacement → Point → ℤ × ℤ → Type 0
Lands c p (x, y) =
    Inside c.bounds.size p × (Rect.left c.bounds +ℤ p.x ≡ x) × (Rect.top c.bounds +ℤ p.y ≡ y)

pub enter-Lands :
    (edge : Edge) (r : Rect) (c : ScreenPlacement) (axis : ℤ) (p : Point)
    → 1 ≤ c.bounds.size.width
    → 1 ≤ c.bounds.size.height
    → enter edge r c axis ≡ some p
    → Lands c p (behind edge r axis)
unfolding enter contains_axis Rect.right Rect.bottom
enter-Lands Edge.left r c axis p w h e = ground (
  arith,
  -ℤ_parts axis (Rect.top c.bounds),
  +ℤ_parts (Rect.top c.bounds) (pos c.bounds.size.height),
  +ℤ_parts (Rect.left c.bounds) (pos c.bounds.size.width),
  +ℤ_parts (Rect.left c.bounds) p.x,
  +ℤ_parts (Rect.top c.bounds) p.y,
  -ℤ_parts (Rect.left r) (pos 1),
  eq_of_parts (Rect.left c.bounds +ℤ p.x) (Rect.left r -ℤ pos 1),
  eq_of_parts (Rect.top c.bounds +ℤ p.y) axis,
)
enter-Lands Edge.right r c axis p w h e = ground (
  arith,
  -ℤ_parts axis (Rect.top c.bounds),
  +ℤ_parts (Rect.top c.bounds) (pos c.bounds.size.height),
  +ℤ_parts (Rect.left c.bounds) p.x,
  +ℤ_parts (Rect.top c.bounds) p.y,
  +ℤ_parts (Rect.left r) (pos r.size.width),
  eq_of_parts (Rect.left c.bounds +ℤ p.x) (Rect.left r +ℤ pos r.size.width),
  eq_of_parts (Rect.top c.bounds +ℤ p.y) axis,
)
enter-Lands Edge.top r c axis p w h e = ground (
  arith,
  -ℤ_parts axis (Rect.left c.bounds),
  +ℤ_parts (Rect.left c.bounds) (pos c.bounds.size.width),
  +ℤ_parts (Rect.top c.bounds) (pos c.bounds.size.height),
  +ℤ_parts (Rect.left c.bounds) p.x,
  +ℤ_parts (Rect.top c.bounds) p.y,
  -ℤ_parts (Rect.top r) (pos 1),
  eq_of_parts (Rect.top c.bounds +ℤ p.y) (Rect.top r -ℤ pos 1),
  eq_of_parts (Rect.left c.bounds +ℤ p.x) axis,
)
enter-Lands Edge.bottom r c axis p w h e = ground (
  arith,
  -ℤ_parts axis (Rect.left c.bounds),
  +ℤ_parts (Rect.left c.bounds) (pos c.bounds.size.width),
  +ℤ_parts (Rect.left c.bounds) p.x,
  +ℤ_parts (Rect.top c.bounds) p.y,
  +ℤ_parts (Rect.top r) (pos r.size.height),
  eq_of_parts (Rect.top c.bounds +ℤ p.y) (Rect.top r +ℤ pos r.size.height),
  eq_of_parts (Rect.left c.bounds +ℤ p.x) axis,
)

-- The two sides of a screen are at least a pixel long.
abbrev pub HasArea : ScreenPlacement → Type 0
HasArea s = (1 ≤ s.bounds.size.width) × (1 ≤ s.bounds.size.height)

-- The screen `c` is one of a list.
abbrev pub OneOf : ScreenPlacement → List ScreenPlacement → Type 0
OneOf c [] = ⊥
OneOf c (s ∷ ss) = (c ≡ s) ⊎ OneOf c ss

-- A transition from a screen of `screens` by a pixel behind its edge.
pub record Reaches (screens : List ScreenPlacement) (source : NodeId) (pixel : ℤ × ℤ)
    (t : Transition) : Type 0 where
  pub entered : ScreenPlacement
  pub listed : OneOf entered screens
  pub named : t.target ≡ entered.node
  pub other : t.target ≢ source
  pub lands : Lands entered t.local_position pixel

later :
    (s : ScreenPlacement) (ss : List ScreenPlacement) (source : NodeId) (pixel : ℤ × ℤ)
    (t : Transition)
    → Reaches ss source pixel t
    → Reaches (s ∷ ss) source pixel t
later s ss source pixel t r = record {
  entered = r.entered;
  listed = inr r.listed;
  named = r.named;
  other = r.other;
  lands = r.lands;
}

first :
    (edge : Edge) (source c : ScreenPlacement) (ss : List ScreenPlacement) (axis : ℤ)
    (t : Transition)
    → HasArea c
    → try_candidate edge source axis c ≡ some t
    → Reaches (c ∷ ss) source.node (behind edge source.bounds axis) t
unfolding try_candidate
first edge source c ss axis t (w, h) e =
    let lands = enter-Lands edge source.bounds c axis t.local_position w h in
    record {
      entered = c;
      listed = inl refl;
      named = ground arith;
      other = ground (arith, node_eq.eq_iff c.node source.node);
      lands = lands (ground arith);
    }

search-Reaches :
    (edge : Edge) (source : ScreenPlacement) (axis : ℤ) (screens : List ScreenPlacement)
    (t : Transition)
    → All HasArea screens
    → find_map (try_candidate edge source axis) screens ≡ some t
    → Reaches screens source.node (behind edge source.bounds axis) t
unfolding find_map
search-Reaches edge source axis [] t area e = absurd (ground arith)
search-Reaches edge source axis (c ∷ cs) t area e =
    elim (Option-cases (try_candidate edge source axis c)) [
      | inl missed ↦
          later c cs source.node _ t (search-Reaches edge source axis cs t area.1 (ground arith))
      | inr (t', hit) ↦
          subst (Reaches (c ∷ cs) source.node (behind edge source.bounds axis)) (ground arith)
            (first edge source c cs axis t' area.0 hit)
    ]

-- The crossing point on the axis along an edge, at an offset from the edge's start.
abbrev pub along : Edge → Rect → ℕ → ℤ
along Edge.left r offset = Rect.top r +ℤ pos offset
along Edge.right r offset = Rect.top r +ℤ pos offset
along Edge.top r offset = Rect.left r +ℤ pos offset
along Edge.bottom r offset = Rect.left r +ℤ pos offset

axis_of-along :
    (edge : Edge) (s : ScreenPlacement) (offset : ℕ) (axis : ℤ)
    → axis_of edge s offset ≡ some axis
    → axis ≡ along edge s.bounds offset
unfolding axis_of
axis_of-along edge s offset axis e = ground arith

screen-node :
    (t : Topology) (node : NodeId) (s : ScreenPlacement) → screen t node ≡ some s → s.node ≡ node
unfolding screen
screen-node t node s e =
    ground (arith, find-holds (λ c. c.node == node) t.screens s e, node_eq.eq_iff s.node node)

taken :
    (b : Bool) (o : Option Transition) (r : Transition)
    → (if b then o else none) ≡ some r
    → o ≡ some r
taken b o r e = ground arith

from_source :
    (t : Topology) (source : ScreenPlacement) (edge : Edge) (offset : ℕ) (o : Option ℤ)
    (r : Transition)
    → axis_of edge source offset ≡ o
    → All HasArea t.screens
    → (o >>= λ axis. find_map (try_candidate edge source axis) t.screens) ≡ some r
    → Reaches t.screens source.node (behind edge source.bounds (along edge source.bounds offset)) r
from_source t source edge offset none r e area h = absurd (ground arith)
from_source t source edge offset (some axis) r e area h =
    subst (λ x. Reaches t.screens source.node (behind edge source.bounds x) r)
      (axis_of-along edge source offset axis e) (search-Reaches edge source axis t.screens r area h)

-- In a topology whose screens have no empty side, a transition from a node's screen leads to another
-- node that has a screen there, at a position inside that screen's desktop, and that position is, in
-- the coordinates that the screens share, the pixel directly behind the crossed edge at the given
-- offset along it.
pub transition_lands :
    (t : Topology) (current : NodeId) (edge : Edge) (offset : ℕ) (source : ScreenPlacement)
    (r : Transition)
    → All HasArea t.screens
    → screen t current ≡ some source
    → transition t current edge offset ≡ some r
    → Reaches t.screens current (behind edge source.bounds (along edge source.bounds offset)) r
unfolding transition leave
transition_lands t current edge offset source r area here e =
    subst (λ n. Reaches t.screens n (behind edge source.bounds (along edge source.bounds offset)) r)
      (screen-node t current source here)
      (from_source t source edge offset (axis_of edge source offset) r refl area (
        taken (contains_edge_offset source.layout edge offset) _ r
          (subst (λ o. (o >>= leave t edge offset) ≡ some r) here e)))
