-- ===== src/Runtime/Resize/Attached.antt =====
-- Which neighbours a resized desktop stays attached to.
use tevir.Prelude.{
  ◌≡◌, ℤ, pos, ◌+ℤ◌, ◌-ℤ◌, +ℤ_parts, -ℤ_parts, eq_of_parts, true, false, not, ◌||◌, subst, List, [],
  ◌∷◌, All, ◌==◌, if◌then◌else◌, arith, inl, inr, Bool-cases,
}
use tevir.Domain.Identity.{NodeId, node_eq}
use tevir.Domain.Geometry.{Size, Rect}
use tevir.Domain.Rect
use tevir.Domain.Placement.{ScreenPlacement}
use tevir.Domain.Edge.{Edge}
use tevir.Domain.Topology.Crossing.{OneOf}
use tevir.Runtime.Edges.{edges_touch, opposite}
use tevir.Runtime.Resize.{layout_eq, attach, attach_all}

-- The position along the axis across an edge at which a desktop of a new size keeps that edge.
abbrev pub kept_at : Edge → Rect → Size → ℤ
kept_at Edge.left current size = Rect.left current
kept_at Edge.right current size = Rect.right current -ℤ pos size.width
kept_at Edge.top current size = Rect.top current
kept_at Edge.bottom current size = Rect.bottom current -ℤ pos size.height

abbrev pub across : Edge → ℤ × ℤ → ℤ
across Edge.left position = position.0
across Edge.right position = position.0
across Edge.top position = position.1
across Edge.bottom position = position.1

-- A neighbour at the edge sets the position; one at neither the edge nor the opposite one leaves it.
attach-kept :
    (edge : Edge) (current : Rect) (size : Size) (position : ℤ × ℤ) (neighbor : Rect)
    → edges_touch edge current neighbor ≡ true
    → edges_touch (opposite edge) current neighbor ≡ false
    → across edge (attach current size position neighbor) ≡ kept_at edge current size
unfolding attach edges_touch opposite
attach-kept Edge.left current size position neighbor h k = ground arith
attach-kept Edge.right current size position neighbor h k =
    ground (arith, eq_of_parts (Rect.left neighbor) (Rect.right current))
attach-kept Edge.top current size position neighbor h k = ground arith
attach-kept Edge.bottom current size position neighbor h k =
    ground (arith, eq_of_parts (Rect.top neighbor) (Rect.bottom current))

attach-left :
    (edge : Edge) (current : Rect) (size : Size) (position : ℤ × ℤ) (neighbor : Rect)
    → edges_touch edge current neighbor ≡ false
    → edges_touch (opposite edge) current neighbor ≡ false
    → across edge (attach current size position neighbor) ≡ across edge position
unfolding attach edges_touch opposite
attach-left edge current size position neighbor h k = ground arith

-- A screen that is the node's own or has no side on the line of the opposite edge.
abbrev pub Free : NodeId → Edge → Rect → ScreenPlacement → Type 0
Free node edge current s =
    (s.node == node || not (edges_touch (opposite edge) current s.bounds)) ≡ true

loop_stays :
    (node : NodeId) (edge : Edge) (current : Rect) (size : Size) (position : ℤ × ℤ)
    (ss : List ScreenPlacement)
    → All (Free node edge current) ss
    → across edge position ≡ kept_at edge current size
    → across edge (attach_all node current size position ss) ≡ kept_at edge current size
unfolding attach_all
loop_stays node edge current size position [] f h = h
loop_stays node edge current size position (s ∷ ss) f h =
    loop_stays node edge current size
      (if s.node == node then position else attach current size position s.bounds) ss f.1
      (elim (Bool-cases (s.node == node)) [
        | inl same ↦ ground arith
        | inr other ↦ elim (Bool-cases (edges_touch edge current s.bounds)) [
          | inl at_edge ↦
              ground (arith, attach-kept edge current size position s.bounds at_edge (ground arith))
          | inr away ↦
              ground (arith, attach-left edge current size position s.bounds away (ground arith))
        ]
      ])

pub loop_kept :
    (node : NodeId) (edge : Edge) (current : Rect) (size : Size) (position : ℤ × ℤ)
    (c : ScreenPlacement) (ss : List ScreenPlacement)
    → All (Free node edge current) ss
    → OneOf c ss
    → (c.node == node) ≡ false
    → edges_touch edge current c.bounds ≡ true
    → across edge (attach_all node current size position ss) ≡ kept_at edge current size
unfolding attach_all
loop_kept node edge current size position c [] f i h k = absurd i
loop_kept node edge current size position c (s ∷ ss) f (inl here) h k =
    let apart : (s.node == node) ≡ false = subst (λ x. (x.node == node) ≡ false) here h in
    let touching : edges_touch edge current s.bounds ≡ true =
      subst (λ x. edges_touch edge current x.bounds ≡ true) here k in
    loop_stays node edge current size
      (if s.node == node then position else attach current size position s.bounds) ss f.1
      (ground (arith, attach-kept edge current size position s.bounds touching (ground arith)))
loop_kept node edge current size position c (s ∷ ss) f (inr there) h k =
    loop_kept node edge current size
      (if s.node == node then position else attach current size position s.bounds) c ss f.1 there h
      k

-- A desktop of the new size at the kept position touches what the old one touched there.
pub kept-touches :
    (edge : Edge) (current neighbor : Rect) (size : Size) (position : ℤ × ℤ)
    → across edge position ≡ kept_at edge current size
    → edges_touch edge current neighbor ≡ true
    → edges_touch edge
        (record { origin = record { x = position.0; y = position.1 }; size = size })
        neighbor
      ≡ true
unfolding edges_touch Rect.left Rect.top Rect.right Rect.bottom
kept-touches Edge.left current neighbor size position h k = ground arith
kept-touches Edge.right current neighbor size position h k = ground (
  arith,
  -ℤ_parts (Rect.left current +ℤ pos current.size.width) (pos size.width),
  +ℤ_parts (position.0) (pos size.width),
  +ℤ_parts (Rect.left current) (pos current.size.width),
)
kept-touches Edge.top current neighbor size position h k = ground arith
kept-touches Edge.bottom current neighbor size position h k = ground (
  arith,
  -ℤ_parts (Rect.top current +ℤ pos current.size.height) (pos size.height),
  +ℤ_parts (position.1) (pos size.height),
  +ℤ_parts (Rect.top current) (pos current.size.height),
)
