-- ===== src/Domain/Rect/Pixels.antt =====
-- The pixels of a rectangle, and rectangles that share none.
use tevir.Prelude.{
  ◌≤◌, ◌≡◌, ◌↔◌, ℤ, pos, ◌≤ℤ◌, ◌<ℤ◌, ltb_ℤ, +ℤ_parts, true, false, ◌&&◌, Bool-cases, inl, inr,
  if◌then◌else◌, arith,
}
use tevir.Domain.Geometry.{Point, Rect}
use tevir.Domain.Rect

-- No pixel of the shared coordinates lies on both rectangles.
abbrev pub Disjoint : Rect → Rect → Type 0
Disjoint a b = (p : Point) → (Rect.contains a p && Rect.contains b p) ≡ false

-- The pixels of a rectangle, by its edges.
abbrev Within : Rect → Point → Type 0
Within r p =
    (Rect.left r ≤ℤ p.x) × (p.x <ℤ Rect.right r) × (Rect.top r ≤ℤ p.y) × (p.y <ℤ Rect.bottom r)

contains-Within : (r : Rect) (p : Point) → Rect.contains r p ≡ true → Within r p
unfolding Rect.contains
contains-Within r p h = ground arith

Within-contains : (r : Rect) (p : Point) → Within r p → Rect.contains r p ≡ true
unfolding Rect.contains
Within-contains r p h = ground arith

-- The rectangles cross on both axes.
abbrev Cross : Rect → Rect → Type 0
Cross a b =
    (Rect.left a <ℤ Rect.right b)
    × (Rect.left b <ℤ Rect.right a)
    × (Rect.top a <ℤ Rect.bottom b)
    × (Rect.top b <ℤ Rect.bottom a)

overlaps-Cross : (a b : Rect) → Rect.overlaps a b ≡ true → Cross a b
unfolding Rect.overlaps
overlaps-Cross a b h = ground arith

Cross-overlaps : (a b : Rect) → Cross a b → Rect.overlaps a b ≡ true
unfolding Rect.overlaps
Cross-overlaps a b h = ground arith

Within-Cross : (a b : Rect) (p : Point) → Within a p → Within b p → Cross a b
Within-Cross a b p h k = omega arith

pub overlaps-Disjoint : (a b : Rect) → Rect.overlaps a b ≡ false → Disjoint a b
overlaps-Disjoint a b h p = elim (Bool-cases (Rect.contains a p && Rect.contains b p)) [
  | inl both ↦
      let crossed = Cross-overlaps a b (
        Within-Cross a b p (contains-Within a p (ground arith))
          (contains-Within b p (ground arith))) in
      cc
  | inr never ↦ never
]

abbrev max_ℤ : ℤ → ℤ → ℤ
max_ℤ a b = if ltb_ℤ a b then b else a

-- Rectangles of positive area that cross share the pixel at the later left and top edges.
Cross-Within :
    (a b : Rect)
    → (1 ≤ a.size.width) × (1 ≤ a.size.height)
    → (1 ≤ b.size.width) × (1 ≤ b.size.height)
    → Cross a b
    → let p : Point = record {
      x = max_ℤ (Rect.left a) (Rect.left b);
      y = max_ℤ (Rect.top a) (Rect.top b);
    } in
      Within a p × Within b p
unfolding Rect.right Rect.bottom
Cross-Within a b h k c = ground (
  arith,
  +ℤ_parts (Rect.left a) (pos a.size.width),
  +ℤ_parts (Rect.top a) (pos a.size.height),
  +ℤ_parts (Rect.left b) (pos b.size.width),
  +ℤ_parts (Rect.top b) (pos b.size.height),
)

pub Disjoint-overlaps :
    (a b : Rect)
    → (1 ≤ a.size.width) × (1 ≤ a.size.height)
    → (1 ≤ b.size.width) × (1 ≤ b.size.height)
    → Disjoint a b
    → Rect.overlaps a b ≡ false
Disjoint-overlaps a b h k d = elim (Bool-cases (Rect.overlaps a b)) [
  | inl hit ↦
      let w = Cross-Within a b h k (overlaps-Cross a b hit) in
      let in_a = Within-contains a _ w.0 in
      let in_b = Within-contains b _ w.1 in
      absurd (
        ground (
          arith,
          d (record { x = max_ℤ (Rect.left a) (Rect.left b); y = max_ℤ (Rect.top a) (Rect.top b) }),
        ))
  | inr miss ↦ miss
]

-- The test of two rectangles of positive area by their edges says no exactly if no pixel lies on both.
pub overlaps_lem :
    (a b : Rect)
    → (1 ≤ a.size.width) × (1 ≤ a.size.height)
    → (1 ≤ b.size.width) × (1 ≤ b.size.height)
    → (Rect.overlaps a b ≡ false) ↔ Disjoint a b
overlaps_lem a b h k = (overlaps-Disjoint a b, Disjoint-overlaps a b h k)
