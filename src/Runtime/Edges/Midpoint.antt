-- ===== src/Runtime/Edges/Midpoint.antt =====
-- The pixels that two segments share, and the middle of them.
use tevir.Prelude.{
  ap, pos_part, neg_part, ℕ, ◌/◌, ◌≤◌, ◌<◌, ◌≡◌, refl, ℤ, pos, negsuc, ◌≤ℤ◌, ◌<ℤ◌, ◌+ℤ◌, ◌-ℤ◌,
  +ℤ_parts, -ℤ_parts, true, ◌&&◌, u32_max, some, none, arith, to_u32,
}
use tevir.Runtime.Edges.{half, max_ℤ, min_ℤ, shared_midpoint}
use tevir.Runtime.Edges.Segments.{within}

-- The middle of a range that has a pixel is in the range.
Middle : ℤ → ℤ → ℤ → Type 0
Middle lo hi d = (lo ≤ℤ lo +ℤ half d) × (lo +ℤ half d <ℤ hi)

Middle-of : (lo hi d : ℤ) → d ≡ hi -ℤ lo -ℤ pos 1 → lo <ℤ hi → Middle lo hi d
unfolding half Middle
Middle-of lo hi (pos n) e h = omega (
  arith,
  +ℤ_parts lo (pos (n / 2)),
  -ℤ_parts hi lo,
  -ℤ_parts (hi -ℤ lo) (pos 1),
  ap pos_part e,
  ap neg_part e,
)
Middle-of lo hi (negsuc n) e h =
    absurd
      (omega (arith, ap pos_part e, ap neg_part e, -ℤ_parts hi lo, -ℤ_parts (hi -ℤ lo) (pos 1)))

midpoint : ℤ → ℤ → ℤ
midpoint lo hi = lo +ℤ half (hi -ℤ lo -ℤ pos 1)

midpoint_bounds : (lo hi : ℤ) → lo <ℤ hi → (lo ≤ℤ midpoint lo hi) × (midpoint lo hi <ℤ hi)
unfolding midpoint Middle
midpoint_bounds lo hi h = Middle-of lo hi (hi -ℤ lo -ℤ pos 1) refl h

pub to_u32-some : (x : ℤ) (n : ℕ) → to_u32 x ≡ some n → x ≡ pos n
to_u32-some x n h = ground arith

to_u32-none : (x : ℤ) → to_u32 x ≡ none → (pos 0 ≤ℤ x) × (x ≤ℤ pos u32_max) → ⊥
to_u32-none x h k = ground arith

max_bounds : (x y : ℤ) → (x ≤ℤ max_ℤ x y) × (y ≤ℤ max_ℤ x y)
unfolding max_ℤ
max_bounds x y = ground arith

min_bounds : (x y : ℤ) → (min_ℤ x y ≤ℤ x) × (min_ℤ x y ≤ℤ y)
unfolding min_ℤ
min_bounds x y = ground arith

max_least : (x y z : ℤ) → x ≤ℤ z → y ≤ℤ z → max_ℤ x y ≤ℤ z
unfolding max_ℤ
max_least x y z h k = ground arith

min_greatest : (x y z : ℤ) → z <ℤ x → z <ℤ y → z <ℤ min_ℤ x y
unfolding min_ℤ
min_greatest x y z h k = ground arith

-- What two segments share, from the start of it to its end.
from : ℤ → ℤ → ℕ × ℕ → ℕ × ℕ → ℤ
from s c a b = max_ℤ (s +ℤ pos (a.0)) (c +ℤ pos (b.0))

to : ℤ → ℤ → ℕ × ℕ → ℕ × ℕ → ℤ
to s c a b = min_ℤ (s +ℤ pos (a.1)) (c +ℤ pos (b.1))

pub Shared : ℤ → ℤ → ℕ × ℕ → ℕ × ℕ → ℤ → Type 0
Shared s c a b x = (from s c a b ≤ℤ x) × (x <ℤ to s c a b)

pub Shared-within :
    (s c : ℤ) (a b : ℕ × ℕ) (offset j : ℕ)
    → pos j ≡ s +ℤ pos offset -ℤ c
    → Shared s c a b (s +ℤ pos offset)
    → (within offset a ≡ true) × (within j b ≡ true)
unfolding Shared from to
Shared-within s c a b offset j e h =
    let up = max_bounds (s +ℤ pos (a.0)) (c +ℤ pos (b.0)) in
    let down = min_bounds (s +ℤ pos (a.1)) (c +ℤ pos (b.1)) in
    let facts : (a.0 ≤ offset) × (offset < a.1) × (b.0 ≤ j) × (j < b.1) = omega (
      arith,
      up,
      down,
      +ℤ_parts s (pos (a.0)),
      +ℤ_parts s (pos (a.1)),
      +ℤ_parts c (pos (b.0)),
      +ℤ_parts c (pos (b.1)),
      +ℤ_parts s (pos offset),
      -ℤ_parts (s +ℤ pos offset) c,
      ap pos_part e,
      ap neg_part e,
    ) in
    (ground arith, ground arith)

pub within-Shared :
    (s c : ℤ) (a b : ℕ × ℕ) (offset j : ℕ)
    → pos j ≡ s +ℤ pos offset -ℤ c
    → (within offset a && within j b) ≡ true
    → Shared s c a b (s +ℤ pos offset)
unfolding Shared from to
within-Shared s c a b offset j e h =
    let facts : (a.0 ≤ offset) × (offset < a.1) × (b.0 ≤ j) × (j < b.1) = ground arith in
    let bounds : (s +ℤ pos (a.0) ≤ℤ s +ℤ pos offset)
        × (c +ℤ pos (b.0) ≤ℤ s +ℤ pos offset)
        × (s +ℤ pos offset <ℤ s +ℤ pos (a.1))
        × (s +ℤ pos offset <ℤ c +ℤ pos (b.1)) =
      omega (
        arith,
        +ℤ_parts s (pos (a.0)),
        +ℤ_parts s (pos (a.1)),
        +ℤ_parts c (pos (b.0)),
        +ℤ_parts c (pos (b.1)),
        +ℤ_parts s (pos offset),
        -ℤ_parts (s +ℤ pos offset) c,
        ap pos_part e,
        ap neg_part e,
      ) in
    (
      max_least (s +ℤ pos (a.0)) (c +ℤ pos (b.0)) (s +ℤ pos offset) bounds.0 bounds.1,
      min_greatest (s +ℤ pos (a.1)) (c +ℤ pos (b.1)) (s +ℤ pos offset) bounds.2 bounds.3,
    )

-- The middle of what two segments share is on both.
pub midpoint_Shared :
    (s c : ℤ) (a b : ℕ × ℕ) (offset : ℕ)
    → shared_midpoint s c a b ≡ some offset
    → Shared s c a b (s +ℤ pos offset)
unfolding shared_midpoint midpoint Shared from to
midpoint_Shared s c a b offset h =
    let m = midpoint (from s c a b) (to s c a b) in
    let passed : (from s c a b <ℤ to s c a b) × (to_u32 (m -ℤ s) ≡ some offset) = ground arith in
    let x = to_u32-some (m -ℤ s) offset passed.1 in
    omega (
      arith,
      midpoint_bounds (from s c a b) (to s c a b) passed.0,
      -ℤ_parts m s,
      +ℤ_parts s (pos offset),
      ap pos_part x,
      ap neg_part x,
    )

-- Two segments without a middle share no pixel.
pub none-Shared :
    (s c : ℤ) (a b : ℕ × ℕ) (x : ℤ)
    → a.1 ≤ u32_max
    → shared_midpoint s c a b ≡ none
    → Shared s c a b x
    → ⊥
unfolding shared_midpoint midpoint Shared from to
none-Shared s c a b x bound h k =
    let m = midpoint (from s c a b) (to s c a b) in
    let wide : from s c a b <ℤ to s c a b = omega (arith, k) in
    let failed : to_u32 (m -ℤ s) ≡ none = ground arith in
    let inside = midpoint_bounds (from s c a b) (to s c a b) wide in
    to_u32-none (m -ℤ s) failed (
      omega (
        arith,
        inside,
        max_bounds (s +ℤ pos (a.0)) (c +ℤ pos (b.0)),
        min_bounds (s +ℤ pos (a.1)) (c +ℤ pos (b.1)),
        +ℤ_parts s (pos (a.0)),
        +ℤ_parts s (pos (a.1)),
        -ℤ_parts m s,
      ))

pub natural : (x : ℤ) → pos 0 ≤ℤ x → (n : ℕ) × (pos n ≡ x)
natural (pos n) h = (n, refl)
natural (negsuc n) h = absurd (omega arith)

-- The pixel at a shared offset has an offset on the other screen's edge, too.
pub other_offset :
    (s c : ℤ) (a b : ℕ × ℕ) (offset : ℕ)
    → Shared s c a b (s +ℤ pos offset)
    → (j : ℕ) × (pos j ≡ s +ℤ pos offset -ℤ c)
unfolding Shared from
other_offset s c a b offset h = natural (s +ℤ pos offset -ℤ c) (
    omega (
      arith,
      max_bounds (s +ℤ pos (a.0)) (c +ℤ pos (b.0)),
      +ℤ_parts c (pos (b.0)),
      -ℤ_parts (s +ℤ pos offset) c,
    ))
