-- ===== src/Domain/Topology/Checks.antt =====
-- What the two loops of `Topology::new` over the screens let pass.
use tevir.Prelude.{
  ◌+◌, ◌≤◌, ◌≡◌, ◌≢◌, refl, pos, ◌≤ℤ◌, false, none, List, [], ◌∷◌, ok, All, any, i32_max, ◌==◌,
  arith, All-map, All-pair, find-none, none-find,
}
use tevir.Domain.Identity.{NodeId, node_eq}
use tevir.Domain.Geometry.{Rect, size_eq}
use tevir.Domain.Rect
use tevir.Domain.Rect.Pixels.{Disjoint, overlaps-Disjoint, Disjoint-overlaps}
use tevir.Domain.Topology.Crossing.{HasArea}
use tevir.Domain.Display.{validate}
use tevir.Domain.Placement.{ScreenPlacement}
use tevir.Domain.Topology.{first_duplicate, overflows, check_screens}

-- The screens of a list lie apart.
abbrev pub Apart : List ScreenPlacement → Type 0
Apart [] = Unit
Apart (s ∷ ss) = All (λ c. Disjoint s.bounds c.bounds) ss × Apart ss

-- No two screens of a list belong to one node.
abbrev pub DistinctNodes : List ScreenPlacement → Type 0
DistinctNodes [] = Unit
DistinctNodes (s ∷ ss) = All (λ c. c.node ≢ s.node) ss × DistinctNodes ss

-- The layout of a screen is valid and fills it, and its coordinates stay within an `i32`.
pub record ScreenOk (s : ScreenPlacement) : Type 0 where
  pub layout_valid : validate s.layout ≡ ok tt
  pub filled : s.layout.size ≡ s.bounds.size
  pub width_fits : s.bounds.size.width ≤ i32_max + 1
  pub height_fits : s.bounds.size.height ≤ i32_max + 1
  pub right_fits : Rect.right s.bounds ≤ℤ pos (i32_max + 1)
  pub bottom_fits : Rect.bottom s.bounds ≤ℤ pos (i32_max + 1)

-- The loop over the nodes finds no duplicate exactly if none is in the set or in the list twice.
abbrev pub New : List NodeId → ScreenPlacement → Type 0
New nodes c = any (λ n. n == c.node) nodes ≡ false

pub none-Distinct :
    (nodes : List NodeId) (ss : List ScreenPlacement)
    → first_duplicate nodes ss ≡ none
    → All (New nodes) ss × DistinctNodes ss
unfolding first_duplicate any
none-Distinct nodes [] h = (tt, tt)
none-Distinct nodes (s ∷ ss) h =
    let rest = none-Distinct (s.node ∷ nodes) ss (ground arith) in
    (
      (ground arith, All-map (New (s.node ∷ nodes)) (New nodes) ss (λ c k. ground arith) rest.0),
      (
        All-map (New (s.node ∷ nodes)) (λ c. c.node ≢ s.node) ss
            (λ c k e. ground (arith, node_eq.eq_iff s.node c.node)) rest.0,
        rest.1,
      ),
    )

pub Distinct-none :
    (nodes : List NodeId) (ss : List ScreenPlacement)
    → All (New nodes) ss
    → DistinctNodes ss
    → first_duplicate nodes ss ≡ none
unfolding first_duplicate any
Distinct-none nodes [] n d = refl
Distinct-none nodes (s ∷ ss) n d =
    let more =
      All-map (λ c. New nodes c × (c.node ≢ s.node)) (New (s.node ∷ nodes)) ss
        (λ c k. ground (arith, node_eq.eq_iff s.node c.node)) (All-pair _ _ ss n.1 d.0) in
    ground (arith, Distinct-none (s.node ∷ nodes) ss more d.1)

pub New-nil : (ss : List ScreenPlacement) → All (New []) ss
unfolding any
New-nil [] = tt
New-nil (s ∷ ss) = (refl, New-nil ss)

fits :
    (b : Rect)
    → overflows b ≡ false
    → (b.size.width ≤ i32_max + 1)
      × (b.size.height ≤ i32_max + 1)
      × (Rect.right b ≤ℤ pos (i32_max + 1))
      × (Rect.bottom b ≤ℤ pos (i32_max + 1))
unfolding overflows
fits b h = ground arith

overflows_not : (s : ScreenPlacement) → ScreenOk s → overflows s.bounds ≡ false
unfolding overflows
overflows_not s o = ground (arith, o.width_fits, o.height_fits, o.right_fits, o.bottom_fits)

-- The second loop passes exactly the sound screens that lie apart.
pub check_screens-ok :
    (ss : List ScreenPlacement) → check_screens ss ≡ ok tt → All ScreenOk ss × Apart ss
unfolding check_screens
check_screens-ok [] h = (tt, tt)
check_screens-ok (s ∷ ss) h =
    let rest = check_screens-ok ss (ground arith) in
    let quiet = fits s.bounds (ground arith) in
    let unmet = find-none (λ c. Rect.overlaps s.bounds c.bounds) ss (ground arith) in
    (
      (
        record {
          layout_valid = ground arith;
          filled = ground (arith, size_eq.eq_iff s.layout.size s.bounds.size);
          width_fits = quiet.0;
          height_fits = quiet.1;
          right_fits = quiet.2;
          bottom_fits = quiet.3;
        },
        rest.0,
      ),
      (All-map _ _ ss (λ c k. overlaps-Disjoint s.bounds c.bounds k) unmet, rest.1),
    )

pub ok-check_screens :
    (ss : List ScreenPlacement)
    → All HasArea ss
    → All ScreenOk ss
    → Apart ss
    → check_screens ss ≡ ok tt
unfolding check_screens
ok-check_screens [] area sound apart = refl
ok-check_screens (s ∷ ss) area sound apart =
    let unmet =
      none-find (λ c. Rect.overlaps s.bounds c.bounds) ss
        (All-map (λ c. HasArea c × Disjoint s.bounds c.bounds) _ ss
          (λ c k. Disjoint-overlaps s.bounds c.bounds area.0 k.0 k.1)
          (All-pair _ _ ss area.1 apart.0)) in
    let quiet = overflows_not s sound.0 in
    ground (
      arith,
      unmet,
      quiet,
      sound.0.layout_valid,
      sound.0.filled,
      size_eq.eq_iff s.layout.size s.bounds.size,
      ok-check_screens ss area.1 sound.1 apart.1,
    )
