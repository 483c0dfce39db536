-- ===== src/Domain/Connectivity.antt =====
-- crates/domain/src/topology.rs: which screens touch, and the search for the connected ones. The set
-- of indexes is a list without an order that anything reads.
pub mod Search
pub mod Complete
use tevir.Prelude.{
  ℕ, zero, suc, ◌+◌, ℤ, pos, ◌+ℤ◌, Bool, ◌&&◌, ◌||◌, not, Option, none, some, List, [], ◌∷◌, ◌++◌,
  any, get_elem?, ltb_ℤ, eqb_ℤ, eqb, if◌then◌else◌,
}
use tevir.Domain.Rect
use tevir.Domain.Edge.{Edge}
use tevir.Domain.Display.{edge_segments}
use tevir.Domain.Placement.{ScreenPlacement}

unfoldable pub segments_overlap : ScreenPlacement → Edge → ScreenPlacement → Edge → ℤ → ℤ → Bool
segments_overlap first first_edge second second_edge first_axis_origin second_axis_origin =
    any
      (λ a.
        let first_start = first_axis_origin +ℤ pos (a.0) in
        let first_end = first_axis_origin +ℤ pos (a.1) in
        any
          (λ b.
            let second_start = second_axis_origin +ℤ pos (b.0) in
            let second_end = second_axis_origin +ℤ pos (b.1) in
            ltb_ℤ first_start second_end && ltb_ℤ second_start first_end)
          (edge_segments second.layout second_edge))
      (edge_segments first.layout first_edge)

-- The four tests in order; each `if … return true` is one side of a disjunction.
unfoldable pub shares_exposed_edge : ScreenPlacement → ScreenPlacement → Bool
shares_exposed_edge first second =
    let a = first.bounds in
    let b = second.bounds in
    (eqb_ℤ (Rect.right a) (Rect.left b)
      && segments_overlap first Edge.right second Edge.left (Rect.top a) (Rect.top b))
    || (eqb_ℤ (Rect.right b) (Rect.left a)
        && segments_overlap first Edge.left second Edge.right (Rect.top a) (Rect.top b))
    || (eqb_ℤ (Rect.bottom a) (Rect.top b)
        && segments_overlap first Edge.bottom second Edge.top (Rect.left a) (Rect.left b))
    || (eqb_ℤ (Rect.bottom b) (Rect.top a)
        && segments_overlap first Edge.top second Edge.bottom (Rect.left a) (Rect.left b))

unfoldable pub has : List ℕ → ℕ → Bool
has connected index = any (λ i. eqb i index) connected

-- The inner loop: the indexes, from `index` on, of candidates to visit.
unfoldable pub candidates : ScreenPlacement → List ℕ → ℕ → List ScreenPlacement → List ℕ
candidates from connected index [] = []
candidates from connected index (candidate ∷ rest) =
    if not (has connected index) && shares_exposed_edge from candidate
    then index ∷ candidates from connected (index + 1) rest
    else candidates from connected (index + 1) rest

-- `screens[index]` and the inner loop; every index in the queue is in range.
unfoldable pub neighbours : List ScreenPlacement → List ℕ → ℕ → List ℕ
neighbours screens connected index = elim (get_elem? screens index) [
  | none ↦ []
  | some from ↦ candidates from connected 0 screens
]

-- The outer loop on fuel; `none` means that the fuel ran out.
unfoldable pub visit : List ScreenPlacement → ℕ → List ℕ → List ℕ → Option (List ℕ)
visit screens zero connected pending = none
visit screens (suc fuel) connected [] = some connected
visit screens (suc fuel) connected (index ∷ pending) =
    let again = visit screens fuel connected pending in
    let fresh =
      visit screens fuel (index ∷ connected)
        (pending ++ neighbours screens (index ∷ connected) index) in
    if has connected index then again else fresh
