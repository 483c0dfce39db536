-- ===== src/Domain/Topology/Accepted.antt =====
-- Which lists of screens `Topology::new` accepts.
use tevir.Prelude.{
  ℕ, ◌+◌, ◌≤◌, ◌≡◌, ◌↔◌, refl, true, ◌||◌, none, some, List, [], ◌∷◌, ok, All, All-map, All-range,
  length, any, range_from, eqb, eqb_iff, Bool-cases, inl, inr, subst, arith,
}
use tevir.Domain.Placement.{ScreenPlacement}
use tevir.Domain.Connectivity.{has}
use tevir.Domain.Connectivity.Search.{Reached, Known, unseen, all_seen, search-ends}
use tevir.Domain.Connectivity.Complete.{Closed, Closed-Reached, visit_complete}
use tevir.Domain.Topology.Crossing.{HasArea}
use tevir.Domain.Topology.Checks.{
  Apart, DistinctNodes, ScreenOk, none-Distinct, Distinct-none, New-nil, check_screens-ok,
  ok-check_screens,
}
use tevir.Domain.Topology.{Topology, new, first_outside, connected_screen_indexes, check_connected}

-- An arrangement of desktops: at least one, of distinct nodes, sound, apart from one another, and each
-- connected with the first one by a chain of shared exposed edges.
pub record IsArrangement (screens : List ScreenPlacement) : Type 0 where
  pub non_empty : 1 ≤ length screens
  pub distinct : DistinctNodes screens
  pub sound : All ScreenOk screens
  pub apart : Apart screens
  pub connected : All (Reached screens) (range_from 0 (length screens))

All-has : (P : ℕ → Type 0) (r : List ℕ) (i : ℕ) → All P r → has r i ≡ true → P i
unfolding has any
All-has P [] i a h = absurd (ground arith)
All-has P (x ∷ xs) i a h = elim (Bool-cases (eqb x i)) [
  | inl same ↦ subst P ((eqb_iff x i).0 same) a.0
  | inr other ↦ All-has P xs i a.1 (ground arith)
]

-- No screen is found outside the set exactly if the set has every index.
none-outside :
    (r : List ℕ) (index : ℕ) (ss : List ScreenPlacement)
    → first_outside r index ss ≡ none
    → All (λ i. has r i ≡ true) (range_from index (length ss))
unfolding first_outside
none-outside r index [] h = tt
none-outside r index (s ∷ ss) h = (ground arith, none-outside r (index + 1) ss (ground arith))

outside-none :
    (r : List ℕ) (index : ℕ) (ss : List ScreenPlacement)
    → All (λ i. has r i ≡ true) (range_from index (length ss))
    → first_outside r index ss ≡ none
unfolding first_outside
outside-none r index [] h = refl
outside-none r index (s ∷ ss) h = ground (arith, h.0, outside-none r (index + 1) ss h.1)

-- The last check, once the search has ended with `r`.
abbrev Passes : List ScreenPlacement → Type 0
Passes screens = check_connected screens ≡ ok tt

Passes-All :
    (screens : List ScreenPlacement) (r : List ℕ)
    → connected_screen_indexes screens ≡ some r
    → length r + unseen (length screens) r ≡ length screens
    → Passes screens
    → All (λ i. has r i ≡ true) (range_from 0 (length screens))
unfolding check_connected
Passes-All screens r e counted h = elim (Bool-cases (eqb (length r) (length screens))) [
  | inl full ↦
      All-range (λ i. has r i ≡ true) 0 (length screens)
        (λ i _ k. all_seen (length screens) i r (ground arith) (omega arith))
  | inr part ↦ none-outside r 0 screens (ground arith)
]

All-Passes :
    (screens : List ScreenPlacement) (r : List ℕ)
    → connected_screen_indexes screens ≡ some r
    → All (λ i. has r i ≡ true) (range_from 0 (length screens))
    → Passes screens
unfolding check_connected
All-Passes screens r e h = ground (arith, outside-none r 0 screens h)

first_waits : (screens : List ScreenPlacement) → Closed screens [] (0 ∷ [])
unfolding has any
first_waits screens i j a b at_i shown_i shown_j shared = absurd (cc)

zero_waits : (has [] 0 || has (0 ∷ []) 0) ≡ true
unfolding has any
zero_waits = refl

connected_lem :
    (screens : List ScreenPlacement)
    → 1 ≤ length screens
    → Passes screens ↔ All (Reached screens) (range_from 0 (length screens))
unfolding connected_screen_indexes
connected_lem screens h =
    let (r, e, found) = search-ends screens h in
    let (closed, first) =
      visit_complete screens _ [] (0 ∷ []) r (first_waits screens) zero_waits e in
    (
      λ passed.
          All-map (λ i. has r i ≡ true) (Reached screens) (range_from 0 (length screens))
            (λ i k. (All-has (Known screens) r i found.0 k).1)
            (Passes-All screens r e found.1 passed),
      λ reached. All-Passes screens r e (
          All-map (Reached screens) (λ i. has r i ≡ true) (range_from 0 (length screens))
            (λ i k. Closed-Reached screens r i closed first k) reached),
    )

pub accepted-IsArrangement :
    (screens : List ScreenPlacement) (t : Topology)
    → new screens ≡ ok t
    → (t.screens ≡ screens) × IsArrangement screens
unfolding new
accepted-IsArrangement [] t h = absurd (ground arith)
accepted-IsArrangement (s ∷ ss) t h =
    let distinct = none-Distinct [] (s ∷ ss) (ground arith) in
    let checked = check_screens-ok (s ∷ ss) (ground arith) in
    (
      ground arith,
      record {
        non_empty = omega arith;
        distinct = distinct.1;
        sound = checked.0;
        apart = checked.1;
        connected = (connected_lem (s ∷ ss) (omega arith)).0 (ground arith);
      },
    )

arrangement_accepted :
    (screens : List ScreenPlacement)
    → All HasArea screens
    → IsArrangement screens
    → new screens ≡ ok (record { screens = screens })
unfolding new
arrangement_accepted [] area a = absurd (omega (arith, a.non_empty))
arrangement_accepted (s ∷ ss) area a =
    let distinct = Distinct-none [] (s ∷ ss) (New-nil (s ∷ ss)) a.distinct in
    let checked = ok-check_screens (s ∷ ss) area a.sound a.apart in
    let passed = (connected_lem (s ∷ ss) (omega arith)).1 a.connected in
    ground (arith, distinct, checked, passed)

-- Of screens whose desktops have no empty side, `Topology::new` gives a topology exactly if the screens
-- are an arrangement: at least one; no two of one node; each with a valid layout of the size of its
-- bounds and within the range of an `i32`; no pixel on two of them; and each reached from the first by
-- a chain of screens that share an exposed edge. The topology then has these screens.
pub new_lem :
    (screens : List ScreenPlacement) (t : Topology)
    → All HasArea screens
    → (new screens ≡ ok t) ↔ ((t.screens ≡ screens) × IsArrangement screens)
new_lem screens t area = (
  accepted-IsArrangement screens t,
  λ h.
      let same : record { screens = screens } ≡ t = ground (arith, h.0) in
      subst (λ u. new screens ≡ ok u) same (arrangement_accepted screens area h.1),
)
