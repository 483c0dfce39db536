-- ===== src/Domain/Connectivity/Complete.antt =====
-- The search for connected screens misses none: what it ends with holds every reachable screen.
use tevir.Prelude.{
  ℕ, zero, suc, ◌+◌, ◌≡◌, refl, true, ◌||◌, some, List, [], ◌∷◌, ◌++◌, any, get_elem?, eqb, eqb_iff,
  Bool-cases, inl, inr, subst, sym, arith,
}
use tevir.Domain.Placement.{ScreenPlacement}
use tevir.Domain.Connectivity.{has, candidates, neighbours, shares_exposed_edge, visit}
use tevir.Domain.Connectivity.Search.{Reached, start, step}

has-append : (xs ys : List ℕ) (j : ℕ) → has (xs ++ ys) j ≡ (has xs j || has ys j)
unfolding has any
has-append [] ys j = refl
has-append (x ∷ xs) ys j = ground (arith, has-append xs ys j)

-- The inner loop passes over no touching screen that is not visited yet.
candidates_complete :
    (from : ScreenPlacement) (connected : List ℕ) (index : ℕ) (rest : List ScreenPlacement) (m : ℕ)
    (b : ScreenPlacement)
    → get_elem? rest m ≡ some b
    → shares_exposed_edge from b ≡ true
    → (has connected (index + m) || has (candidates from connected index rest) (index + m)) ≡ true
unfolding candidates has any
candidates_complete from connected index [] m b at_m shared = absurd (ground arith)
candidates_complete from connected index (c ∷ cs) zero b at_m shared =
    let same : index + 0 ≡ index = omega arith in rw same (ground (arith, eqb_iff index index))
candidates_complete from connected index (c ∷ cs) (suc m) b at_m shared =
    let same : index + suc m ≡ index + 1 + m = omega arith in
    rw same (ground (arith, candidates_complete from connected (index + 1) cs m b at_m shared))

-- A screen that touches a visited one is visited or will be.
abbrev pub Closed : List ScreenPlacement → List ℕ → List ℕ → Type 0
Closed screens connected pending =
    (i j : ℕ) (a b : ScreenPlacement)
    → has connected i ≡ true
    → get_elem? screens i ≡ some a
    → get_elem? screens j ≡ some b
    → shares_exposed_edge a b ≡ true
    → (has connected j || has pending j) ≡ true

neighbours_complete :
    (screens : List ScreenPlacement) (connected : List ℕ) (i j : ℕ) (a b : ScreenPlacement)
    → get_elem? screens i ≡ some a
    → get_elem? screens j ≡ some b
    → shares_exposed_edge a b ≡ true
    → (has connected j || has (neighbours screens connected i) j) ≡ true
unfolding neighbours
neighbours_complete screens connected i j a b at_i at_j shared =
    ground (arith, candidates_complete a connected 0 screens j b at_j shared)

-- Dropping an index that is visited already.
Closed-skip :
    (screens : List ScreenPlacement) (connected : List ℕ) (i : ℕ) (pending : List ℕ)
    → has connected i ≡ true
    → Closed screens connected (i ∷ pending)
    → Closed screens connected pending
unfolding has any
Closed-skip screens connected i pending seen closed k j a b at_k shown_k shown_j shared =
    ground (arith, closed k j a b at_k shown_k shown_j shared, eqb_iff i j)

-- Visiting a new index and noting its neighbours.
Closed-visit :
    (screens : List ScreenPlacement) (connected : List ℕ) (i : ℕ) (pending : List ℕ)
    → Closed screens connected (i ∷ pending)
    → Closed screens (i ∷ connected) (pending ++ neighbours screens (i ∷ connected) i)
unfolding has any
Closed-visit screens connected i pending closed k j a b at_k shown_k shown_j shared =
    elim (Bool-cases (eqb i k)) [
      | inl same ↦
          let here : get_elem? screens i ≡ some a =
            subst (λ n. get_elem? screens n ≡ some a) (sym ((eqb_iff i k).0 same)) shown_k in
          ground (
            arith,
            has-append pending (neighbours screens (i ∷ connected) i) j,
            neighbours_complete screens (i ∷ connected) i j a b here shown_j shared,
          )
      | inr other ↦ ground (
        arith,
        has-append pending (neighbours screens (i ∷ connected) i) j,
        closed k j a b (ground arith) shown_k shown_j shared,
      )
    ]

-- The search keeps what it has and what waits, and what it ends with is closed.
pub visit_complete :
    (screens : List ScreenPlacement) (fuel : ℕ) (connected pending r : List ℕ)
    → Closed screens connected pending
    → (has connected 0 || has pending 0) ≡ true
    → visit screens fuel connected pending ≡ some r
    → Closed screens r [] × (has r 0 ≡ true)
unfolding visit has any
visit_complete screens zero connected pending r closed first e = absurd (ground arith)
visit_complete screens (suc fuel) connected [] r closed first e =
    let same : connected ≡ r = ground arith in
    subst (λ l. Closed screens l [] × (has l 0 ≡ true)) same (closed, ground arith)
visit_complete screens (suc fuel) connected (i ∷ pending) r closed first e =
    elim (Bool-cases (has connected i)) [
      | inl seen ↦
          visit_complete screens fuel connected pending r
            (Closed-skip screens connected i pending seen closed) (ground (arith, eqb_iff i 0))
            (ground arith)
      | inr fresh ↦
          visit_complete screens fuel (i ∷ connected)
            (pending ++ neighbours screens (i ∷ connected) i) r
            (Closed-visit screens connected i pending closed)
            (ground (arith, has-append pending (neighbours screens (i ∷ connected) i) 0))
            (ground arith)
    ]

-- A closed set with the first screen holds every screen that is reachable from it.
pub Closed-Reached :
    (screens : List ScreenPlacement) (r : List ℕ) (j : ℕ)
    → Closed screens r []
    → has r 0 ≡ true
    → Reached screens j
    → has r j ≡ true
unfolding has any
Closed-Reached screens r j closed first start = first
Closed-Reached screens r j closed first (step i k a b reached shown_i shown_j shared) =
    ground (
      arith,
      closed i j a b (Closed-Reached screens r i closed first reached) shown_i shown_j shared,
    )
