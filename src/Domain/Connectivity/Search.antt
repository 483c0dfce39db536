-- ===== src/Domain/Connectivity/Search.antt =====
-- The search for connected screens ends within its fuel, and finds screens that are connected.
use tevir.Prelude.{
  ℕ, zero, suc, ◌+◌, ◌*◌, ◌≤◌, ◌<◌, ◌≡◌, refl, sym, true, false, some, List, [], ◌∷◌, ◌++◌, All,
  any, length, length-append, get_elem?, if-cases, option-cases, arith, ◌&&◌, not, subst,
  if◌then◌else◌,
}
use tevir.Domain.Placement.{ScreenPlacement}
use tevir.Domain.Connectivity.{has, candidates, neighbours, shares_exposed_edge, visit}

-- The indexes below a bound that are not in a list.
abbrev pub unseen : ℕ → List ℕ → ℕ
unseen zero connected = 0
unseen (suc n) connected = if has connected n then unseen n connected else suc (unseen n connected)

unseen_above :
    (n index : ℕ) (connected : List ℕ)
    → n ≤ index
    → unseen n (index ∷ connected) ≡ unseen n connected
unfolding has any
unseen_above zero index connected h = refl
unseen_above (suc n) index connected h = ground (arith, unseen_above n index connected)

unseen_add :
    (n index : ℕ) (connected : List ℕ)
    → has connected index ≡ false
    → index < n
    → unseen n (index ∷ connected) + 1 ≡ unseen n connected
unfolding has any
unseen_add zero index connected new_ h = absurd (omega arith)
unseen_add (suc n) index connected new_ h =
    ground (arith, unseen_add n index connected, unseen_above n index connected)

unseen_none : (n : ℕ) → unseen n [] ≡ n
unfolding has any
unseen_none zero = refl
unseen_none (suc n) = ground (arith, unseen_none n)

-- If nothing below a bound is unseen, every index below it is in the list.
pub all_seen :
    (n index : ℕ) (connected : List ℕ)
    → unseen n connected ≡ 0
    → index < n
    → has connected index ≡ true
all_seen zero index connected e h = absurd (omega arith)
all_seen (suc n) index connected e h = ground (arith, all_seen n index connected)

get_elem?-length :
    (screens : List ScreenPlacement) (i : ℕ) (s : ScreenPlacement)
    → get_elem? screens i ≡ some s
    → i < length screens
get_elem?-length [] i s e = absurd (ground arith)
get_elem?-length (x ∷ xs) zero s e = omega arith
get_elem?-length (x ∷ xs) (suc i) s e = omega (arith, get_elem?-length xs i s e)

length-candidates :
    (from : ScreenPlacement) (connected : List ℕ) (index : ℕ) (rest : List ScreenPlacement)
    → length (candidates from connected index rest) ≤ length rest
unfolding candidates
length-candidates from connected index [] = omega arith
length-candidates from connected index (c ∷ cs) =
    ground (arith, length-candidates from connected (index + 1) cs)

-- The candidates after the index are screens that share an exposed edge.
candidates-All :
    (P : ℕ → Type 0) (from : ScreenPlacement) (connected : List ℕ) (index : ℕ)
    (rest : List ScreenPlacement)
    → ((m : ℕ) (c : ScreenPlacement)
        → get_elem? rest m ≡ some c
        → shares_exposed_edge from c ≡ true
        → P (index + m))
    → All P (candidates from connected index rest)
unfolding candidates
candidates-All P from connected index [] f = tt
candidates-All P from connected index (c ∷ cs) f =
    let rest =
      candidates-All P from connected (index + 1) cs
        (λ m d e h. subst P (omega arith) (f (suc m) d e h)) in
    if-cases (All P) (not (has connected index) && shares_exposed_edge from c) _ _
      (λ h. (subst P (omega arith) (f 0 c refl (ground arith)), rest)) (λ _. rest)

-- The screens that a chain of shared exposed edges connects with the first one.
pub data Reached (screens : List ScreenPlacement) : ℕ → Type 0 where
  start : Reached screens 0
  step :
      (i j : ℕ) (a b : ScreenPlacement)
      → Reached screens i
      → get_elem? screens i ≡ some a
      → get_elem? screens j ≡ some b
      → shares_exposed_edge a b ≡ true
      → Reached screens j

-- An index that the search may visit.
abbrev pub Known : List ScreenPlacement → ℕ → Type 0
Known screens i = (i < length screens) × Reached screens i

neighbours-Known :
    (screens : List ScreenPlacement) (connected : List ℕ) (i : ℕ)
    → Known screens i
    → All (Known screens) (neighbours screens connected i)
      × (length (neighbours screens connected i) ≤ length screens)
unfolding neighbours
neighbours-Known screens connected i (h, r) =
    option-cases (λ l. All (Known screens) l × (length l ≤ length screens)) (get_elem? screens i) _
      _ (λ _. (tt, omega arith))
      λ a e. (
        candidates-All (Known screens) a connected 0 screens (λ m b at_m shared. (
          omega (arith, get_elem?-length screens m b at_m),
          subst (Reached screens) (omega arith) (Reached.step i m a b r e at_m shared),
        )),
        length-candidates a connected 0 screens,
      )

-- What a search from `connected` ends with: known indexes only, and as many as are not unseen.
abbrev pub Found : List ScreenPlacement → List ℕ → Type 0
Found screens r = All (Known screens) r × (length r + unseen (length screens) r ≡ length screens)

times_more : (n u v : ℕ) → u + 1 ≡ v → n * u + n ≡ n * v
times_more n u v e = rw (sym e) (omega arith)

All-joined : (P : ℕ → Type 0) (xs ys : List ℕ) → All P xs → All P ys → All P (xs ++ ys)
All-joined P [] ys h k = k
All-joined P (x ∷ xs) ys (h, hs) k = (h, All-joined P xs ys hs k)

pub visit-ends :
    (screens : List ScreenPlacement) (fuel : ℕ) (connected pending : List ℕ)
    → Found screens connected
    → All (Known screens) pending
    → length pending + length screens * unseen (length screens) connected < fuel
    → (r : List ℕ) × (visit screens fuel connected pending ≡ some r) × Found screens r
unfolding visit
visit-ends screens zero connected pending f p h = absurd (omega arith)
visit-ends screens (suc fuel) connected [] f p h = (connected, refl, f)
visit-ends screens (suc fuel) connected (i ∷ pending) f (known, p) h =
    let n = length screens in
    if-cases (λ o. (r : List ℕ) × (o ≡ some r) × Found screens r) (has connected i) _ _
      (λ _. visit-ends screens fuel connected pending f p (omega arith))
      λ fresh.
        let fewer = unseen_add n i connected fresh known.0 in
        let more = neighbours-Known screens (i ∷ connected) i known in
        visit-ends screens fuel (i ∷ connected) (pending ++ neighbours screens (i ∷ connected) i)
          ((known, f.0), omega arith) (All-joined (Known screens) pending _ p more.0)
          (omega (
            arith,
            length-append pending (neighbours screens (i ∷ connected) i),
            times_more n (unseen n (i ∷ connected)) (unseen n connected) fewer,
          ))

-- From the first screen the search ends within `n * n + 2` rounds for `n` screens.
pub search-ends :
    (screens : List ScreenPlacement)
    → 1 ≤ length screens
    → (r : List ℕ) × (visit screens (length screens * length screens + 2) [] (0 ∷ []) ≡ some r)
      × Found screens r
search-ends screens h =
    let none_seen = unseen_none (length screens) in
    visit-ends screens _ [] (0 ∷ []) (tt, omega arith) ((h, start), tt) (rw none_seen (omega arith))
