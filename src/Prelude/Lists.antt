-- ===== src/Prelude/Lists.antt =====
-- Lists measured by native numbers (`Vec`, `VecDeque` and slices), under the library's names.
use Prim.Native.Nat.{ℕ, zero, suc, ◌+◌, ◌-◌, ◌≤◌, ◌<◌}
use mathlib.Core.Path.{◌≡◌, refl, subst, ap}
use mathlib.Core.Logic.{inl, inr}
use mathlib.Core.Bool.{Bool, true, false, ◌||◌}
use mathlib.Core.List.{List, [], ◌∷◌, ◌++◌}
use mathlib.Core.Option.{Option, none, some}
use native.Mathlib.Omega.{arith}
use tevir.Prelude.Tests.{if◌then◌else◌, Bool-cases, Option-cases, eqb, eqb_iff}

module _ {ℓ} {A : Type ℓ} where
  abbrev pub length : List A → ℕ
  length [] = 0
  length (x ∷ xs) = suc (length xs)

  abbrev pub is_empty : List A → Bool
  is_empty [] = true
  is_empty (x ∷ xs) = false

  abbrev pub get_elem? : List A → ℕ → Option A
  get_elem? [] i = none
  get_elem? (x ∷ xs) zero = some x
  get_elem? (x ∷ xs) (suc i) = get_elem? xs i

  abbrev pub take : ℕ → List A → List A
  take zero xs = []
  take (suc n) [] = []
  take (suc n) (x ∷ xs) = x ∷ take n xs

  abbrev pub drop : ℕ → List A → List A
  drop zero xs = xs
  drop (suc n) [] = []
  drop (suc n) (x ∷ xs) = drop n xs

  pub length-append : (xs ys : List A) → length (xs ++ ys) ≡ length xs + length ys
  length-append [] ys = omega arith
  length-append (x ∷ xs) ys = omega (arith, length-append xs ys)

  -- `iter().any(p)`, `iter().all(p)` and `iter().find(p)`.
  unfoldable pub any : (A → Bool) → List A → Bool
  any p [] = false
  any p (x ∷ xs) = p x || any p xs

  unfoldable pub find : (A → Bool) → List A → Option A
  find p [] = none
  find p (x ∷ xs) = if p x then some x else find p xs

  -- `iter().filter(p)`.
  unfoldable pub filter : (A → Bool) → List A → List A
  filter p [] = []
  filter p (x ∷ xs) = if p x then x ∷ filter p xs else filter p xs

  pub find-holds : (p : A → Bool) (xs : List A) (x : A) → find p xs ≡ some x → p x ≡ true
  unfolding find
  find-holds p [] x h = ground arith
  find-holds p (y ∷ ys) x h = ground (arith, find-holds p ys x)

module _ {ℓ κ} {A : Type ℓ} {B : Type κ} where
  -- `iter().find_map(f)`: the first answer.
  unfoldable pub find_map : (A → Option B) → List A → Option B
  find_map f [] = none
  find_map f (x ∷ xs) = elim (f x) [ none ↦ find_map f xs | some b ↦ some b ]

  -- `iter().filter_map(f)`.
  unfoldable pub filter_map : (A → Option B) → List A → List B
  filter_map f [] = []
  filter_map f (x ∷ xs) = elim (f x) [ none ↦ filter_map f xs | some b ↦ b ∷ filter_map f xs ]

pub take-append {ℓ} : {A : Type ℓ} (xs ys : List A) → take (length xs) (xs ++ ys) ≡ xs
take-append [] ys = refl
take-append (x ∷ xs) ys = ap (◌∷◌ x) (take-append xs ys)

pub drop-append {ℓ} : {A : Type ℓ} (xs ys : List A) → drop (length xs) (xs ++ ys) ≡ ys
drop-append [] ys = refl
drop-append (x ∷ xs) ys = drop-append xs ys

pub length-take {ℓ} : {A : Type ℓ} (n : ℕ) (xs : List A) → n ≤ length xs → length (take n xs) ≡ n
length-take zero xs h = refl
length-take (suc n) [] h = absurd (omega arith)
length-take (suc n) (x ∷ xs) h = omega (arith, length-take n xs (omega arith))

pub length-drop {ℓ} : {A : Type ℓ} (n : ℕ) (xs : List A) → length (drop n xs) ≡ length xs - n
length-drop zero xs = omega arith
length-drop (suc n) [] = omega arith
length-drop (suc n) (x ∷ xs) = omega (arith, length-drop n xs)

pub take-drop {ℓ} : {A : Type ℓ} (n : ℕ) (xs : List A) → take n xs ++ drop n xs ≡ xs
take-drop zero xs = refl
take-drop (suc n) [] = refl
take-drop (suc n) (x ∷ xs) = ap (◌∷◌ x) (take-drop n xs)

-- A predicate of every element, as nested pairs.
abbrev pub All {ℓ κ} : {A : Type ℓ} → (A → Type κ) → List A → Type κ
All P [] = Unit
All P (x ∷ xs) = P x × All P xs

pub All-map {ℓ κ μ} :
    {A : Type ℓ} (P : A → Type κ) (Q : A → Type μ) (xs : List A)
    → ((x : A) → P x → Q x)
    → All P xs
    → All Q xs
All-map P Q [] f h = tt
All-map P Q (x ∷ xs) f h = (f x h.0, All-map P Q xs f h.1)

pub All-pair {ℓ κ μ} :
    {A : Type ℓ} (P : A → Type κ) (Q : A → Type μ) (xs : List A)
    → All P xs
    → All Q xs
    → All (λ x. P x × Q x) xs
All-pair P Q [] h k = tt
All-pair P Q (x ∷ xs) h k = ((h.0, k.0), All-pair P Q xs h.1 k.1)

-- The numbers first, first + 1, … of a list of that length.
abbrev pub range_from : ℕ → ℕ → List ℕ
range_from first zero = []
range_from first (suc n) = first ∷ range_from (first + 1) n

-- A predicate of the numbers from `first` on, `n` of them.
pub All-range {ℓ} :
    (P : ℕ → Type ℓ) (first n : ℕ)
    → ((i : ℕ) → first ≤ i → i < first + n → P i)
    → All P (range_from first n)
All-range P first zero f = tt
All-range P first (suc n) f = (
  f first (omega arith) (omega arith),
  All-range P (first + 1) n (λ i h k. f i (omega arith) (omega arith)),
)

pub All-range-get {ℓ} :
    (P : ℕ → Type ℓ) (first n i : ℕ) → first ≤ i → i < first + n → All P (range_from first n) → P i
All-range-get P first zero i h k a = absurd (omega arith)
All-range-get P first (suc n) i h k a = elim (Bool-cases (eqb first i)) [
  | inl same ↦ subst P ((eqb_iff first i).0 same) a.0
  | inr other ↦ All-range-get P (first + 1) n i (ground (arith, eqb_iff first i)) (omega arith) a.1
]

pub find-All {ℓ κ} :
    {A : Type ℓ} (P : A → Type κ) (p : A → Bool) (xs : List A) (x : A)
    → find p xs ≡ some x
    → All P xs
    → P x
unfolding find
find-All P p [] x h a = absurd (ground arith)
find-All P p (y ∷ ys) x h a = elim (Bool-cases (p y)) [
  | inl met ↦ subst P (ground arith) a.0
  | inr unmet ↦ find-All P p ys x (ground arith) a.1
]

pub find-none {ℓ} :
    {A : Type ℓ} (p : A → Bool) (xs : List A) → find p xs ≡ none → All (λ x. p x ≡ false) xs
unfolding find
find-none p [] h = tt
find-none p (x ∷ xs) h = (ground arith, find-none p xs (ground arith))

pub none-find {ℓ} :
    {A : Type ℓ} (p : A → Bool) (xs : List A) → All (λ x. p x ≡ false) xs → find p xs ≡ none
unfolding find
none-find p [] h = refl
none-find p (x ∷ xs) h = ground (arith, none-find p xs h.1)

-- What an answer of `find_map` or `any` says, from what is known of every element.
pub find_map-elim {ℓ κ μ ν} :
    {A : Type ℓ} {B : Type κ} {Q : Type ν} (P : A → Type μ) (f : A → Option B) (xs : List A) (b : B)
    → find_map f xs ≡ some b
    → All P xs
    → ((x : A) → P x → f x ≡ some b → Q)
    → Q
unfolding find_map
find_map-elim P f [] b h a k = absurd (ground arith)
find_map-elim P f (x ∷ xs) b h a k = elim (Option-cases (f x)) [
  | inl missed ↦ find_map-elim P f xs b (ground arith) a.1 k
  | inr (c, hit) ↦ k x a.0 (ground arith)
]

pub find_map-none {ℓ κ} :
    {A : Type ℓ} {B : Type κ} (f : A → Option B) (xs : List A)
    → find_map f xs ≡ none
    → All (λ x. f x ≡ none) xs
unfolding find_map
find_map-none f [] h = tt
find_map-none f (x ∷ xs) h = elim (Option-cases (f x)) [
  | inl missed ↦ (missed, find_map-none f xs (ground arith))
  | inr (c, hit) ↦ absurd (ground arith)
]

pub find_map-any {ℓ κ} :
    {A : Type ℓ} {B : Type κ} (f : A → Option B) (p : A → Bool) (xs : List A) (b : B)
    → find_map f xs ≡ some b
    → ((x : A) → f x ≡ some b → p x ≡ true)
    → any p xs ≡ true
unfolding find_map any
find_map-any f p [] b h k = absurd (ground arith)
find_map-any f p (x ∷ xs) b h k = elim (Option-cases (f x)) [
  | inl missed ↦ ground (arith, find_map-any f p xs b (ground arith) k)
  | inr (c, hit) ↦ ground (arith, k x (ground arith))
]

pub any-elim {ℓ μ ν} :
    {A : Type ℓ} {Q : Type ν} (P : A → Type μ) (p : A → Bool) (xs : List A)
    → any p xs ≡ true
    → All P xs
    → ((x : A) → P x → p x ≡ true → Q)
    → Q
unfolding any
any-elim P p [] h a k = absurd (ground arith)
any-elim P p (x ∷ xs) h a k = elim (Bool-cases (p x)) [
  | inl met ↦ k x a.0 met
  | inr unmet ↦ any-elim P p xs (ground arith) a.1 k
]

filter_map_next {κ μ} :
    {B : Type κ} (Q : B → Type μ) (o : Option B) (bs : List B)
    → ((b : B) → o ≡ some b → Q b)
    → All Q bs
    → All Q (elim o [ none ↦ bs | some b ↦ b ∷ bs ])
filter_map_next Q none bs k h = h
filter_map_next Q (some b) bs k h = (k b refl, h)

pub filter_map-All {ℓ κ μ} :
    {A : Type ℓ} {B : Type κ} (Q : B → Type μ) (f : A → Option B) (xs : List A)
    → ((x : A) (b : B) → f x ≡ some b → Q b)
    → All Q (filter_map f xs)
unfolding filter_map
filter_map-All Q f [] k = tt
filter_map-All Q f (x ∷ xs) k =
    filter_map_next Q (f x) (filter_map f xs) (k x) (filter_map-All Q f xs k)
