-- ===== src/Prelude/Tests.antt =====
-- Boolean tests, the conditional, and equality tests by an interface (Rust's `PartialEq`).
use Prim.Native.Nat.{ℕ, ◌<◌, compare, Ordering}
use mathlib.Core.Path.{◌≡◌, refl}
use mathlib.Core.Logic.{◌↔◌, ◌⊎◌, inl, inr}
use mathlib.Core.Bool.{Bool, true, false}
use mathlib.Core.Option.{Option, none, some}
use native.Mathlib.Omega.{arith}

abbrev pub ltb : ℕ → ℕ → Bool
ltb a b = elim (compare a b) [ Ordering.lt ↦ true | _ ↦ false ]

abbrev pub leb : ℕ → ℕ → Bool
leb a b = elim (compare a b) [ Ordering.gt ↦ false | _ ↦ true ]

abbrev pub eqb : ℕ → ℕ → Bool
eqb a b = elim (compare a b) [ Ordering.eq ↦ true | _ ↦ false ]

infix 1 if◌then◌else◌
abbrev pub if◌then◌else◌ {ℓ} : {A : Type ℓ} → Bool → A → A → A
if true then x else y = x
if false then x else y = y

-- A decision as a Boolean test.
abbrev pub holds {ℓ} : {A : Type ℓ} → Dec A → Bool
holds (yes _) = true
holds (no _) = false

pub eqb_iff : (a b : ℕ) → (eqb a b ≡ true) ↔ (a ≡ b)
eqb_iff a b = ground arith

pub holds_iff {ℓ} : {A : Type ℓ} (d : Dec A) → (holds d ≡ true) ↔ A
holds_iff (yes a) = (λ _. a, λ _. refl)
holds_iff (no n) = (λ e. cc, λ a. absurd (n a))

-- `PartialEq`: the operator `==` of a type, with the law that it decides equality.
pub record PartialEq {ℓ} (T : Type ℓ) : Type ℓ where
  pub eq : T → T → Bool
  pub eq_iff : (x y : T) → (eq x y ≡ true) ↔ (x ≡ y)

-- The derived `PartialEq` of a type whose equality is decided.
abbrev pub derived_eq {ℓ} : {A : Type ℓ} → Discrete A → PartialEq A
derived_eq d = record { eq = λ a b. holds (d a b); eq_iff = λ a b. holds_iff (d a b) }

instance abbrev pub number_eq : PartialEq ℕ
number_eq = record { eq = eqb; eq_iff = eqb_iff }

infix 50 ◌==◌
abbrev pub ◌==◌ {ℓ} : {T : Type ℓ} ⦃p : PartialEq T⦄ (x y : T) → Bool
◌==◌ ⦃p⦄ x y = p.eq x y

pub eq_refl {ℓ} : {A : Type ℓ} ⦃e : PartialEq A⦄ (a : A) → (a == a) ≡ true
eq_refl ⦃e⦄ a = (e.eq_iff a a).1 refl

pub Bool-cases : (b : Bool) → (b ≡ true) ⊎ (b ≡ false)
Bool-cases true = inl refl
Bool-cases false = inr refl

pub Option-cases {ℓ} : {A : Type ℓ} (o : Option A) → (o ≡ none) ⊎ ((a : A) × (o ≡ some a))
Option-cases none = inl refl
Option-cases (some a) = inr (a, refl)

-- `Option::is_some` and `Option::is_none`.
abbrev pub is_some {ℓ} : {A : Type ℓ} → Option A → Bool
is_some none = false
is_some (some _) = true

abbrev pub is_none {ℓ} : {A : Type ℓ} → Option A → Bool
is_none none = true
is_none (some _) = false

pub ltb→lt : (a b : ℕ) → ltb a b ≡ true → a < b
ltb→lt a b h = ground arith

pub lt→ltb : (a b : ℕ) → a < b → ltb a b ≡ true
lt→ltb a b h = ground arith

-- A property of a conditional holds if it holds of both branches under their tests.
pub if-cases {ℓ κ} :
    {A : Type ℓ} (P : A → Type κ) (b : Bool) (x y : A)
    → (b ≡ true → P x)
    → (b ≡ false → P y)
    → P (if b then x else y)
if-cases P true x y p q = p refl
if-cases P false x y p q = q refl

-- The same for a match on an option.
pub option-cases {ℓ κ μ} :
    {A : Type ℓ} {B : Type κ} (P : B → Type μ) (o : Option A) (n : B) (f : A → B)
    → (o ≡ none → P n)
    → ((a : A) → o ≡ some a → P (f a))
    → P (elim o [ none ↦ n | some a ↦ f a ])
option-cases P none n f p q = p refl
option-cases P (some a) n f p q = q a refl
