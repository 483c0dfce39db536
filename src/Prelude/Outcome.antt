-- ===== src/Prelude/Outcome.antt =====
-- `Result`, and the shape of a Rust method on `&mut self`: it takes the object's state and gives the
-- state it leaves together with its result, on the error path too.
use mathlib.Core.Option.{Option, none, some}
use mathlib.Core.Path.{◌≡◌, refl}
use mathlib.Core.Logic.{◌⊎◌, inl, inr}

pub data Result {ℓ κ} (A : Type ℓ) (E : Type κ) : Type (ℓ ⊔ κ) where
  ok : A → Result A E
  err : E → Result A E

abbrev pub M {ℓ κ μ} : Type ℓ → Type κ → Type μ → Type (ℓ ⊔ κ ⊔ μ)
M S E A = S → S × Result A E

infixl 5 ◌>>=◌ ◌>>◌
-- The operator `?` between two method calls: an error ends the method in the state reached.
abbrev pub ◌>>=◌ {ℓ κ μ ν} :
    {S : Type ℓ} {E : Type κ} {A : Type μ} {B : Type ν} → M S E A → (A → M S E B) → M S E B
◌>>=◌ m f s = let r = m s in elim (r.1) [ ok a ↦ f a r.0 | err e ↦ (r.0, err e) ]

abbrev pub ◌>>◌ {ℓ κ μ} :
    {S : Type ℓ} {E : Type κ} {B : Type μ} → M S E (Unit {0}) → M S E B → M S E B
m >> k = m >>= λ _. k

abbrev pub return {ℓ κ μ} : {S : Type ℓ} {E : Type κ} {A : Type μ} → A → M S E A
return a s = (s, ok a)

abbrev pub fail {ℓ κ μ} : {S : Type ℓ} {E : Type κ} {A : Type μ} → E → M S E A
fail e s = (s, err e)

-- `option.ok_or(error)?`.
abbrev pub ok_or {ℓ κ μ} : {S : Type ℓ} {E : Type κ} {A : Type μ} → Option A → E → M S E A
ok_or none e s = (s, err e)
ok_or (some a) e s = (s, ok a)

pub Result-cases {ℓ κ} :
    {A : Type ℓ} {E : Type κ} (r : Result A E) → ((a : A) × (r ≡ ok a)) ⊎ ((e : E) × (r ≡ err e))
Result-cases (ok a) = inl (a, refl)
Result-cases (err e) = inr (e, refl)

-- A property of a match on a result holds if it holds of both arms.
pub result-cases {ℓ κ μ ν} :
    {A : Type ℓ} {E : Type κ} {B : Type μ} (P : B → Type ν) (r : Result A E) (f : A → B) (g : E → B)
    → ((a : A) → r ≡ ok a → P (f a))
    → ((e : E) → r ≡ err e → P (g e))
    → P (elim r [ ok a ↦ f a | err e ↦ g e ])
result-cases P (ok a) f g p q = p a refl
result-cases P (err e) f g p q = q e refl
