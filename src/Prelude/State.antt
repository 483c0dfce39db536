-- ===== src/Prelude/State.antt =====
-- Reading and changing the receiver inside a method's `do` block.
use mathlib.Core.Path.{◌≡◌, refl, sym, subst}
use native.Mathlib.Omega.{arith}
use tevir.Prelude.Outcome.{M, Result, ok, err, ◌>>=◌}

abbrev pub get {ℓ κ} : {S : Type ℓ} {E : Type κ} → M S E S
get s = (s, ok s)

abbrev pub modify {ℓ κ} : {S : Type ℓ} {E : Type κ} → (S → S) → M S E (Unit {0})
modify f s = (f s, ok tt)

-- A step that reads the receiver and cannot change it.
abbrev pub reads {ℓ κ μ} : {S : Type ℓ} {E : Type κ} {A : Type μ} → (S → Result A E) → M S E A
reads f s = (s, f s)

-- A method keeps an invariant, whether it succeeds or fails.
abbrev pub Preserves {ℓ κ μ ν} :
    {S : Type ℓ} {E : Type κ} {A : Type μ} → (S → Type ν) → M S E A → Type (ℓ ⊔ ν)
Preserves I m = (s : _) → I s → I (m s).0

module _ {ℓ κ μ ν ρ} {S : Type ℓ} {E : Type κ} {A : Type μ} {B : Type ρ} (I : S → Type ν) where
  pub bind-Preserves :
      (m : M S E A) (f : A → M S E B)
      → Preserves I m
      → ((a : A) → Preserves I (f a))
      → Preserves I (m >>= f)
  bind-Preserves m f p q s h = go (m s).0 (m s).1 (p s h)
    where
      go :
          (t : S) (r : Result A E)
          → I t
          → I ((elim r as (λ _. S × Result B E) [ ok a ↦ f a t | err e ↦ (t, err e) ]).0)
      go t (ok a) k = q a t k
      go t (err e) k = k

module _ {ℓ κ μ ρ} {S : Type ℓ} {E : Type κ} {A : Type μ} {B : Type ρ} where
  -- What a sequence of two methods does, by what the first one did.
  pub bind-cases {σ} :
      (P : S × Result B E → Type σ) (m : M S E A) (f : A → M S E B) (s : S)
      → ((t : S) (e : E) → m s ≡ (t, err e) → P (t, err e))
      → ((t : S) (a : A) → m s ≡ (t, ok a) → P (f a t))
      → P ((m >>= f) s)
  bind-cases P m f s p q = go (m s) refl
    where
      go :
          (o : S × Result A E)
          → m s ≡ o
          → P (elim (o.1) as (λ _. S × Result B E) [ ok a ↦ f a o.0 | err e ↦ (o.0, err e) ])
      go (t, ok a) e = q t a e
      go (t, err x) e = p t x e

-- How a method ends: a success with `Q` of its result and state, an error with `I` of the state.
abbrev pub Ends {ℓ κ μ ν} :
    {S : Type ℓ} {E : Type κ} {A : Type μ}
    → (S → Type ν)
    → (A → S → Type ν)
    → S × Result A E
    → Type ν
Ends I Q (t, ok a) = Q a t
Ends I Q (t, err e) = I t

pub bind-Ends {ℓ κ μ ν ρ} :
    {S : Type ℓ} {E : Type κ} {A : Type μ} {B : Type ρ} (I : S → Type ν) (Q : A → S → Type ν)
    (R : B → S → Type ν) (m : M S E A) (f : A → M S E B) (s : S)
    → Ends I Q (m s)
    → ((a : A) (t : S) → Q a t → Ends I R (f a t))
    → Ends I R ((m >>= f) s)
bind-Ends {S} {E} {A} {B} I Q R m f s h k = go (m s).0 (m s).1 h
  where
    go :
        (t : S) (r : Result A E)
        → Ends I Q (t, r)
        → Ends I R (elim r as (λ _. S × Result B E) [ ok a ↦ f a t | err e ↦ (t, err e) ])
    go t (ok a) q = k a t q
    go t (err e) q = q

pub bind-ok {ℓ κ μ ρ} :
    {S : Type ℓ} {E : Type κ} {A : Type μ} {B : Type ρ} (m : M S E A) (f : A → M S E B) (s t : S)
    (a : A)
    → m s ≡ (t, ok a)
    → (m >>= f) s ≡ f a t
bind-ok {S} {E} {A} {B} m f s t a e =
    subst
      (λ (o : S × Result A E).
        (elim (o.1) as (λ _. S × Result B E) [ ok x ↦ f x o.0 | err x ↦ (o.0, err x) ]) ≡ f a t)
      (sym e) refl

-- A method that succeeds leaves a state with `P`; of an error nothing is said.
abbrev pub Then : {S E A : Type 0} → (S → Type 0) → S × Result A E → Type 0
Then P o = Ends (λ _. Unit {0}) (λ _. P) o

module _ {S E A : Type 0} where
  pub bind-Then :
      {B : Type 0} (P Q : S → Type 0) (m : M S E A) (f : A → M S E B) (s : S)
      → Then P (m s)
      → ((a : A) (t : S) → P t → Then Q (f a t))
      → Then Q ((m >>= f) s)
  bind-Then P Q m f s h k = bind-Ends (λ _. Unit {0}) (λ _. P) (λ _. Q) m f s h k

  pub ok-Then : {a : A} (P : S → Type 0) (o : S × Result A E) → o.1 ≡ ok a → Then P o → P o.0
  ok-Then P (t, ok b) e h = h
  ok-Then P (t, err x) e h = absurd (ground arith)

  pub any-Then : (P : S → Type 0) (o : S × Result A E) → P o.0 → Then P o
  any-Then P (t, ok a) h = h
  any-Then P (t, err e) h = tt

  pub Then-map :
      (P Q : S → Type 0) (o : S × Result A E) → ((t : S) → P t → Q t) → Then P o → Then Q o
  Then-map P Q (t, ok a) f h = f t h
  Then-map P Q (t, err e) f h = tt
