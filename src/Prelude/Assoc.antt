-- ===== src/Prelude/Assoc.antt =====
-- Maps as association lists: `BTreeMap` and `HashMap` where no order is read.
use mathlib.Core.Path.{◌≡◌, refl}
use mathlib.Core.Bool.{Bool}
use mathlib.Core.List.{List, [], ◌∷◌}
use mathlib.Core.Option.{Option, none, some}
use native.Mathlib.Omega.{arith}
use mathlib.Core.Path.{subst}
use mathlib.Core.Logic.{inl, inr}
use tevir.Prelude.Tests.{PartialEq, Bool-cases, if-cases, ◌==◌, if◌then◌else◌}

module _ {ℓ κ} {K : Type ℓ} {V : Type κ} ⦃e : PartialEq K⦄ where
  unfoldable pub lookup : K → List (K × V) → Option V
  lookup key [] = none
  lookup key ((other, value) ∷ entries) = if other == key then some value else lookup key entries

  -- Replaces the entry of the key, or adds one.
  unfoldable pub insert : K → V → List (K × V) → List (K × V)
  insert key value [] = (key, value) ∷ []
  insert key value ((other, held) ∷ entries) =
      if other == key then (other, value) ∷ entries else (other, held) ∷ insert key value entries

  -- `retain`, by the keys.
  unfoldable pub retain : (K → Bool) → List (K × V) → List (K × V)
  retain keep [] = []
  retain keep ((other, value) ∷ entries) =
      if keep other then (other, value) ∷ retain keep entries else retain keep entries

  pub lookup-insert :
      (key other : K) (value : V) (entries : List (K × V))
      → lookup other (insert key value entries)
        ≡ (if key == other then some value else lookup other entries)
  unfolding lookup insert
  lookup-insert key other value [] = refl
  lookup-insert key other value ((first, held) ∷ entries) = ground (
    arith,
    e.eq_iff key other,
    e.eq_iff first key,
    e.eq_iff first other,
    lookup-insert key other value entries,
  )

  pub lookup-retain :
      (keep : K → Bool) (other : K) (entries : List (K × V))
      → lookup other (retain keep entries) ≡ (if keep other then lookup other entries else none)
  unfolding lookup retain
  lookup-retain keep other [] = ground arith
  lookup-retain keep other ((first, held) ∷ entries) =
      ground (arith, e.eq_iff first other, lookup-retain keep other entries)

  -- A predicate of every value of a map.
  abbrev pub AllValues {μ} : (V → Type μ) → List (K × V) → Type μ
  AllValues P [] = Unit
  AllValues P ((other, value) ∷ entries) = P value × AllValues P entries

  pub AllValues-lookup {μ} :
      (P : V → Type μ) (key : K) (entries : List (K × V)) (value : V)
      → AllValues P entries
      → lookup key entries ≡ some value
      → P value
  unfolding lookup
  AllValues-lookup P key [] value h e = absurd (ground arith)
  AllValues-lookup P key ((other, held) ∷ entries) value h e = elim (Bool-cases (other == key)) [
    | inl hit ↦ let same : held ≡ value = ground arith in subst P same h.0
    | inr miss ↦ AllValues-lookup P key entries value h.1 (ground arith)
  ]

  pub AllValues-insert {μ} :
      (P : V → Type μ) (key : K) (value : V) (entries : List (K × V))
      → P value
      → AllValues P entries
      → AllValues P (insert key value entries)
  unfolding insert
  AllValues-insert P key value [] p h = (p, tt)
  AllValues-insert P key value ((other, held) ∷ entries) p h =
      if-cases (AllValues P) (other == key) ((other, value) ∷ entries)
        ((other, held) ∷ insert key value entries) (λ _. (p, h.1))
        (λ _. (h.0, AllValues-insert P key value entries p h.1))

  pub AllValues-retain {μ} :
      (P : V → Type μ) (keep : K → Bool) (entries : List (K × V))
      → AllValues P entries
      → AllValues P (retain keep entries)
  unfolding retain
  AllValues-retain P keep [] h = tt
  AllValues-retain P keep ((other, held) ∷ entries) h =
      if-cases (AllValues P) (keep other) ((other, held) ∷ retain keep entries)
        (retain keep entries) (λ _. (h.0, AllValues-retain P keep entries h.1))
        (λ _. AllValues-retain P keep entries h.1)
