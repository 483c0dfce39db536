-- ===== src/Platform/Held/Sets.antt =====
-- The sets of held keys and buttons: membership, and each element once.
use tevir.Prelude.{
  ◌≡◌, refl, true, false, ◌&&◌, ◌||◌, not, List, [], ◌∷◌, any, filter, ◌==◌, PartialEq, Bool-cases,
  inl, inr, subst, arith,
}
use tevir.Domain.Input.{physical_key_eq, mouse_button_eq}
use tevir.Platform.Held.{contains, insert, remove}

module _ {ℓ} {A : Type ℓ} ⦃e : PartialEq A⦄ where
  pub contains-insert :
      (a b : A) (set : List A) → contains (insert a set) b ≡ ((a == b) || contains set b)
  unfolding contains insert any
  contains-insert a b set = elim (Bool-cases (contains set a)) [
    | inl there ↦ elim (Bool-cases (a == b)) [
      | inl same ↦
          let e' : contains set b ≡ true =
            subst (λ x. contains set x ≡ true) ((e.eq_iff a b).0 same) there in
          ground (arith, e')
      | inr other ↦ ground arith
    ]
    | inr new_ ↦ ground arith
  ]

  pub contains-remove :
      (a b : A) (set : List A) → contains (remove a set) b ≡ (contains set b && not (a == b))
  unfolding contains remove any filter
  contains-remove a b [] = refl
  contains-remove a b (x ∷ xs) =
      ground (arith, e.eq_iff x a, e.eq_iff x b, e.eq_iff a b, contains-remove a b xs)

  -- Each element once.
  abbrev pub Once : List A → Type 0
  Once [] = Unit
  Once (x ∷ xs) = (contains xs x ≡ false) × Once xs

  pub insert-Once : (a : A) (set : List A) → Once set → Once (insert a set)
  unfolding contains insert any
  insert-Once a set o = ground arith

  pub remove-Once : (a : A) (set : List A) → Once set → Once (remove a set)
  unfolding remove filter
  remove-Once a [] o = tt
  remove-Once a (x ∷ xs) o = ground (arith, contains-remove a x xs, remove-Once a xs o.1)
