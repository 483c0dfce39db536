-- ===== src/Platform/Held/Releases.antt =====
-- A release of all input lets go of exactly what is held.
use tevir.Prelude.{
  ℕ, ◌+◌, ◌≡◌, refl, Bool, false, List, [], ◌∷◌, ◌++◌, map, any, ◌==◌, Bool-cases, inl, inr, subst,
  if◌then◌else◌, arith,
}
use tevir.Domain.Input.{
  PhysicalKey, KeyAction, ButtonAction, MouseButton, InputKind, InputEvent, physical_key_eq,
  mouse_button_eq,
}
use tevir.Platform.Held.Sets.{Once}
use tevir.Platform.Held.Runs.{
  run, last_key, last_button, leaves_down, leaves_pressed, run-Sets, run_key-contains,
  run_button-contains,
}
use tevir.Platform.Held.{contains, no_input, key_release, button_release, release_all}

-- How many elements pass a test.
abbrev pub count {ℓ} : {A : Type ℓ} → (A → Bool) → List A → ℕ
count p [] = 0
count p (x ∷ xs) = (if p x then 1 else 0) + count p xs

-- An event that lets go of this key, or of this button.
abbrev pub releases_key : PhysicalKey → InputKind → Bool
releases_key k (InputKind.key key KeyAction.release) = key == k
releases_key k _ = false

abbrev pub releases_button : MouseButton → InputKind → Bool
releases_button b (InputKind.pointer_button button ButtonAction.release) = button == b
releases_button b _ = false

count-append {ℓ} :
    {A : Type ℓ} (p : A → Bool) (xs ys : List A) → count p (xs ++ ys) ≡ count p xs + count p ys
count-append p [] ys = omega arith
count-append p (x ∷ xs) ys = omega (arith, count-append p xs ys)

count_keys :
    (t : ℕ) (k : PhysicalKey) (keys : List PhysicalKey)
    → Once keys
    → count (λ e. releases_key k e.kind) (map (key_release t) keys)
      ≡ (if contains keys k then 1 else 0)
unfolding contains any
count_keys t k [] o = refl
count_keys t k (x ∷ xs) o = elim (Bool-cases (x == k)) [
  | inl same ↦
      let absent : contains xs k ≡ false =
        subst (λ j. contains xs j ≡ false) ((physical_key_eq.eq_iff x k).0 same) o.0 in
      ground (arith, count_keys t k xs o.1, absent)
  | inr other ↦ ground (arith, count_keys t k xs o.1)
]

count_buttons :
    (t : ℕ) (b : MouseButton) (buttons : List MouseButton)
    → Once buttons
    → count (λ e. releases_button b e.kind) (map (button_release t) buttons)
      ≡ (if contains buttons b then 1 else 0)
unfolding contains any
count_buttons t b [] o = refl
count_buttons t b (x ∷ xs) o = elim (Bool-cases (x == b)) [
  | inl same ↦
      let absent : contains xs b ≡ false =
        subst (λ j. contains xs j ≡ false) ((mouse_button_eq.eq_iff x b).0 same) o.0 in
      ground (arith, count_buttons t b xs o.1, absent)
  | inr other ↦ ground (arith, count_buttons t b xs o.1)
]

no_keys :
    (t : ℕ) (k : PhysicalKey) (buttons : List MouseButton)
    → count (λ e. releases_key k e.kind) (map (button_release t) buttons) ≡ 0
no_keys t k [] = refl
no_keys t k (x ∷ xs) = omega (arith, no_keys t k xs)

no_buttons :
    (t : ℕ) (b : MouseButton) (keys : List PhysicalKey)
    → count (λ e. releases_button b e.kind) (map (key_release t) keys) ≡ 0
no_buttons t b [] = refl
no_buttons t b (x ∷ xs) = omega (arith, no_buttons t b xs)

-- After any sequence of events on a new backend, a release of all input holds nothing any more, and
-- its events let go of each key exactly once if the last event on that key was no release, and not at
-- all otherwise; and the same of each button.
pub releases_exact :
    (es : List InputEvent) (t : ℕ) (k : PhysicalKey) (b : MouseButton)
    → let r = release_all (run no_input es) t in
      (r.0 ≡ no_input)
      × (count (λ e. releases_key k e.kind) r.1 ≡ (if leaves_down (last_key k es) then 1 else 0))
      × (count (λ e. releases_button b e.kind) r.1
          ≡ (if leaves_pressed (last_button b es) then 1 else 0))
unfolding release_all contains any
releases_exact es t k b =
    let h = run no_input es in
    let sets = run-Sets no_input es (tt, tt) in
    let pressed = map (key_release t) h.keys in
    let clicked = map (button_release t) h.buttons in
    (
      refl,
      ground (
        arith,
        count-append (λ (e : InputEvent). releases_key k e.kind) pressed clicked,
        count_keys t k h.keys sets.0,
        no_keys t k h.buttons,
        run_key-contains no_input k es,
      ),
      ground (
        arith,
        count-append (λ (e : InputEvent). releases_button b e.kind) pressed clicked,
        count_buttons t b h.buttons sets.1,
        no_buttons t b h.keys,
        run_button-contains no_input b es,
      ),
    )
