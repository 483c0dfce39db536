-- ===== src/Runtime/Shortcut/Sides.antt =====
-- The shortcut and the two keys of each kind.
use tevir.Prelude.{
  All, ap, eq_refl, ℕ, ◌≡◌, refl, sym, ◌∙◌, Option-cases, inl, inr, Bool, true, false, ◌&&◌, ◌||◌,
  none, some, List, [], ◌∷◌, ◌++◌, ◌==◌, arith,
}
use tevir.Domain.Input.{PhysicalKey, KeyAction, InputKind, InputEvent, physical_key_eq}
use tevir.Platform.Held.{no_input, contains}
use tevir.Platform.Held.Runs.{run, run_key-contains, after_key, last_key, leaves_down, key_action}
use tevir.Runtime.Shortcut.{
  not_held, left_control, right_control, left_alt, right_alt, is_control, is_alt, observe, watch,
}
use tevir.Runtime.Shortcut.Events.{action_of, last_of, presses_escape, event, watch_lem}

abbrev either : PhysicalKey → PhysicalKey → PhysicalKey → Bool
either a b key = key == a || key == b

-- One event on neither of two keys, and one that leaves one of them down.
neither :
    (a b : PhysicalKey) (kind : InputKind)
    → action_of (either a b) kind ≡ none
    → (key_action a kind ≡ none) × (key_action b kind ≡ none)
neither a b (InputKind.key key action) h = ground arith
neither a b (InputKind.pointer_button button action) h = (refl, refl)
neither a b (InputKind.pointer_relative dx dy) h = (refl, refl)
neither a b (InputKind.pointer_absolute p) h = (refl, refl)
neither a b (InputKind.scroll d) h = (refl, refl)

one_down :
    (a b : PhysicalKey) (kind : InputKind)
    → leaves_down (action_of (either a b) kind) ≡ true
    → (leaves_down (key_action a kind) || leaves_down (key_action b kind)) ≡ true
one_down a b (InputKind.key key action) h = ground arith
one_down a b (InputKind.pointer_button button action) h = absurd (ground arith)
one_down a b (InputKind.pointer_relative dx dy) h = absurd (ground arith)
one_down a b (InputKind.pointer_absolute p) h = absurd (ground arith)
one_down a b (InputKind.scroll d) h = absurd (ground arith)

neither_last :
    (a b : PhysicalKey) (es : List InputEvent)
    → last_of (either a b) es ≡ none
    → (last_key a es ≡ none) × (last_key b es ≡ none)
neither_last a b [] h = (refl, refl)
neither_last a b (e ∷ es) h = ground (arith, neither_last a b es, neither a b e.kind)

later_down :
    (k : PhysicalKey) (e : InputEvent) (es : List InputEvent)
    → leaves_down (last_key k es) ≡ true
    → leaves_down (last_key k (e ∷ es)) ≡ true
later_down k e es h = ground arith

-- If the last event on either of two keys left a key down, then one of them is down.
down_of :
    (a b : PhysicalKey) (es : List InputEvent)
    → leaves_down (last_of (either a b) es) ≡ true
    → (leaves_down (last_key a es) || leaves_down (last_key b es)) ≡ true
down_of a b [] h = absurd (ground arith)
down_of a b (e ∷ es) h = elim (Option-cases (last_of (either a b) es)) [
  | inl unseen ↦ ground (arith, neither_last a b es unseen, one_down a b e.kind)
  | inr (action, seen) ↦ ground (arith, down_of a b es, later_down a e es, later_down b e es)
]

-- Whatever the events before it, an event that takes control back is one of the escape key's, and a
-- control key and an alt key are down then: the last event on that key was no release.
pub watch_held :
    (es : List InputEvent) (e : InputEvent)
    → (observe (watch not_held es) e).1 ≡ true
    → (presses_escape e.kind ≡ true)
      × ((leaves_down (last_key left_control es) || leaves_down (last_key right_control es)) ≡ true)
      × ((leaves_down (last_key left_alt es) || leaves_down (last_key right_alt es)) ≡ true)
watch_held es e h =
    let fired : (presses_escape e.kind
          && leaves_down (last_of is_control es)
          && leaves_down (last_of is_alt es))
        ≡ true =
      sym (watch_lem es e) ∙ h in
    (
      ground arith,
      down_of left_control right_control es (ground arith),
      down_of left_alt right_alt es (ground arith),
    )

-- An event of no control key.
abbrev pub SparesControl : InputEvent → Type 0
SparesControl e = action_of is_control e.kind ≡ none

spared_last : (es : List InputEvent) → All SparesControl es → last_of is_control es ≡ none
spared_last [] h = refl
spared_last (e ∷ es) h = ground (arith, spared_last es h.1, h.0)

release_last :
    (es later : List InputEvent) (t : ℕ)
    → All SparesControl later
    → last_of is_control (es ++ event (InputKind.key left_control KeyAction.release) t ∷ later)
      ≡ some KeyAction.release
release_last [] later t h = ground (arith, eq_refl left_control, spared_last later h)
release_last (e ∷ es) later t h = ground (arith, release_last es later t h)

release_other :
    (es later : List InputEvent) (t : ℕ)
    → All SparesControl later
    → last_key right_control (es ++ event (InputKind.key left_control KeyAction.release) t ∷ later)
      ≡ last_key right_control es
release_other [] later t h = ground (
  arith,
  physical_key_eq.eq_iff left_control right_control,
  neither_last left_control right_control later (spared_last later h),
)
release_other (e ∷ es) later t h = ground (arith, release_other es later t h)

-- If the left control key is released while the right one is held, then the right one is held still, but no
-- event takes control back, until a control key has another event.
pub release_disarms :
    (es later : List InputEvent) (t : ℕ) (e : InputEvent)
    → contains (run no_input es).keys right_control ≡ true
    → All SparesControl later
    → let seen = es ++ event (InputKind.key left_control KeyAction.release) t ∷ later in
      (contains (run no_input seen).keys right_control ≡ true)
      × ((observe (watch not_held seen) e).1 ≡ false)
release_disarms es later t e held spared =
    let seen = es ++ event (InputKind.key left_control KeyAction.release) t ∷ later in
    (
      run_key-contains no_input right_control seen
          ∙ ap (after_key (contains no_input.keys right_control)) (release_other es later t spared)
          ∙ sym (run_key-contains no_input right_control es)
          ∙ held,
      ground (arith, watch_lem seen e, release_last es later t spared),
    )
