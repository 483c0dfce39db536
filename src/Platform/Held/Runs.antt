-- ===== src/Platform/Held/Runs.antt =====
-- Held input is what the last event on each key and each button says.
use tevir.Prelude.{
  ◌≡◌, refl, Bool, true, false, Option, none, some, List, [], ◌∷◌, ◌==◌, if◌then◌else◌, arith,
}
use tevir.Domain.Input.{
  PhysicalKey, KeyAction, ButtonAction, MouseButton, InputKind, InputEvent, physical_key_eq,
  mouse_button_eq,
}
use tevir.Platform.Held.{contains, HeldInput, observe, observe_kind}
use tevir.Platform.Held.Sets.{Once, contains-insert, contains-remove, insert-Once, remove-Once}

-- What the events say of a key: its last action, if any, and whether that leaves it down.
abbrev pub key_action : PhysicalKey → InputKind → Option KeyAction
key_action k (InputKind.key key action) = if key == k then some action else none
key_action k _ = none

abbrev pub button_action : MouseButton → InputKind → Option ButtonAction
button_action b (InputKind.pointer_button button action) = if button == b then some action else none
button_action b _ = none

abbrev pub later_or {ℓ} : {A : Type ℓ} → Option A → Option A → Option A
later_or (some a) earlier = some a
later_or none earlier = earlier

abbrev pub last_key : PhysicalKey → List InputEvent → Option KeyAction
last_key k [] = none
last_key k (e ∷ es) = later_or (last_key k es) (key_action k e.kind)

abbrev pub last_button : MouseButton → List InputEvent → Option ButtonAction
last_button b [] = none
last_button b (e ∷ es) = later_or (last_button b es) (button_action b e.kind)

abbrev pub leaves_down : Option KeyAction → Bool
leaves_down none = false
leaves_down (some KeyAction.release) = false
leaves_down (some _) = true

abbrev pub leaves_pressed : Option ButtonAction → Bool
leaves_pressed none = false
leaves_pressed (some ButtonAction.release) = false
leaves_pressed (some ButtonAction.press) = true

-- The held input after a sequence of events.
unfoldable pub run : HeldInput → List InputEvent → HeldInput
run h [] = h
run h (e ∷ es) = run (observe h e) es

-- What an event makes of a state that held the key or not.
abbrev pub after_key : Bool → Option KeyAction → Bool
after_key down none = down
after_key down (some action) = leaves_down (some action)

abbrev pub after_button : Bool → Option ButtonAction → Bool
after_button down none = down
after_button down (some action) = leaves_pressed (some action)

observe_key-contains :
    (h : HeldInput) (k : PhysicalKey) (kind : InputKind)
    → contains (observe_kind h kind).keys k ≡ after_key (contains h.keys k) (key_action k kind)
unfolding observe_kind
observe_key-contains h k (InputKind.key key KeyAction.press) =
    ground (arith, contains-insert key k h.keys)
observe_key-contains h k (InputKind.key key (KeyAction.repeat n)) =
    ground (arith, contains-insert key k h.keys)
observe_key-contains h k (InputKind.key key KeyAction.release) =
    ground (arith, contains-remove key k h.keys)
observe_key-contains h k (InputKind.pointer_button button ButtonAction.press) = refl
observe_key-contains h k (InputKind.pointer_button button ButtonAction.release) = refl
observe_key-contains h k (InputKind.pointer_relative dx dy) = refl
observe_key-contains h k (InputKind.pointer_absolute p) = refl
observe_key-contains h k (InputKind.scroll d) = refl

observe_button-contains :
    (h : HeldInput) (b : MouseButton) (kind : InputKind)
    → contains (observe_kind h kind).buttons b
      ≡ after_button (contains h.buttons b) (button_action b kind)
unfolding observe_kind
observe_button-contains h b (InputKind.pointer_button button ButtonAction.press) =
    ground (arith, contains-insert button b h.buttons)
observe_button-contains h b (InputKind.pointer_button button ButtonAction.release) =
    ground (arith, contains-remove button b h.buttons)
observe_button-contains h b (InputKind.key key KeyAction.press) = refl
observe_button-contains h b (InputKind.key key (KeyAction.repeat n)) = refl
observe_button-contains h b (InputKind.key key KeyAction.release) = refl
observe_button-contains h b (InputKind.pointer_relative dx dy) = refl
observe_button-contains h b (InputKind.pointer_absolute p) = refl
observe_button-contains h b (InputKind.scroll d) = refl

pub run_key-contains :
    (h : HeldInput) (k : PhysicalKey) (es : List InputEvent)
    → contains (run h es).keys k ≡ after_key (contains h.keys k) (last_key k es)
unfolding run observe
run_key-contains h k [] = refl
run_key-contains h k (e ∷ es) =
    ground (arith, observe_key-contains h k e.kind, run_key-contains (observe h e) k es)

pub run_button-contains :
    (h : HeldInput) (b : MouseButton) (es : List InputEvent)
    → contains (run h es).buttons b ≡ after_button (contains h.buttons b) (last_button b es)
unfolding run observe
run_button-contains h b [] = refl
run_button-contains h b (e ∷ es) =
    ground (arith, observe_button-contains h b e.kind, run_button-contains (observe h e) b es)

-- Keys and buttons stand once each.
abbrev pub Sets : HeldInput → Type 0
Sets h = Once h.keys × Once h.buttons

observe_kind-Sets : (h : HeldInput) (kind : InputKind) → Sets h → Sets (observe_kind h kind)
unfolding observe_kind
observe_kind-Sets h (InputKind.key key KeyAction.press) s = (insert-Once key h.keys s.0, s.1)
observe_kind-Sets h (InputKind.key key (KeyAction.repeat n)) s = (insert-Once key h.keys s.0, s.1)
observe_kind-Sets h (InputKind.key key KeyAction.release) s = (remove-Once key h.keys s.0, s.1)
observe_kind-Sets h (InputKind.pointer_button button ButtonAction.press) s =
    (s.0, insert-Once button h.buttons s.1)
observe_kind-Sets h (InputKind.pointer_button button ButtonAction.release) s =
    (s.0, remove-Once button h.buttons s.1)
observe_kind-Sets h (InputKind.pointer_relative dx dy) s = s
observe_kind-Sets h (InputKind.pointer_absolute p) s = s
observe_kind-Sets h (InputKind.scroll d) s = s

pub run-Sets : (h : HeldInput) (es : List InputEvent) → Sets h → Sets (run h es)
unfolding run observe
run-Sets h [] s = s
run-Sets h (e ∷ es) s = run-Sets (observe h e) es (observe_kind-Sets h e.kind s)
