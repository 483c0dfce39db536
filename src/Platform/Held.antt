-- ===== src/Platform/Held.antt =====
-- crates/platform/src/state.rs. A `HashSet` is a list of its elements, each once; `drain` gives them in
-- some order, here that of the list.
mod Sets
pub mod Runs
pub mod Releases
mod Examples
use tevir.Prelude.{
  ℕ, Bool, not, List, [], ◌∷◌, ◌++◌, map, any, filter, ◌==◌, PartialEq, if◌then◌else◌,
}
use tevir.Domain.Input.{
  PhysicalKey, KeyAction, ButtonAction, MouseButton, InputKind, InputEvent, physical_key_eq,
  mouse_button_eq,
}

-- `HashSet::contains`, `insert` and `remove`.
module _ {ℓ} {A : Type ℓ} ⦃e : PartialEq A⦄ where
  unfoldable pub contains : List A → A → Bool
  contains set a = any (λ x. x == a) set

  unfoldable pub insert : A → List A → List A
  unfolding contains
  insert a set = if contains set a then set else a ∷ set

  unfoldable pub remove : A → List A → List A
  remove a set = filter (λ x. not (x == a)) set

pub record HeldInput : Type 0 where
  pub keys : List PhysicalKey
  pub buttons : List MouseButton

-- `HeldInput::default`.
abbrev pub no_input : HeldInput
no_input = record { keys = []; buttons = [] }

unfoldable pub observe_key : HeldInput → PhysicalKey → KeyAction → HeldInput
unfolding insert remove
observe_key h key KeyAction.press = record h { keys = insert key h.keys }
observe_key h key (KeyAction.repeat count) = record h { keys = insert key h.keys }
observe_key h key KeyAction.release = record h { keys = remove key h.keys }

unfoldable pub observe_button : HeldInput → MouseButton → ButtonAction → HeldInput
unfolding insert remove
observe_button h button ButtonAction.press = record h { buttons = insert button h.buttons }
observe_button h button ButtonAction.release = record h { buttons = remove button h.buttons }

unfoldable pub observe_kind : HeldInput → InputKind → HeldInput
unfolding observe_key observe_button
observe_kind h (InputKind.key key action) = observe_key h key action
observe_kind h (InputKind.pointer_button button action) = observe_button h button action
observe_kind h (InputKind.pointer_relative dx dy) = h
observe_kind h (InputKind.pointer_absolute position) = h
observe_kind h (InputKind.scroll delta) = h

unfoldable pub observe : HeldInput → InputEvent → HeldInput
unfolding observe_kind
observe h event = observe_kind h event.kind

abbrev pub key_release : ℕ → PhysicalKey → InputEvent
key_release elapsed_micros key = record {
  elapsed_micros = elapsed_micros;
  kind = InputKind.key key KeyAction.release;
}

abbrev pub button_release : ℕ → MouseButton → InputEvent
button_release elapsed_micros button = record {
  elapsed_micros = elapsed_micros;
  kind = InputKind.pointer_button button ButtonAction.release;
}

unfoldable pub release_all : HeldInput → ℕ → HeldInput × List InputEvent
release_all h elapsed_micros = (
  no_input,
  map (key_release elapsed_micros) h.keys ++ map (button_release elapsed_micros) h.buttons,
)
