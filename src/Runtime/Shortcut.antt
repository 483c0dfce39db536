-- ===== src/Runtime/Shortcut.antt =====
-- crates/tevir/src/runtime.rs: the shortcut that takes control back.
pub mod Events
pub mod Sides
use tevir.Prelude.{ℕ, Bool, true, false, ◌&&◌, ◌||◌, List, [], ◌∷◌, ◌==◌, if◌then◌else◌}
use tevir.Domain.Input.{PhysicalKey, KeyAction, InputKind, InputEvent, physical_key_eq}

abbrev pub left_control : PhysicalKey
left_control = record { usage_page = 7; usage_id = 224 }

abbrev pub right_control : PhysicalKey
right_control = record { usage_page = 7; usage_id = 228 }

abbrev pub left_alt : PhysicalKey
left_alt = record { usage_page = 7; usage_id = 226 }

abbrev pub right_alt : PhysicalKey
right_alt = record { usage_page = 7; usage_id = 230 }

abbrev pub escape : PhysicalKey
escape = record { usage_page = 7; usage_id = 41 }

pub record EmergencyShortcut : Type 0 where
  pub control : Bool
  pub alt : Bool

abbrev pub not_held : EmergencyShortcut
not_held = record { control = false; alt = false }

-- `matches!(action, KeyAction::Release)` and `KeyAction::Press`.
abbrev pub is_release : KeyAction → Bool
is_release KeyAction.release = true
is_release _ = false

abbrev pub is_press : KeyAction → Bool
is_press KeyAction.press = true
is_press _ = false

abbrev pub is_control : PhysicalKey → Bool
is_control key = key == left_control || key == right_control

abbrev pub is_alt : PhysicalKey → Bool
is_alt key = key == left_alt || key == right_alt

-- The receiver after `observe`, and its result.
unfoldable pub observe : EmergencyShortcut → InputEvent → EmergencyShortcut × Bool
observe s event = elim (event.kind) [
  | InputKind.key key action ↦
      let pressed = if is_release action then false else true in
      if is_control key
      then (record { control = pressed; alt = s.alt }, false)
      else if is_alt key
      then (record { control = s.control; alt = pressed }, false)
      else if key == escape && is_press action
      then (s, s.control && s.alt)
      else (s, false)
  | _ ↦ (s, false)
]

-- The shortcut after a sequence of events.
unfoldable pub watch : EmergencyShortcut → List InputEvent → EmergencyShortcut
watch s [] = s
watch s (e ∷ es) = watch ((observe s e).0) es
