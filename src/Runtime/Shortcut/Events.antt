-- ===== src/Runtime/Shortcut/Events.antt =====
-- When the shortcut takes control back, by the events before it.
use tevir.Prelude.{
  ℕ, ◌≡◌, refl, Bool, true, false, ◌&&◌, ◌||◌, Option, none, some, List, [], ◌∷◌, ◌==◌,
  if◌then◌else◌, arith,
}
use tevir.Domain.Input.{PhysicalKey, KeyAction, InputKind, InputEvent, physical_key_eq}
use tevir.Platform.Held.Runs.{later_or, leaves_down, after_key}
use tevir.Runtime.Shortcut.{
  EmergencyShortcut, not_held, left_control, right_control, left_alt, right_alt, escape, is_control,
  is_alt, is_press, observe, watch,
}

-- The last action on any of a kind of keys.
abbrev pub action_of : (PhysicalKey → Bool) → InputKind → Option KeyAction
action_of p (InputKind.key key action) = if p key then some action else none
action_of p _ = none

abbrev pub last_of : (PhysicalKey → Bool) → List InputEvent → Option KeyAction
last_of p [] = none
last_of p (e ∷ es) = later_or (last_of p es) (action_of p e.kind)

abbrev pub presses_escape : InputKind → Bool
presses_escape (InputKind.key key action) = key == escape && is_press action
presses_escape _ = false

-- A control key is not an alt key, and neither is the escape key.
alt_apart : (key : PhysicalKey) → is_alt key ≡ true → is_control key ≡ false
alt_apart key h = ground (
  arith,
  physical_key_eq.eq_iff key left_control,
  physical_key_eq.eq_iff key right_control,
  physical_key_eq.eq_iff key left_alt,
  physical_key_eq.eq_iff key right_alt,
)

escape_apart : (key : PhysicalKey) → (key == escape) ≡ true → (is_control key || is_alt key) ≡ false
escape_apart key h = ground (
  arith,
  physical_key_eq.eq_iff key left_control,
  physical_key_eq.eq_iff key right_control,
  physical_key_eq.eq_iff key left_alt,
  physical_key_eq.eq_iff key right_alt,
  physical_key_eq.eq_iff key escape,
)

abbrev pub event : InputKind → ℕ → InputEvent
event kind t = record { elapsed_micros = t; kind = kind }

observe-control :
    (s : EmergencyShortcut) (kind : InputKind) (t : ℕ)
    → (observe s (event kind t)).0.control ≡ after_key s.control (action_of is_control kind)
unfolding observe
observe-control s (InputKind.key key KeyAction.press) t = ground arith
observe-control s (InputKind.key key (KeyAction.repeat n)) t = ground arith
observe-control s (InputKind.key key KeyAction.release) t = ground arith
observe-control s (InputKind.pointer_button b action) t = refl
observe-control s (InputKind.pointer_relative dx dy) t = refl
observe-control s (InputKind.pointer_absolute p) t = refl
observe-control s (InputKind.scroll d) t = refl

observe-alt :
    (s : EmergencyShortcut) (kind : InputKind) (t : ℕ)
    → (observe s (event kind t)).0.alt ≡ after_key s.alt (action_of is_alt kind)
unfolding observe
observe-alt s (InputKind.key key KeyAction.press) t = ground (arith, alt_apart key)
observe-alt s (InputKind.key key (KeyAction.repeat n)) t = ground (arith, alt_apart key)
observe-alt s (InputKind.key key KeyAction.release) t = ground (arith, alt_apart key)
observe-alt s (InputKind.pointer_button b action) t = refl
observe-alt s (InputKind.pointer_relative dx dy) t = refl
observe-alt s (InputKind.pointer_absolute p) t = refl
observe-alt s (InputKind.scroll d) t = refl

observe-result :
    (s : EmergencyShortcut) (kind : InputKind) (t : ℕ)
    → (observe s (event kind t)).1 ≡ (presses_escape kind && s.control && s.alt)
unfolding observe
observe-result s (InputKind.key key KeyAction.press) t = ground (arith, escape_apart key)
observe-result s (InputKind.key key (KeyAction.repeat n)) t = ground (arith, escape_apart key)
observe-result s (InputKind.key key KeyAction.release) t = ground (arith, escape_apart key)
observe-result s (InputKind.pointer_button b action) t = refl
observe-result s (InputKind.pointer_relative dx dy) t = refl
observe-result s (InputKind.pointer_absolute p) t = refl
observe-result s (InputKind.scroll d) t = refl

watch-control :
    (s : EmergencyShortcut) (es : List InputEvent)
    → (watch s es).control ≡ after_key s.control (last_of is_control es)
unfolding watch
watch-control s [] = refl
watch-control s (e ∷ es) =
    ground (arith, observe-control s e.kind e.elapsed_micros, watch-control ((observe s e).0) es)

watch-alt :
    (s : EmergencyShortcut) (es : List InputEvent)
    → (watch s es).alt ≡ after_key s.alt (last_of is_alt es)
unfolding watch
watch-alt s [] = refl
watch-alt s (e ∷ es) =
    ground (arith, observe-alt s e.kind e.elapsed_micros, watch-alt ((observe s e).0) es)

-- After any sequence of events on a new shortcut, an event takes control back exactly if it presses the
-- escape key while the last event on either control key was no release, and the last one on either alt
-- key was none, and both have had one.
pub watch_lem :
    (es : List InputEvent) (e : InputEvent)
    → (observe (watch not_held es) e).1 ≡ (
        presses_escape e.kind
        && leaves_down (last_of is_control es)
        && leaves_down (last_of is_alt es))
watch_lem es e = ground (
  arith,
  observe-result (watch not_held es) e.kind e.elapsed_micros,
  watch-control not_held es,
  watch-alt not_held es,
)
