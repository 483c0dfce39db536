-- ===== src/Platform/Held/Examples.antt =====
-- The test of held input, and the theorem on its events.
use tevir.Prelude.{any, filter, ◌≡◌, refl, List, [], ◌∷◌, if◌then◌else◌}
use tevir.Domain.Input.{
  PhysicalKey, KeyAction, ButtonAction, MouseButton, InputKind, InputEvent, PhysicalKey-discrete,
  MouseButton-discrete,
}
use tevir.Platform.Held.{no_input, observe, key_release, release_all}
use tevir.Platform.Held.Runs.{run, last_key, last_button, leaves_down, leaves_pressed}
use tevir.Platform.Held.Releases.{count, releases_key, releases_button, releases_exact}

abbrev key : PhysicalKey
key = record { usage_page = 7; usage_id = 4 }

abbrev pressed : KeyAction → InputEvent
pressed action = record { elapsed_micros = 1; kind = InputKind.key key action }

abbrev clicked : ButtonAction → InputEvent
clicked action = record {
  elapsed_micros = 2;
  kind = InputKind.pointer_button MouseButton.primary action;
}

abbrev events : List InputEvent
events =
    pressed KeyAction.press
    ∷ clicked ButtonAction.press
    ∷ clicked ButtonAction.release
    ∷ pressed (KeyAction.repeat 2)
    ∷ []

one_release : (release_all (run no_input events) 10).1 ≡ key_release 10 key ∷ []
unfolding release_all run observe any filter PhysicalKey-discrete MouseButton-discrete
one_release = refl

releases_exact_example :
    let r = release_all (run no_input events) 10 in
    (r.0 ≡ no_input)
    × (count (λ e. releases_key key e.kind) r.1
        ≡ (if leaves_down (last_key key events) then 1 else 0))
    × (count (λ e. releases_button MouseButton.primary e.kind) r.1
        ≡ (if leaves_pressed (last_button MouseButton.primary events) then 1 else 0))
releases_exact_example = releases_exact events 10 key MouseButton.primary
