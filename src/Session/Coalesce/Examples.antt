-- ===== src/Session/Coalesce/Examples.antt =====
-- A buffer of a key and a motion, and the theorems at pushes to it.
use tevir.Prelude.{
  ◌≡◌, ◌≤◌, ◌+◌, ◌+ℤ◌, ◌⊎◌, inl, refl, pos, true, false, length, [], ◌∷◌, ◌++◌, saturating_add,
  arith,
}
use tevir.Domain.Input.{InputKind}
use tevir.Protocol.Message.{max_input_events_per_batch}
use tevir.Session.Scenario.{event, motion}
use tevir.Session.Coalesce.{EventBuffer, can_coalesce, is_full, push, push_event}
use tevir.Session.Coalesce.Merging.{
  push_bounded, transitions, transitions-push, motion_x, motion_y, total, total-push,
}

abbrev held : EventBuffer
held = record { events = event ∷ motion 2 ∷ [] }

merged :
    (push held (motion 5)).0.events
    ≡ event ∷ record (motion 5) { kind = InputKind.pointer_relative (pos 6) (pos 8) } ∷ []
unfolding push push_event ◌+ℤ◌ saturating_add
merged = refl

room : is_full held ≡ false
unfolding is_full
room = refl

push_bounded_example :
    let (b', full) = push held (motion 5) in
    (length b'.events ≤ max_input_events_per_batch)
    × (is_full b' ≡ full)
    × (((can_coalesce held (motion 5) ≡ true) × (length b'.events ≡ 2))
        ⊎ ((can_coalesce held (motion 5) ≡ false) × (length b'.events ≡ 2 + 1)))
push_bounded_example = push_bounded held (motion 5) (omega arith) (inl room)

transitions-push_example :
    transitions (push held (motion 5)).0.events
    ≡ transitions held.events ++ transitions (motion 5 ∷ [])
transitions-push_example = transitions-push held (motion 5)

total-push_example :
    (total motion_x (push held (motion 5)).0.events ≡ total motion_x held.events +ℤ pos 3)
    × (total motion_y (push held (motion 5)).0.events ≡ total motion_y held.events +ℤ pos 4)
unfolding ◌+ℤ◌
total-push_example = total-push held (motion 5) (ground arith)
