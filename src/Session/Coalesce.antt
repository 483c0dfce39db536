-- ===== src/Session/Coalesce.antt =====
-- crates/session/src/coalesce.rs: the buffer of captured events, which merges pointer motion into
-- its last event. The debug assertion of `push` is its caller's duty.
pub mod Merging
mod Examples
use tevir.Prelude.{
  ℕ, ℤ, Bool, true, false, Option, none, some, List, [], ◌∷◌, length, is_empty, leb, max,
  saturating_add,
}
use tevir.Domain.Input.{InputKind, InputEvent}
use tevir.Protocol.Message.{max_input_events_per_batch}

pub record EventBuffer : Type 0 where
  pub events : List InputEvent

abbrev pub empty : EventBuffer
empty = record { events = [] }

-- The two patterns of `can_coalesce`.
unfoldable pub same_motion : InputKind → InputKind → Bool
same_motion (InputKind.pointer_relative a b) (InputKind.pointer_relative c d) = true
same_motion (InputKind.pointer_absolute p) (InputKind.pointer_absolute q) = true
same_motion _ _ = false

unfoldable pub can_follow : List InputEvent → InputEvent → Bool
unfolding same_motion
can_follow [] event = false
can_follow (previous ∷ []) event = same_motion previous.kind event.kind
can_follow (first ∷ second ∷ rest) event = can_follow (second ∷ rest) event

unfoldable pub can_coalesce : EventBuffer → InputEvent → Bool
unfolding can_follow
can_coalesce b event = can_follow b.events event

-- The `match` of `push`: what the last event becomes, if the new one is merged into it.
unfoldable pub merge_kind : InputKind → InputKind → Option InputKind
merge_kind (InputKind.pointer_relative previous_x previous_y)
      (InputKind.pointer_relative dx_micropixels dy_micropixels) =
    some (
      InputKind.pointer_relative (saturating_add previous_x dx_micropixels)
        (saturating_add previous_y dy_micropixels))
merge_kind (InputKind.pointer_absolute previous_point) (InputKind.pointer_absolute point) =
    some (InputKind.pointer_absolute point)
merge_kind _ _ = none

unfoldable pub merge : InputEvent → InputEvent → List InputEvent
unfolding merge_kind
merge previous event = elim (merge_kind previous.kind event.kind) [
  | none ↦ previous ∷ event ∷ []
  | some kind ↦
      record { elapsed_micros = max previous.elapsed_micros event.elapsed_micros; kind = kind } ∷ []
]

-- The events after `push`.
unfoldable pub push_event : List InputEvent → InputEvent → List InputEvent
unfolding merge
push_event [] event = event ∷ []
push_event (previous ∷ []) event = merge previous event
push_event (first ∷ second ∷ rest) event = first ∷ push_event (second ∷ rest) event

unfoldable pub push : EventBuffer → InputEvent → EventBuffer × Bool
unfolding push_event
push b event =
    let events = push_event b.events event in
    (record { events = events }, leb max_input_events_per_batch (length events))

-- `take` leaves the empty buffer.
unfoldable pub take : EventBuffer → EventBuffer × List InputEvent
take b = (empty, b.events)

unfoldable pub buffer_is_empty : EventBuffer → Bool
buffer_is_empty b = is_empty b.events

unfoldable pub is_full : EventBuffer → Bool
is_full b = leb max_input_events_per_batch (length b.events)
