-- ===== src/Session/Coalesce/Merging.antt =====
-- What the event buffer keeps: its bound, the order of the transitions, and the motion.
use tevir.Prelude.{
  ◌+◌, ◌≤◌, ◌≡◌, refl, ap, sym, ◌∙◌, +ℤ-zero, zero-+ℤ, +ℤ_assoc, saturating_add-eq, ◌⊎◌, ℤ, pos,
  ◌+ℤ◌, true, false, List, [], ◌∷◌, ◌++◌, length, IsI64, arith,
}
use tevir.Domain.Input.{InputKind, InputEvent}
use tevir.Protocol.Message.{max_input_events_per_batch}
use tevir.Session.Coalesce.{EventBuffer, can_follow, can_coalesce, merge, push_event, push, is_full}

-- A push adds one event, or none where the event can be merged.
length-push_event :
    (es : List InputEvent) (e : InputEvent)
    → ((can_follow es e ≡ true) × (length (push_event es e) ≡ length es))
      ⊎ ((can_follow es e ≡ false) × (length (push_event es e) ≡ length es + 1))
unfolding push_event can_follow
length-push_event [] e = ground arith
length-push_event (p ∷ []) e = ground arith
length-push_event (p ∷ q ∷ r) e = ground (arith, length-push_event (q ∷ r) e)

-- A buffer within its bound that is not full, or can merge the event, stays within the bound under
-- `push`; it grows by one event exactly if the event cannot be merged; and the answer of `push`
-- says whether the buffer is full then.
pub push_bounded :
    (b : EventBuffer) (e : InputEvent)
    → length b.events ≤ max_input_events_per_batch
    → (is_full b ≡ false) ⊎ (can_coalesce b e ≡ true)
    → let (b', full) = push b e in
      (length b'.events ≤ max_input_events_per_batch)
      × (is_full b' ≡ full)
      × (((can_coalesce b e ≡ true) × (length b'.events ≡ length b.events))
          ⊎ ((can_coalesce b e ≡ false) × (length b'.events ≡ length b.events + 1)))
unfolding push can_coalesce is_full
push_bounded b e bound room = ground (arith, length-push_event b.events e)

-- The events that are no pointer motion: key and button transitions and scrolls.
abbrev pub transitions : List InputEvent → List InputEvent
transitions [] = []
transitions (e ∷ es) = elim (e.kind) [
  | InputKind.pointer_relative dx dy ↦ transitions es
  | InputKind.pointer_absolute p ↦ transitions es
  | _ ↦ e ∷ transitions es
]

transitions-merge :
    (p e : InputEvent) → transitions (merge p e) ≡ transitions (p ∷ []) ++ transitions (e ∷ [])
unfolding merge
transitions-merge p e = ground arith

transitions-push_event :
    (es : List InputEvent) (e : InputEvent)
    → transitions (push_event es e) ≡ transitions es ++ transitions (e ∷ [])
unfolding push_event
transitions-push_event [] e = refl
transitions-push_event (p ∷ []) e = transitions-merge p e
transitions-push_event (p ∷ q ∷ r) e = ground (arith, transitions-push_event (q ∷ r) e)

-- No key, button or scroll event is lost, changed, repeated or moved past another one: the
-- transitions of a buffer after `push` are those before it, in order, and then the new event if it
-- is one.
pub transitions-push :
    (b : EventBuffer) (e : InputEvent)
    → transitions (push b e).0.events ≡ transitions b.events ++ transitions (e ∷ [])
unfolding push
transitions-push b e = transitions-push_event b.events e

-- The relative motion of events along x, summed exactly.
abbrev pub motion_x : InputKind → ℤ
motion_x (InputKind.pointer_relative dx dy) = dx
motion_x _ = pos 0

abbrev pub motion_y : InputKind → ℤ
motion_y (InputKind.pointer_relative dx dy) = dy
motion_y _ = pos 0

pub total : (InputKind → ℤ) → List InputEvent → ℤ
total f [] = pos 0
total f (e ∷ es) = f e.kind +ℤ total f es

-- The sums of the last event's motion and a further one are in range.
abbrev pub Fits : List InputEvent → InputKind → Type 0
Fits [] k = Unit
Fits (e ∷ []) k = IsI64 (motion_x e.kind +ℤ motion_x k) × IsI64 (motion_y e.kind +ℤ motion_y k)
Fits (e ∷ f ∷ es) k = Fits (f ∷ es) k

total-merge :
    (p e : InputEvent)
    → Fits (p ∷ []) e.kind
    → (total motion_x (merge p e) ≡ motion_x p.kind +ℤ motion_x e.kind)
      × (total motion_y (merge p e) ≡ motion_y p.kind +ℤ motion_y e.kind)
unfolding total merge
total-merge p e h = ground (
  arith,
  saturating_add-eq (motion_x p.kind) (motion_x e.kind),
  saturating_add-eq (motion_y p.kind) (motion_y e.kind),
  +ℤ-zero (motion_x e.kind),
  +ℤ-zero (motion_y e.kind),
  +ℤ-zero (motion_x p.kind +ℤ motion_x e.kind),
  +ℤ-zero (motion_y p.kind +ℤ motion_y e.kind),
)

total-push_event :
    (es : List InputEvent) (e : InputEvent)
    → Fits es e.kind
    → (total motion_x (push_event es e) ≡ total motion_x es +ℤ motion_x e.kind)
      × (total motion_y (push_event es e) ≡ total motion_y es +ℤ motion_y e.kind)
unfolding push_event total
total-push_event [] e h = (+ℤ-zero _ ∙ sym (zero-+ℤ _), +ℤ-zero _ ∙ sym (zero-+ℤ _))
total-push_event (p ∷ []) e h =
    rw (+ℤ-zero (motion_x p.kind), +ℤ-zero (motion_y p.kind)) (total-merge p e h)
total-push_event (p ∷ q ∷ r) e h =
    let rest = total-push_event (q ∷ r) e h in
    (
      ap (◌+ℤ◌ (motion_x p.kind)) rest.0 ∙ sym (+ℤ_assoc _ _ _),
      ap (◌+ℤ◌ (motion_y p.kind)) rest.1 ∙ sym (+ℤ_assoc _ _ _),
    )

-- No relative motion is lost or made up by merging: where the sums of the last event's motion and
-- the new one fit an `i64`, the exact total motion of the buffer on each axis grows by that of the
-- pushed event.
pub total-push :
    (b : EventBuffer) (e : InputEvent)
    → Fits b.events e.kind
    → (total motion_x (push b e).0.events ≡ total motion_x b.events +ℤ motion_x e.kind)
      × (total motion_y (push b e).0.events ≡ total motion_y b.events +ℤ motion_y e.kind)
unfolding push
total-push b e h = total-push_event b.events e h
