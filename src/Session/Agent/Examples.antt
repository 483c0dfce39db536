-- ===== src/Session/Agent/Examples.antt =====
-- Runs of the agent's tests, and the theorems at the states that they reach.
use tevir.Prelude.{
  ℕ, ◌+◌, ◌≡◌, refl, pos, false, none, some, List, [], ◌∷◌, ok, err, length, range_from, arith,
}
use tevir.Domain.Identity.{NodeId, NodeId-discrete}
use tevir.Domain.Geometry.{Point, Size}
use tevir.Domain.Input.{InputEvent, InputKind, KeyAction}
use tevir.Protocol.Message.{Session, InputBatch}
use tevir.Session.Agent.Calls.{Call, handles, confirms, step, run, applied}
use tevir.Session.Agent.Invariant.{IsValid, new-IsValid}
use tevir.Session.Agent.Delivery.{ActionsSound, step-ActionsSound, applied-consecutive}
use tevir.Session.Agent.Focus.{FocusStep, step-FocusStep}
use tevir.Session.Agent.{
  AgentSession, AgentAction, AgentError, new, contains_local, handle, confirm_applied,
}

abbrev agent : NodeId
agent = record { value = b'a' ∷ [] }

abbrev controller : NodeId
controller = record { value = b'c' ∷ [] }

abbrev full_hd : Size
full_hd = record { width = 1920; height = 1080 }

abbrev entry : Point
entry = record { x = pos 10; y = pos 20 }

abbrev event : InputEvent
event = record {
  elapsed_micros = 1;
  kind = InputKind.key (record { usage_page = 7; usage_id = 4 }) KeyAction.press;
}

abbrev batch : ℕ → InputBatch
batch sequence = record { focus_epoch = 2; sequence = sequence; events = event ∷ [] }

-- After the focus has entered at epoch 2.
abbrev focused : AgentSession
focused = record {
  local_node = agent;
  display_size = full_hd;
  highest_focus_epoch = 2;
  active_focus_epoch = some 2;
  last_focus = some (record { epoch = 2; target = agent; entry_position = entry });
  last_applied_sequence = 0;
  pending_batch = none;
  closed = false;
}

focused_reached :
    handle (new agent full_hd) (Session.focus_changed 2 agent entry)
    ≡ (focused, ok (AgentAction.focus_entered entry ∷ []))
unfolding handle new NodeId-discrete
focused_reached = refl

focused-IsValid : IsValid focused
unfolding contains_local
focused-IsValid = ground arith

abbrev delivery : List Call
delivery =
    handles (Session.input (batch 1))
    ∷ confirms 1
    ∷ handles (Session.input (batch 2))
    ∷ confirms 2
    ∷ []

delivery_applies : applied focused delivery ≡ 1 ∷ 2 ∷ []
unfolding applied step handle confirm_applied
delivery_applies = refl

stale_rejected :
    handle focused (Session.input (record (batch 1) { focus_epoch = 1 }))
    ≡ (focused, err (AgentError.stale_input_epoch 1 2))
unfolding handle
stale_rejected = refl

new-IsValid_example : IsValid (new agent full_hd)
new-IsValid_example = new-IsValid agent full_hd

step-ActionsSound_example : ActionsSound focused (step focused (handles (Session.input (batch 1))))
step-ActionsSound_example =
    step-ActionsSound focused (handles (Session.input (batch 1))) focused-IsValid

applied-consecutive_example :
    (applied focused delivery ≡ range_from 1 (length (applied focused delivery)))
    × ((run focused delivery).last_applied_sequence ≡ 0 + length (applied focused delivery))
applied-consecutive_example = applied-consecutive focused delivery focused-IsValid

step-FocusStep_example :
    FocusStep focused (step focused (handles (Session.focus_changed 3 controller entry)))
step-FocusStep_example = step-FocusStep focused (handles (Session.focus_changed 3 controller entry))
