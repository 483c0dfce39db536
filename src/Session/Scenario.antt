-- ===== src/Session/Scenario.antt =====
-- Two desktops side by side, and the sessions of a capture from the left one to the right one.
use tevir.Prelude.{
  ℕ, ◌≡◌, ◌≢◌, refl, subst, pos, some, List, [], ◌∷◌, ok, arith, find, filter, find_map, any, ◌+ℤ◌,
  ◌-ℤ◌,
}
use tevir.Domain.Identity.{NodeId, NodeId-discrete}
use tevir.Domain.Geometry.{Size, Rect}
use tevir.Domain.Edge.{Edge}
use tevir.Domain.Input.{InputEvent, InputKind, KeyAction}
use tevir.Domain.Placement.{ScreenPlacement, single}
use tevir.Domain.Rect
use tevir.Domain.Display
use tevir.Domain.Edge.{contains_axis}
use tevir.Domain.Topology.{Topology, transition, try_candidate, enter, axis_of, screen}
use tevir.Session.Pointer.{micropixels, screen_center, clamp_local_position}
use tevir.Session.Coalesce.{empty, is_full, push, push_event, buffer_is_empty}
use tevir.Session.Controller.{
  ControllerSession, new, new_delivery, flush, change_focus, move_if_flushed, move_focus, extend,
  advance_epoch_and_broadcast, set_focus_position,
}
use tevir.Session.Routing.{
  activate, route_input, leaving, route_by, buffer_event, make_room, observe_and_push, observe_kind,
  push_and_flush,
}
use tevir.Session.Controller.Invariant.{IsValid}
use tevir.Session.Routing.Calls.{Call, activates, routes, after, run, opened-IsValid}

abbrev pub controller : NodeId
controller = record { value = b'c' ∷ [] }

abbrev pub agent : NodeId
agent = record { value = b'a' ∷ [] }

abbrev pub full_hd : Size
full_hd = record { width = 1920; height = 1080 }

abbrev pub at : ℕ → Rect
at x = record { origin = record { x = pos x; y = pos 0 }; size = full_hd }

abbrev pub left_screen : ScreenPlacement
left_screen = single controller (at 0)

-- The agent's desktop to the right of the controller's.
abbrev pub desk : Topology
desk = record { screens = left_screen ∷ single agent (at 1920) ∷ [] }

-- The controller's desktop alone.
abbrev pub alone : Topology
alone = record { screens = left_screen ∷ [] }

abbrev pub event : InputEvent
event = record {
  elapsed_micros = 1;
  kind = InputKind.key (record { usage_page = 7; usage_id = 4 }) KeyAction.press;
}

abbrev pub motion : ℕ → InputEvent
motion elapsed_micros = record {
  elapsed_micros = elapsed_micros;
  kind = InputKind.pointer_relative (pos 3) (pos 4);
}

abbrev pub opened : ControllerSession
opened = record {
  topology = desk;
  local_node = controller;
  focus = controller;
  focus_epoch = 1;
  focus_x_micropixels = pos 960000000;
  focus_y_micropixels = pos 540000000;
  buffer = empty;
  deliveries = (agent, new_delivery) ∷ [];
}

pub opened_reached : new desk controller ≡ ok opened
unfolding new NodeId-discrete screen find filter single micropixels screen_center
opened_reached = refl

-- The pointer leaves to the right at height 100, and an event is captured.
abbrev capture : List Call
capture = activates Edge.right 100 ∷ routes event ∷ []

abbrev pub captured : ControllerSession
captured = record opened {
  focus = agent;
  focus_epoch = 2;
  focus_x_micropixels = pos 0;
  focus_y_micropixels = pos 100000000;
  buffer = record { events = event ∷ [] };
}

crossing :
    transition desk controller Edge.right 100
    ≡ some (record { target = agent; local_position = record { x = pos 0; y = pos 100 } })
unfolding transition try_candidate enter axis_of screen find find_map single NodeId-discrete any
    Display.single Display.contains_edge_offset Display.touches Display.span_start Display.span_end
    contains_axis Rect.left Rect.right Rect.top Rect.bottom ◌+ℤ◌ ◌-ℤ◌
crossing = refl

activated : (activate Edge.right 100 opened).0 ≡ record captured { buffer = empty }
unfolding activate flush change_focus move_if_flushed move_focus extend advance_epoch_and_broadcast
    set_focus_position clamp_local_position micropixels screen find single NodeId-discrete
    buffer_is_empty
activated = rw crossing refl

routed : (route_input event (record captured { buffer = empty })).0 ≡ captured
unfolding route_input leaving route_by buffer_event make_room is_full observe_and_push observe_kind
    extend push_and_flush push push_event NodeId-discrete
routed = refl

captured_reached : run opened capture ≡ captured
unfolding run after
captured_reached = rw activated routed

pub captured-IsValid : IsValid captured
captured-IsValid =
    subst IsValid captured_reached (opened-IsValid desk controller opened capture opened_reached)

pub nodes_differ : agent ≢ controller
nodes_differ = ground arith
