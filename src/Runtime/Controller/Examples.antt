-- ===== src/Runtime/Controller/Examples.antt =====
-- A controller beside an agent, and the theorems on its loop.
use tevir.Prelude.{
  ℕ, ◌≡◌, ◌≤◌, refl, Bool, true, Option, none, some, List, [], ◌∷◌, ◌++◌, All, ok, err, arith,
  is_some, filter,
}
use tevir.Prelude.Assoc
use tevir.Domain.Identity.{NodeId, NodeId-discrete, node_eq}
use tevir.Domain.Edge.{Edge}
use tevir.Domain.Topology.{new, screen}
use tevir.Domain.Topology.Crossing.{HasArea}
use tevir.Domain.Topology.Accepted.{IsArrangement, new_lem}
use tevir.Protocol.Message.{Session}
use tevir.Session.Scenario.{
  controller, agent, desk, opened, opened_reached, captured, captured-IsValid,
}
use tevir.Session.Controller.{ControllerSession, ControllerAction}
use tevir.Runtime.Edges.{capture_edges}
use tevir.Domain.Placement.{single}
use tevir.Runtime.Examples.{escape_pressed, evaluation, offset_at, behavior}
use tevir.Runtime.Shortcut
use tevir.Runtime.Channel.{Sender, channel, try_send}
use tevir.Runtime.Controller.{
  apply_controller_actions, apply_action, has_peer, set_pending, ActiveClipboard, active_session,
  ActivePeer, CaptureCommand, ClipboardService, Controller, RuntimeError, SessionFailure,
  NativeFailure, RuntimeEvent, no_applications,
}
use tevir.Runtime.Controller.Capture.{CaptureServiceEvent, observe_input}
use tevir.Runtime.Controller.Clipboards.{
  ClipboardServiceEvent, stop_clipboard, drain_controller_clipboard,
}
use tevir.Runtime.Controller.Network.{
  ConnectionInfo, NetworkEvent, new_peer, handle_controller_network,
}
use tevir.Protocol.Clipboard
use tevir.Protocol.Clipboard.{ClipboardText}
use tevir.Session.Clipboard as ClipboardSessions
use tevir.Session.Clipboard.Methods
use tevir.Session.Clipboard.{ClipboardAction, ClipboardSessionError, ClipboardSession}
use tevir.Domain.Input.{PhysicalKey-discrete}
use tevir.Session.Controller as ControllerSessions
use tevir.Runtime.Config.{active_interval}
use tevir.Session.Routing
use tevir.Domain.NodeSet
use tevir.Runtime.Controller.Capture
use tevir.Runtime.Controller.Clipboards
use tevir.Runtime.Controller.Network
use tevir.Runtime.Controller.Loop
use tevir.Runtime.Controller.Loop.{LoopEvent, open_controller, run_loop, first_events}
use tevir.Prelude.State.{Then}
use tevir.Runtime.Controller.Sound.{Sound, Known, Known-insert}
use tevir.Runtime.Controller.Sending.{Handed, outbox, apply_controller_actions-Handed}
use tevir.Runtime.Controller.Returning.{Returned, return_local_succeeds, shortcut_holds_capture}
use tevir.Runtime.Controller.Failures.{
  reconnected_ignores, reconnected_application_fails, transfer_without_service_fails,
}
use tevir.Runtime.Controller.Sound.Steps.{running-Sound}

abbrev within : Option ℕ → ℕ → ℕ → Bool
within position start end = true

abbrev digest : List ℕ → List ℕ
digest text = text

desk_accepted : new desk.screens ≡ ok desk
unfolding evaluation
desk_accepted = refl

screens-HasArea : All HasArea desk.screens
unfolding single
screens-HasArea = omega arith

arranged : IsArrangement desk.screens
arranged = ((new_lem desk.screens desk screens-HasArea).0 desk_accepted).1

abbrev clipboard_service : ClipboardService
clipboard_service = record { commands = channel 8; maximum_text_bytes = 1000 }

abbrev started : Controller
started = record {
  local_node = controller;
  topology = desk;
  session = opened;
  capture = record {
    sent = CaptureCommand.configure (capture_edges offset_at desk controller behavior) ∷ [];
    room = 7;
  };
  peers = [];
  edge_state = record {
    behavior = behavior;
    pending_activation = none;
    emergency_shortcut = Shortcut.not_held;
  };
  clipboard_state = record { service = some clipboard_service; applications = no_applications };
  heartbeat_nonce = 0;
  events = RuntimeEvent.focus_changed controller ∷ [];
}

starts :
    open_controller offset_at within digest controller desk behavior
      (channel 8)
      none
      (some clipboard_service)
    ≡ ok started
unfolding open_controller try_send
starts = ground (arith, opened_reached)

abbrev info : ConnectionInfo
info = record { peer = agent; session_id = 7; clipboard_text = true }

-- The receivers have taken everything.
abbrev rooms : Loop.Rooms
rooms = record { capture = 8; applications = 8; outbound = λ peer. 128; transfers = λ peer. 8 }

abbrev branches : List (LoopEvent ℕ)
branches =
    LoopEvent.accepted info
    ∷ LoopEvent.input_tick ((5, CaptureServiceEvent.activated Edge.right none) ∷ []) 6 []
    ∷ LoopEvent.heartbeat_tick 8
    ∷ LoopEvent.network 9 (NetworkEvent.message agent 7 (Session.heartbeat_acknowledged 1))
    ∷ LoopEvent.drained rooms
    ∷ LoopEvent.return_local
    ∷ LoopEvent.network 11 (NetworkEvent.disconnected agent 7)
    ∷ []

running-Sound_example : Then (Sound digest) (run_loop offset_at within digest branches started)
running-Sound_example =
    running-Sound offset_at within digest controller desk behavior (channel 8) none
      (some clipboard_service) started branches arranged starts
      (tt, (tt, (tt, (tt, (tt, (tt, (tt, tt)))))))

-- What a run of the loop computes with, under one name.
loop_evaluation : Unit {0}
unfolding run_loop Loop.step ControllerSessions.reset_peer Assoc.lookup Assoc.insert Assoc.retain
    Capture.drain_capture_events Capture.capture_event active_interval has_peer Routing.activate
    ControllerSessions.change_focus apply_controller_actions NodeSet.collect filter apply_action
    try_send Capture.complete_pending_activation Clipboards.drain_controller_clipboard
    ControllerSessions.flush Clipboards.clipboard_events Clipboards.start_next_clipboard_application
    Network.handle_controller_network Network.send_controller_heartbeats
    Network.accept_controller_peer active_session Routing.delivery_progress Routing.return_to_local
loop_evaluation = tt

-- The agent connects, the pointer leaves to the right, a heartbeat is answered, control returns, and the
-- agent leaves.
runs : (run_loop offset_at within digest branches started).1 ≡ ok tt
unfolding evaluation loop_evaluation
runs = refl

-- A connection of the agent, without a clipboard.
abbrev connection : ActivePeer
connection = record {
  session_id = 7;
  outbound = channel 128;
  clipboard = none;
  pending_heartbeats = [];
  round_trip = none;
}

-- The agent has the focus, and an event is buffered for it.
abbrev remote : Controller
remote = record started { session = captured; peers = (agent, connection) ∷ [] }

agent_known : is_some (screen desk agent) ≡ true
unfolding evaluation
agent_known = refl

remote-Known : Known desk remote.peers
unfolding Assoc.insert Assoc.lookup
remote-Known = Known-insert desk agent connection [] agent_known (λ peer e. absurd (ground arith))

remote-Sound : Sound digest remote
remote-Sound = record {
  valid = captured-IsValid;
  placed = (refl, refl);
  arranged = arranged;
  connected = remote-Known;
  held = ((omega arith, tt), tt);
}

agent_room : (peer : NodeId) (o : Sender Session) → outbox peer remote ≡ some o → 1 ≤ o.room
unfolding Assoc.lookup
agent_room peer o e = ground arith

return_local_succeeds_example :
    Returned remote (Loop.step offset_at within digest LoopEvent.return_local remote)
unfolding NodeId-discrete set_pending
return_local_succeeds_example =
    return_local_succeeds digest offset_at within remote remote-Sound refl (omega arith)
      (omega arith, agent_room)

abbrev actions : List ControllerAction
actions =
    ControllerAction.release_capture
    ∷ ControllerAction.send agent (Session.heartbeat 1)
    ∷ ControllerAction.send controller (Session.heartbeat 2)
    ∷ []

apply_controller_actions-Handed_example :
    Then (Handed actions remote) (apply_controller_actions actions remote)
apply_controller_actions-Handed_example = apply_controller_actions-Handed actions remote

-- The pointer rests at the right edge, and control and alt are held.
abbrev resting : Controller
resting = record started {
  edge_state = record started.edge_state {
    pending_activation =
        some (record { edge = Edge.right; offset = 540; target = agent; ready_at = 100 });
    emergency_shortcut = record { control = true; alt = true };
  };
}

shortcut_holds_capture_example :
    ((observe_input escape_pressed resting).1 ≡ ok tt)
    × ((observe_input escape_pressed resting).0.edge_state.pending_activation ≡ none)
    × ((observe_input escape_pressed resting).0.session ≡ opened)
    × ((observe_input escape_pressed resting).0.capture ≡ started.capture)
unfolding evaluation Shortcut.observe PhysicalKey-discrete
shortcut_holds_capture_example = shortcut_holds_capture resting escape_pressed refl refl

abbrev connected_agent : Controller
connected_agent = record started {
  peers = (agent, new_peer controller info) ∷ [];
  events = started.events ++ (RuntimeEvent.connected agent 7 ∷ []);
}

reconnected_ignores_example :
    handle_controller_network digest 3 (NetworkEvent.disconnected agent 6) connected_agent
    ≡ (connected_agent, ok tt)
unfolding evaluation loop_evaluation
reconnected_ignores_example =
    reconnected_ignores digest info 3 (NetworkEvent.disconnected agent 6) started connected_agent
      refl refl refl (λ e. absurd (omega arith))

-- The agent's first text is being applied.
abbrev applying : Controller
applying = record connected_agent {
  clipboard_state = record connected_agent.clipboard_state {
    applications = record {
      pending = some (agent, record { owner = agent; sequence = 1 });
      queued = [];
    };
  };
}

abbrev alone_again : Controller
alone_again = record applying {
  peers = [];
  events = applying.events ++ (RuntimeEvent.disconnected agent ∷ []);
}

abbrev back_again : Controller
back_again = record alone_again {
  peers = (agent, new_peer controller info) ∷ [];
  events = alone_again.events ++ (RuntimeEvent.connected agent 7 ∷ []);
}

reconnected_application_fails_example :
    (drain_controller_clipboard digest (ClipboardServiceEvent.applied ∷ []) back_again).1
    ≡ err (
        RuntimeError.session
          (SessionFailure.clipboard ClipboardSessionError.no_application_pending))
unfolding evaluation loop_evaluation new_peer
reconnected_application_fails_example =
    reconnected_application_fails digest info 7 (record { owner = agent; sequence = 1 }) [] applying
      alone_again back_again refl refl refl refl refl refl

abbrev first_text : ClipboardText
first_text = record { generation = record { owner = agent; sequence = 1 }; text = b'h' ∷ b'i' ∷ [] }

-- The offer of the agent's text is there.
abbrev offered : ActiveClipboard
offered = record {
  session =
      (Methods.receive_offer digest (ClipboardSessions.new controller agent)
        (Clipboard.offer digest first_text)).0;
  outbound = channel 8;
}

abbrev waiting : ActivePeer
waiting = record connection { clipboard = some offered }

abbrev with_clipboard : Controller
with_clipboard = record started { peers = (agent, waiting) ∷ [] }

completes :
    (Methods.receive_transfer digest offered.session first_text).1
    ≡ ok (ClipboardAction.apply_remote first_text ∷ [])
unfolding evaluation ClipboardSessions.new Methods.receive_offer Methods.receive_transfer
    Clipboard.verify Clipboard.Bytes-discrete Clipboard.Generation-discrete Clipboard.offer
completes = refl

transfer_without_service_fails_example :
    (handle_controller_network digest 4
      (NetworkEvent.clipboard_transfer agent 7 first_text)
      (stop_clipboard with_clipboard)).1
    ≡ err (RuntimeError.native NativeFailure.clipboard_unavailable)
unfolding evaluation loop_evaluation
transfer_without_service_fails_example =
    transfer_without_service_fails digest 4 7 agent first_text first_text with_clipboard waiting
      offered refl refl refl completes
