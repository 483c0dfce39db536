-- ===== src/Runtime/Controller/Loop.antt =====
-- crates/tevir/src/runtime.rs: the controller's loop. A `select!` takes one of the branches; which one, is
-- a choice of the environment.
use tevir.Prelude.{
  ℕ, Bool, true, false, Option, none, some, List, [], ◌∷◌, ◌++◌, map, filter, Result, ok, err, ◌>>◌,
  is_some, is_none,
}
use tevir.Prelude.Assoc
use tevir.Domain.NodeSet
use tevir.Domain.Identity.{NodeId, node_eq}
use tevir.Domain.Topology.{Topology, screen}
use tevir.Session.Controller as ControllerSessions
use tevir.Session.Controller.{flush}
use tevir.Session.Routing.{reconcile_topology}
use tevir.Runtime.Config.{EdgeBehavior}
use tevir.Runtime.Edges.{capture_edges}
use tevir.Runtime.Channel.{Sender, try_send, with_room}
use tevir.Runtime.Shortcut
use tevir.Runtime.Controller.{
  ActivePeer, ActiveClipboard, BackendKind, ClipboardService, SessionFailure, NativeFailure,
  no_applications, CaptureCommand, RuntimeEvent, RuntimeError, Notice, Controller, Handler,
  send_event, send_focus, send_capture, set_pending, act,
}
use tevir.Runtime.Controller.Capture.{
  CaptureServiceEvent, return_control, take_topology, drain_capture_events,
  complete_pending_activation,
}
use tevir.Runtime.Controller.Clipboards.{ClipboardServiceEvent, drain_controller_clipboard}
use tevir.Runtime.Controller.Network.{
  ConnectionInfo, NetworkEvent, accept_controller_peer, handle_controller_network,
  send_controller_heartbeats,
}

-- The peers without a screen in a topology are dropped, with an event for each in the order of the
-- `BTreeMap`; the farewell on the dropped channel is not kept.
unfoldable pub drop_removed : Topology → Handler (Unit {0})
drop_removed topology s =
    let removed =
      NodeSet.collect (filter (λ peer. is_none (screen topology peer)) (map (λ e. e.0) s.peers)) in
    (
      record s {
        peers = Assoc.retain (λ peer. is_some (screen topology peer)) s.peers;
        events = s.events ++ map RuntimeEvent.disconnected removed;
      },
      ok tt,
    )

unfoldable pub set_behavior : EdgeBehavior → Handler (Unit {0})
set_behavior behavior s =
    (record s { edge_state = record s.edge_state { behavior = behavior } }, ok tt)

-- What is sent before the loop.
unfoldable pub first_events : NodeId → Option BackendKind → List RuntimeEvent
first_events local_node none = RuntimeEvent.focus_changed local_node ∷ []
first_events local_node (some backend) =
    RuntimeEvent.native_ready backend ∷ RuntimeEvent.focus_changed local_node ∷ []

-- The room that the receivers make: the native capture, the native clipboard, and the workers of the
-- connections, which send what they take.
pub record Rooms : Type 0 where
  pub capture : ℕ
  pub applications : ℕ
  pub outbound : NodeId → ℕ
  pub transfers : NodeId → ℕ

unfoldable pub clipboard_room : ℕ → Option ActiveClipboard → Option ActiveClipboard
clipboard_room room none = none
clipboard_room room (some clipboard) =
    some (record clipboard { outbound = with_room room clipboard.outbound })

unfoldable pub peer_rooms : Rooms → List (NodeId × ActivePeer) → List (NodeId × ActivePeer)
unfolding clipboard_room
peer_rooms rooms [] = []
peer_rooms rooms ((peer, active) ∷ peers) =
    (
      peer,
      record active {
        outbound = with_room (rooms.outbound peer) active.outbound;
        clipboard = clipboard_room (rooms.transfers peer) active.clipboard;
      },
    )
    ∷ peer_rooms rooms peers

unfoldable pub service_room : ℕ → Option ClipboardService → Option ClipboardService
service_room room none = none
service_room room (some service) =
    some (record service { commands = with_room room service.commands })

unfoldable pub make_room : Rooms → Controller → Controller
unfolding peer_rooms service_room
make_room rooms s = record s {
  capture = with_room rooms.capture s.capture;
  peers = peer_rooms rooms s.peers;
  clipboard_state = record s.clipboard_state {
    service = service_room rooms.applications s.clipboard_state.service;
  };
}

-- The branches of the loop, but for `Stop`, with what was there when they were taken; and, between them,
-- what the receivers of its channels do.
pub data LoopEvent (F64 : Type 0) : Type 0 where
  return_local : LoopEvent F64
  test_connection : (now : ℕ) → LoopEvent F64
  reconfigure : Topology → EdgeBehavior → LoopEvent F64
  accepted : ConnectionInfo → LoopEvent F64
  rejected listener_stopped : LoopEvent F64
  network : (now : ℕ) → NetworkEvent → LoopEvent F64
  input_tick :
      (captured : List (ℕ × CaptureServiceEvent F64)) (now : ℕ)
      (native_events : List ClipboardServiceEvent)
      → LoopEvent F64
  heartbeat_tick : (now : ℕ) → LoopEvent F64
  drained : Rooms → LoopEvent F64

module _ {F64 : Type 0} (offset_at : F64 → ℕ → ℕ) (within : Option F64 → ℕ → ℕ → Bool)
    (sha256 : List ℕ → List ℕ) where
  unfoldable pub reconfigure_capture : Handler (Unit {0})
  unfolding send_capture
  reconfigure_capture s =
      send_capture
        (CaptureCommand.configure
          (capture_edges offset_at s.topology s.local_node s.edge_state.behavior))
        s

  -- The arm of `ReconfigureController`.
  unfoldable pub reconfigure_controller : Topology → EdgeBehavior → Handler (Unit {0})
  unfolding set_pending act take_topology set_behavior drop_removed reconfigure_capture send_focus
      send_event
  reconfigure_controller updated behavior s =
      (do
        act (reconcile_topology updated)
        take_topology updated
        set_behavior behavior
        drop_removed updated
        reconfigure_capture
        send_focus
        send_event RuntimeEvent.configuration_applied)
        (set_pending none s)

  -- The branch of the input tick.
  unfoldable pub tick :
      List (ℕ × CaptureServiceEvent F64) → ℕ → List ClipboardServiceEvent → Handler (Unit {0})
  tick captured now native_events = do
    drain_capture_events offset_at within captured
    complete_pending_activation now
    act flush
    drain_controller_clipboard sha256 native_events

  unfoldable pub step : LoopEvent F64 → Handler (Unit {0})
  unfolding make_room set_pending return_control send_controller_heartbeats reconfigure_controller
      accept_controller_peer send_event tick
  step LoopEvent.return_local s = return_control (set_pending none s)
  step (LoopEvent.test_connection now) s = (send_controller_heartbeats now true s, ok tt)
  step (LoopEvent.reconfigure topology behavior) s = reconfigure_controller topology behavior s
  step (LoopEvent.accepted info) s = accept_controller_peer info s
  step LoopEvent.rejected s = send_event (RuntimeEvent.error Notice.connection_rejected) s
  step LoopEvent.listener_stopped s = (s, err RuntimeError.transport)
  step (LoopEvent.network now event) s = handle_controller_network sha256 now event s
  step (LoopEvent.input_tick captured now native_events) s = tick captured now native_events s
  step (LoopEvent.heartbeat_tick now) s = (send_controller_heartbeats now false s, ok tt)
  step (LoopEvent.drained rooms) s = (make_room rooms s, ok tt)

  -- The start of `run_controller`, once the listener is there: `capture` is the channel to the native
  -- capture, and `backend` what is ready there, if it is.
  unfoldable pub open_controller :
      NodeId
      → Topology
      → EdgeBehavior
      → Sender CaptureCommand
      → Option BackendKind
      → Option ClipboardService
      → Result Controller RuntimeError
  unfolding first_events
  open_controller local_node topology behavior capture backend clipboard =
      elim (try_send
        (CaptureCommand.configure (capture_edges offset_at topology local_node behavior)) capture) [
          | none ↦ err (RuntimeError.native NativeFailure.capture_queue)
          | some configured ↦ elim (ControllerSessions.new topology local_node) [
            | err e ↦ err (RuntimeError.session (SessionFailure.controller e))
            | ok session ↦ ok (record {
              local_node = local_node;
              topology = topology;
              session = session;
              capture = configured;
              peers = [];
              edge_state = record {
                behavior = behavior;
                pending_activation = none;
                emergency_shortcut = Shortcut.not_held;
              };
              clipboard_state = record { service = clipboard; applications = no_applications };
              heartbeat_nonce = 0;
              events = first_events local_node backend;
            })
          ]
        ]

  -- The loop, over the branches that it takes.
  unfoldable pub run_loop : List (LoopEvent F64) → Handler (Unit {0})
  run_loop [] s = (s, ok tt)
  run_loop (event ∷ events) s =
      let r = step event s in elim (r.1) [ ok _ ↦ run_loop events r.0 | err e ↦ (r.0, err e) ]
