-- ===== src/Runtime/Controller.antt =====
-- crates/tevir/src/runtime.rs: the state of the controller's loop, and what its handlers share. The
-- services and connections are the channels to them, and `events` is what the user interface was sent.
-- A text of an error is the case that it describes; log lines have no effect. The edges given to
-- `configure` are those of `capture_edges`, so `validate_edges` accepts them.
pub mod Capture
pub mod Clipboards
pub mod Network
pub mod Loop
pub mod Sound
pub mod Sending
pub mod Returning
pub mod Failures
mod Examples
use tevir.Prelude.{
  ℕ, Bool, true, false, Option, none, some, List, [], ◌∷◌, ◌++◌, Result, ok, err, M, ◌>>=◌, ◌>>◌,
  eqb, PartialEq, derived_eq, ℕ_discrete, if◌then◌else◌,
}
use tevir.Prelude.Assoc
use tevir.Domain.Identity.{NodeId, node_eq}
use tevir.Domain.Geometry.{Point}
use tevir.Domain.Edge.{Edge}
use tevir.Domain.Display.{DesktopLayout}
use tevir.Domain.Placement.{ScreenPlacement}
use tevir.Domain.Topology.{Topology}
use tevir.Protocol.Clipboard.{ClipboardGeneration, ClipboardText}
use tevir.Protocol.Message.{Session}
use tevir.Session.Controller.{ControllerSession, ControllerAction, ControllerError}
use tevir.Session.Agent.{AgentError}
use tevir.Session.Clipboard.{ClipboardSession, ClipboardSessionError}
use tevir.Runtime.Config.{EdgeBehavior}
use tevir.Runtime.Channel.{Sender, try_send}
use tevir.Runtime.Resize.{ResizeError, DesktopLayout-discrete}
use tevir.Runtime.Shortcut.{EmergencyShortcut}

unfoldable pub Topology-discrete : Discrete Topology
unfolding ℕ_discrete
Topology-discrete = hlevel ℕ_discrete

instance abbrev pub topology_eq : PartialEq Topology
topology_eq = derived_eq Topology-discrete

pub data BackendKind : Type 0 where
  linux_wayland_clipboard_portal linux_wayland_input_capture : BackendKind
  linux_wayland_remote_desktop windows_clipboard windows_hooks windows_send_input : BackendKind

pub record DesktopGeometry : Type 0 where
  pub origin : Point
  pub layout : DesktopLayout

unfoldable pub Geometry-discrete : Discrete DesktopGeometry
unfolding ℕ_discrete
Geometry-discrete = hlevel ℕ_discrete

instance abbrev pub geometry_eq : PartialEq DesktopGeometry
geometry_eq = derived_eq Geometry-discrete

pub data CaptureCommand : Type 0 where
  configure : List Edge → CaptureCommand
  release : CaptureCommand

pub record PendingHeartbeat : Type 0 where
  pub nonce : ℕ
  pub sent_at : ℕ
  pub test : Bool

pub record ActiveClipboard : Type 0 where
  pub session : ClipboardSession
  pub outbound : Sender ClipboardText

pub record ActivePeer : Type 0 where
  pub session_id : ℕ
  pub outbound : Sender Session
  pub clipboard : Option ActiveClipboard
  pub pending_heartbeats : List PendingHeartbeat
  pub round_trip : Option ℕ

pub record ClipboardApplications : Type 0 where
  pub pending : Option (NodeId × ClipboardGeneration)
  pub queued : List (NodeId × ClipboardText)

abbrev pub no_applications : ClipboardApplications
no_applications = record { pending = none; queued = [] }

-- The native clipboard: the channel of its texts to apply, and their longest.
pub record ClipboardService : Type 0 where
  pub commands : Sender (List ℕ)
  pub maximum_text_bytes : ℕ

pub record ClipboardRuntimeState : Type 0 where
  pub service : Option ClipboardService
  pub applications : ClipboardApplications

pub record PendingActivation : Type 0 where
  pub edge : Edge
  pub offset : ℕ
  pub target : NodeId
  pub ready_at : ℕ

pub record EdgeState : Type 0 where
  pub behavior : EdgeBehavior
  pub pending_activation : Option PendingActivation
  pub emergency_shortcut : EmergencyShortcut

pub data NativeFailure : Type 0 where
  capture_queue clipboard_queue clipboard_unavailable : NativeFailure
  clipboard_text_too_large capture_failed capture_stopped : NativeFailure
  injection_queue injection_failed injection_stopped : NativeFailure
  generation_exhausted empty_input_batch : NativeFailure

pub data SessionFailure : Type 0 where
  controller : ControllerError → SessionFailure
  clipboard : ClipboardSessionError → SessionFailure
  resize : ResizeError → SessionFailure
  unknown_peer clipboard_peer_gone clipboard_peer_unavailable transfer_queue_full
        clipboard_not_negotiated :
      NodeId → SessionFailure
  clipboard_peer_lost applied_without_pending : SessionFailure
  agent : AgentError → SessionFailure
  foreign_application : NodeId → SessionFailure
  transfer_channel_unavailable agent_transfer_queue_full agent_clipboard_not_negotiated :
      SessionFailure

pub data RuntimeError : Type 0 where
  transport : RuntimeError
  native : NativeFailure → RuntimeError
  session : SessionFailure → RuntimeError
  outbound_queue : NodeId → RuntimeError
  reconnect_exhausted : NodeId → RuntimeError

-- The messages of `RuntimeEvent::Error`.
pub data Notice : Type 0 where
  not_connected not_in_topology unexpected_message clipboard_stopped : NodeId → Notice
  display_rejected : NodeId → ResizeError → Notice
  connection_rejected clipboard_failed : Notice

-- The events that the loops of the controller and of the agent send.
pub data RuntimeEvent : Type 0 where
  connected : (peer : NodeId) (session_id : ℕ) → RuntimeEvent
  disconnected : (peer : NodeId) → RuntimeEvent
  native_ready clipboard_ready : (backend : BackendKind) → RuntimeEvent
  focus_changed : (node : NodeId) → RuntimeEvent
  local_desktop_changed : (geometry : DesktopGeometry) → RuntimeEvent
  display_changed : (screen : ScreenPlacement) → RuntimeEvent
  clipboard_synchronized : (peer : NodeId) (received : Bool) → RuntimeEvent
  connection_diagnostics :
      (peer : NodeId) (round_trip_micros : Option ℕ)
      (input_batches_sent input_batches_received input_batches_acknowledged
        pending_input_batches : ℕ)
      (test_completed : Bool)
      → RuntimeEvent
  agent_control : (controller : NodeId) (active : Bool) → RuntimeEvent
  configuration_applied : RuntimeEvent
  error : (message : Notice) → RuntimeEvent

pub record Controller : Type 0 where
  pub local_node : NodeId
  pub topology : Topology
  pub session : ControllerSession
  pub capture : Sender CaptureCommand
  pub peers : List (NodeId × ActivePeer)
  pub edge_state : EdgeState
  pub clipboard_state : ClipboardRuntimeState
  pub heartbeat_nonce : ℕ
  pub events : List RuntimeEvent

abbrev pub Handler : Type 0 → Type 0
Handler A = M Controller RuntimeError A

unfoldable pub send_event : RuntimeEvent → Handler (Unit {0})
send_event event s = (record s { events = s.events ++ (event ∷ []) }, ok tt)

-- `FocusChanged { node: controller.focus().clone() }`.
unfoldable pub send_focus : Handler (Unit {0})
unfolding send_event
send_focus s = send_event (RuntimeEvent.focus_changed s.session.focus) s

unfoldable pub send_capture : CaptureCommand → Handler (Unit {0})
send_capture command s = elim (try_send command s.capture) [
  | none ↦ (s, err (RuntimeError.native NativeFailure.capture_queue))
  | some capture ↦ (record s { capture = capture }, ok tt)
]

unfoldable pub set_pending : Option PendingActivation → Controller → Controller
set_pending pending s = record s {
  edge_state = record s.edge_state { pending_activation = pending };
}

-- A method of the session, whose error ends the handler.
unfoldable pub on_session : {A : Type 0} → M ControllerSession ControllerError A → Handler A
on_session method s =
    let r = method s.session in
    elim (r.1) [
      | ok a ↦ (record s { session = r.0 }, ok a)
      | err e ↦
          (record s { session = r.0 }, err (RuntimeError.session (SessionFailure.controller e)))
    ]

-- A message into the outbound channel of a connection.
unfoldable pub send_to : NodeId → ActivePeer → Session → Handler (Unit {0})
send_to peer active message s = elim (try_send message active.outbound) [
  | none ↦ (s, err (RuntimeError.outbound_queue peer))
  | some outbound ↦ (
    record s { peers = Assoc.insert peer (record active { outbound = outbound }) s.peers },
    ok tt,
  )
]

-- One round of `apply_controller_actions`.
unfoldable pub apply_action : ControllerAction → Handler (Unit {0})
unfolding send_to send_event send_capture
apply_action (ControllerAction.send peer message) s = elim (Assoc.lookup peer s.peers) [
  | none ↦ send_event (RuntimeEvent.error (Notice.not_connected peer)) s
  | some connection ↦ send_to peer connection message s
]
apply_action ControllerAction.release_capture s = send_capture CaptureCommand.release s

unfoldable pub apply_controller_actions : List ControllerAction → Handler (Unit {0})
apply_controller_actions [] s = (s, ok tt)
apply_controller_actions (action ∷ actions) s =
    let r = apply_action action s in
    elim (r.1) [ ok _ ↦ apply_controller_actions actions r.0 | err e ↦ (r.0, err e) ]

-- A method of the session, and then its actions.
unfoldable pub act :
    M ControllerSession ControllerError (List ControllerAction) → Handler (Unit {0})
unfolding on_session
act method = do actions ← on_session method; apply_controller_actions actions

unfoldable pub has_peer : NodeId → Controller → Bool
has_peer peer s = elim (Assoc.lookup peer s.peers) [ none ↦ false | some _ ↦ true ]

-- `active_session`.
unfoldable pub active_session : List (NodeId × ActivePeer) → NodeId → ℕ → Bool
active_session peers peer session_id = elim (Assoc.lookup peer peers) [
  | none ↦ false
  | some active ↦ eqb active.session_id session_id
]
