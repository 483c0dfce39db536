-- ===== src/Runtime/Agent/Loop.antt =====
-- crates/tevir/src/runtime.rs: `run_agent_connection`. A `select!` takes one of the branches; which one, is a
-- choice of the environment. Times are microseconds.
use tevir.Prelude.{
  ℕ, ◌+◌, ◌-◌, ◌%◌, ◌^◌, Bool, true, false, ◌&&◌, Option, none, some, List, [], ◌∷◌, ◌++◌, drop,
  any, Result, ok, err, ◌>>=◌, ◌>>◌, return, length, is_some, eqb, ltb, u64_max, ◌==◌,
  if◌then◌else◌,
}
use tevir.Domain.Identity.{NodeId, node_eq}
use tevir.Protocol.Message.{Session}
use tevir.Session.Agent as AgentSessions
use tevir.Session.Agent.{AgentSession, AgentAction, handle}
use tevir.Session.Clipboard as ClipboardSessions
use tevir.Session.Clipboard.Methods
use tevir.Runtime.Channel.{Sender, channel, try_send, with_room}
use tevir.Runtime.Controller.{
  DesktopGeometry, ClipboardService, no_applications, NativeFailure, Notice, RuntimeError,
  RuntimeEvent,
}
use tevir.Runtime.Controller.Loop.{clipboard_room, service_room}
use tevir.Runtime.Controller.Clipboards.{ClipboardServiceEvent}
use tevir.Runtime.Controller.Network.{
  ConnectionInfo, NetworkEvent, max_pending_heartbeats, clipboard_outbound_capacity, take_heartbeat,
  is_applied,
}
use tevir.Runtime.Agent.{
  AgentConnectionOutcome, AgentHandler, Connection, InjectionCommand, InjectionServiceEvent,
  send_agent_event, send_control, apply_agent_actions, on_agent, saturating_increment,
  emit_agent_diagnostics, set_controlled,
}
use tevir.Runtime.Agent.Clipboards.{on_negotiated, drain_agent_clipboard}
use tevir.Runtime.Agent.Injected.{earlier_events, injection_events}

-- The arm of `TestConnection`.
unfoldable pub count_heartbeat : ℕ → ℕ → AgentHandler (Unit {0})
count_heartbeat now nonce s =
    let kept =
      if eqb (length s.pending_heartbeats) max_pending_heartbeats
      then drop 1 s.pending_heartbeats
      else s.pending_heartbeats in
    (
      record s {
        pending_heartbeats = kept ++ (record { nonce = nonce; sent_at = now; test = true } ∷ []);
      },
      ok tt,
    )

unfoldable pub test_connection : ℕ → AgentHandler (Unit {0})
unfolding send_control count_heartbeat
test_connection now s =
    let nonce = (s.heartbeat_nonce + 1) % 2 ^ 64 in
    (do send_control (Session.heartbeat nonce); count_heartbeat now nonce)
      (record s { heartbeat_nonce = nonce })

-- The arm of `HeartbeatAcknowledged`.
unfoldable pub measure : ℕ → ℕ → AgentHandler (Unit {0})
unfolding take_heartbeat emit_agent_diagnostics
measure now nonce s = elim (take_heartbeat nonce s.pending_heartbeats) [
  | none ↦ (s, ok tt)
  | some (pending, rest) ↦
      emit_agent_diagnostics pending.test
        (record s { pending_heartbeats = rest; round_trip = some (now - pending.sent_at) })
]

unfoldable pub is_input : Session → Bool
is_input (Session.input batch) = true
is_input _ = false

unfoldable pub is_application : AgentAction → Bool
is_application (AgentAction.apply_input batch) = true
is_application _ = false

unfoldable pub count_received : Session → Connection → Connection
unfolding is_input
count_received message s =
    if is_input message
    then record s { input_batches_received = saturating_increment s.input_batches_received }
    else s

unfoldable pub set_application_pending : List AgentAction → AgentHandler (Unit {0})
unfolding is_application
set_application_pending actions s =
    (record s { application_pending = any is_application actions }, ok tt)

-- What the session says of the control.
unfoldable pub report_control : AgentHandler (Unit {0})
unfolding set_controlled
report_control s = set_controlled (is_some s.agent.active_focus_epoch) s

-- A message that is for the session.
unfoldable pub handle_control : Session → AgentHandler (Unit {0})
unfolding count_received on_agent set_application_pending report_control
handle_control message s =
    (do
      actions ← on_agent (λ agent. handle agent message)
      set_application_pending actions
      apply_agent_actions actions
      report_control)
      (count_received message s)

unfoldable pub report_synchronized : Bool → AgentHandler (Unit {0})
unfolding send_agent_event
report_synchronized acknowledged s =
    if acknowledged
    then send_agent_event (RuntimeEvent.clipboard_synchronized s.controller_node false) s
    else (s, ok tt)

-- `let _ = injection.release_all(…)`.
unfoldable pub release_injected : Connection → Connection
release_injected s = elim (try_send (InjectionCommand.release_all s.generation) s.injection) [
  | none ↦ s
  | some injection ↦ record s { injection = injection }
]

-- `let _ = sender.send(Session::Disconnect)`.
unfoldable pub say_farewell : Connection → Connection
say_farewell s = elim (try_send Session.disconnect s.sender) [
  | none ↦ s
  | some sender ↦ record s { sender = sender }
]

-- The room that the receivers make: the native injection, the connection, the worker of the clipboard and the
-- native clipboard.
pub record AgentRooms : Type 0 where
  pub injection : ℕ
  pub control : ℕ
  pub transfers : ℕ
  pub applications : ℕ

unfoldable pub make_agent_room : AgentRooms → Connection → Connection
unfolding clipboard_room service_room
make_agent_room rooms s = record s {
  injection = with_room rooms.injection s.injection;
  sender = with_room rooms.control s.sender;
  active_clipboard = clipboard_room rooms.transfers s.active_clipboard;
  clipboard_state = record s.clipboard_state {
    service = service_room rooms.applications s.clipboard_state.service;
  };
}

-- The branches of the loop, with what was there when they were taken; and, between them, what the receivers of
-- its channels do.
pub data AgentEvent : Type 0 where
  stop other_command connection_ended : AgentEvent
  tested : (now : ℕ) → AgentEvent
  received : (now : ℕ) → Session → AgentEvent
  drained : AgentRooms → AgentEvent
  tick :
      List ClipboardServiceEvent
      → (transfers : List NetworkEvent) → List InjectionServiceEvent
      → AgentEvent

unfoldable pub goes_on : AgentHandler (Unit {0}) → AgentHandler (Option AgentConnectionOutcome)
goes_on handler = do handler; return none

module _ (sha256 : List ℕ → List ℕ) where
  -- The arms of `inbound_event` for a message.
  unfoldable pub receive_message : ℕ → Session → AgentHandler (Unit {0})
  unfolding on_negotiated report_synchronized measure handle_control
  receive_message now (Session.clipboard control) s =
      (do
        on_negotiated (λ c. Methods.receive_control sha256 c control)
        report_synchronized (is_applied control))
        s
  receive_message now (Session.heartbeat_acknowledged nonce) s = measure now nonce s
  receive_message now (Session.display_changed layout) s =
      handle_control (Session.display_changed layout) s
  receive_message now (Session.focus_changed focus_epoch target entry_position) s =
      handle_control (Session.focus_changed focus_epoch target entry_position) s
  receive_message now (Session.input batch) s = handle_control (Session.input batch) s
  receive_message now (Session.input_acknowledged through_sequence) s =
      handle_control (Session.input_acknowledged through_sequence) s
  receive_message now (Session.heartbeat nonce) s = handle_control (Session.heartbeat nonce) s
  receive_message now Session.disconnect s = handle_control Session.disconnect s

  unfoldable pub is_own : NodeId → ℕ → Connection → Bool
  is_own peer session_id s = peer == s.controller_node && eqb session_id s.session_id

  -- One round of the loop over what the clipboard's stream brings.
  unfoldable pub transfer_event : NetworkEvent → AgentHandler (Unit {0})
  unfolding is_own on_negotiated send_agent_event
  transfer_event (NetworkEvent.clipboard_transfer peer session_id transfer) s =
      if is_own peer session_id s
      then on_negotiated (λ c. Methods.receive_transfer sha256 c transfer) s
      else (s, ok tt)
  transfer_event (NetworkEvent.clipboard_failed peer session_id) s =
      if is_own peer session_id s
      then send_agent_event (RuntimeEvent.error (Notice.clipboard_stopped peer))
          (record s { active_clipboard = none })
      else (s, ok tt)
  transfer_event (NetworkEvent.message peer session_id received_) s = (s, ok tt)
  transfer_event (NetworkEvent.disconnected peer session_id) s = (s, ok tt)

  unfoldable pub transfer_events : List NetworkEvent → AgentHandler (Unit {0})
  transfer_events [] s = (s, ok tt)
  transfer_events (event ∷ events) s =
      let r = transfer_event event s in
      elim (r.1) [ ok _ ↦ transfer_events events r.0 | err e ↦ (r.0, err e) ]

  -- The branch of the input tick.
  unfoldable pub agent_tick :
      List ClipboardServiceEvent
      → List NetworkEvent
      → List InjectionServiceEvent
      → AgentHandler (Unit {0})
  agent_tick native_events transfers injected = do
    drain_agent_clipboard sha256 native_events
    transfer_events transfers
    injection_events injected

  -- A message is not taken while a batch is being applied.
  unfoldable pub agent_step : AgentEvent → AgentHandler (Option AgentConnectionOutcome)
  unfolding make_agent_room goes_on test_connection receive_message agent_tick release_injected
      say_farewell
  agent_step AgentEvent.stop s =
      (release_injected (say_farewell s), ok (some AgentConnectionOutcome.stopped))
  agent_step AgentEvent.other_command s = (s, ok none)
  agent_step AgentEvent.connection_ended s =
      if s.application_pending
      then (s, ok none)
      else (release_injected s, ok (some AgentConnectionOutcome.disconnected))
  agent_step (AgentEvent.drained rooms) s = (make_agent_room rooms s, ok none)
  agent_step (AgentEvent.tested now) s = goes_on (test_connection now) s
  agent_step (AgentEvent.received now message) s =
      if s.application_pending then (s, ok none) else goes_on (receive_message now message) s
  agent_step (AgentEvent.tick native_events transfers injected) s =
      goes_on (agent_tick native_events transfers injected) s

  -- The loop over the branches that it takes, until it ends.
  unfoldable pub run_agent_connection :
      List AgentEvent → AgentHandler (Option AgentConnectionOutcome)
  run_agent_connection [] s = (s, ok none)
  run_agent_connection (event ∷ events) s =
      let r = agent_step event s in
      elim (r.1) [
        | err e ↦ (r.0, err e)
        | ok (some outcome) ↦ (r.0, ok (some outcome))
        | ok none ↦ run_agent_connection events r.0
      ]

-- `InjectionService::begin_session`; the counter of generations is the service's.
unfoldable pub begin_session :
    ℕ → Sender InjectionCommand → Result (Sender InjectionCommand) RuntimeError
begin_session next_generation injection =
    if ltb next_generation u64_max
    then elim (try_send (InjectionCommand.begin_session next_generation) injection) [
      | none ↦ err (RuntimeError.native NativeFailure.injection_queue)
      | some begun ↦ ok begun
    ]
    else err (RuntimeError.native NativeFailure.generation_exhausted)

-- What the connection starts with.
unfoldable pub new_connection :
    NodeId
    → NodeId
    → ConnectionInfo
    → DesktopGeometry
    → ℕ
    → Sender InjectionCommand
    → Sender Session
    → Option ClipboardService
    → List RuntimeEvent
    → Connection
new_connection local_node controller_node info geometry generation injection sender clipboard
      events =
    record {
      controller_node = controller_node;
      session_id = info.session_id;
      agent = AgentSessions.new local_node geometry.layout.size;
      display_geometry = geometry;
      generation = generation;
      injection = injection;
      sender = sender;
      active_clipboard =
          if is_some clipboard && info.clipboard_text
          then some (record {
            session = ClipboardSessions.new local_node controller_node;
            outbound = channel clipboard_outbound_capacity;
          })
          else none;
      clipboard_state = record { service = clipboard; applications = no_applications };
      controlled = false;
      application_pending = false;
      heartbeat_nonce = 0;
      pending_heartbeats = [];
      round_trip = none;
      input_batches_received = 0;
      input_batches_acknowledged = 0;
      events = events;
    }

-- The report of the display, with which a connection opens.
unfoldable pub report_display : AgentHandler (Unit {0})
unfolding send_control send_agent_event
report_display s =
    (do
      send_control (Session.display_changed s.display_geometry.layout)
      λ t. send_agent_event (RuntimeEvent.local_desktop_changed t.display_geometry) t)
      s

-- The start of `run_agent_connection`, after what the injection reported before it.
unfoldable pub open_connection :
    NodeId
    → NodeId
    → ConnectionInfo
    → DesktopGeometry
    → List InjectionServiceEvent
    → ℕ
    → Sender InjectionCommand
    → Sender Session
    → Option ClipboardService
    → Result (Connection × Result (Unit {0}) RuntimeError) RuntimeError
unfolding begin_session new_connection report_display earlier_events
open_connection local_node controller_node info geometry earlier generation injection sender
      clipboard =
    elim (earlier_events earlier [] geometry) [
      | err e ↦ err e
      | ok (events, display) ↦ elim (begin_session generation injection) [
        | err e ↦ err e
        | ok begun ↦ ok (
            report_display (
              new_connection local_node controller_node info display generation begun sender
                clipboard events))
      ]
    ]
