-- ===== src/Runtime/Agent.antt =====
-- crates/tevir/src/runtime.rs: the state of the agent's loop over one connection, and what its handlers
-- share. A control message is sent on the connection itself, which takes it or has failed; a closed one
-- takes no more.
pub mod Clipboards
pub mod Injected
pub mod Loop
pub mod Sound
pub mod Rounds
pub mod Retrying
pub mod Failures
mod Examples
use tevir.Prelude.{
  ℕ, Bool, true, false, not, Option, none, some, List, [], ◌∷◌, ◌++◌, Result, ok, err, M, ◌>>=◌,
  ◌>>◌, is_empty, ltb, min, u64_max, ◌+◌, if◌then◌else◌,
}
use tevir.Domain.Identity.{NodeId}
use tevir.Domain.Geometry.{Point}
use tevir.Domain.Input.{InputEvent}
use tevir.Protocol.Message.{Session, InputBatch}
use tevir.Session.Agent.{AgentSession, AgentAction, AgentError, Outcome}
use tevir.Runtime.Channel.{Sender, try_send}
use tevir.Runtime.Controller.{
  ActiveClipboard, BackendKind, ClipboardRuntimeState, DesktopGeometry, NativeFailure,
  PendingHeartbeat, RuntimeError, RuntimeEvent, SessionFailure,
}
use tevir.Runtime.Controller.Network.{round_trip_micros}

pub data InjectionCommand : Type 0 where
  begin_session : (generation : ℕ) → InjectionCommand
  apply_batch : (generation sequence : ℕ) → List InputEvent → InjectionCommand
  warp_cursor : (generation : ℕ) (position : Point) → InjectionCommand
  release_all : (generation : ℕ) → InjectionCommand

pub data InjectionServiceEvent : Type 0 where
  ready : (backend : BackendKind) → InjectionServiceEvent
  desktop_changed : DesktopGeometry → InjectionServiceEvent
  applied : (generation sequence : ℕ) → InjectionServiceEvent
  released : (generation : ℕ) → InjectionServiceEvent
  failed stopped : InjectionServiceEvent

pub data AgentConnectionOutcome : Type 0 where
  stopped disconnected : AgentConnectionOutcome

-- `active_clipboard` is an `AgentClipboard`, of the same fields as the controller's.
pub record Connection : Type 0 where
  pub controller_node : NodeId
  pub session_id : ℕ
  pub agent : AgentSession
  pub display_geometry : DesktopGeometry
  pub generation : ℕ
  pub injection : Sender InjectionCommand
  pub sender : Sender Session
  pub active_clipboard : Option ActiveClipboard
  pub clipboard_state : ClipboardRuntimeState
  pub controlled : Bool
  pub application_pending : Bool
  pub heartbeat_nonce : ℕ
  pub pending_heartbeats : List PendingHeartbeat
  pub round_trip : Option ℕ
  pub input_batches_received : ℕ
  pub input_batches_acknowledged : ℕ
  pub events : List RuntimeEvent

abbrev pub AgentHandler : Type 0 → Type 0
AgentHandler A = M Connection RuntimeError A

unfoldable pub send_agent_event : RuntimeEvent → AgentHandler (Unit {0})
send_agent_event event s = (record s { events = s.events ++ (event ∷ []) }, ok tt)

unfoldable pub inject : InjectionCommand → AgentHandler (Unit {0})
inject command s = elim (try_send command s.injection) [
  | none ↦ (s, err (RuntimeError.native NativeFailure.injection_queue))
  | some injection ↦ (record s { injection = injection }, ok tt)
]

unfoldable pub send_control : Session → AgentHandler (Unit {0})
send_control message s = elim (try_send message s.sender) [
  | none ↦ (s, err RuntimeError.transport)
  | some sender ↦ (record s { sender = sender }, ok tt)
]

-- `sender.close()`.
unfoldable pub close_sender : AgentHandler (Unit {0})
close_sender s = (record s { sender = record s.sender { room = 0 } }, ok tt)

-- `InjectionService::apply_batch`.
unfoldable pub inject_batch : InputBatch → AgentHandler (Unit {0})
unfolding inject
inject_batch batch s =
    if is_empty batch.events
    then (s, err (RuntimeError.native NativeFailure.empty_input_batch))
    else inject (InjectionCommand.apply_batch s.generation batch.sequence batch.events) s

-- One round of `apply_agent_actions`.
unfoldable pub apply_agent_action : AgentAction → AgentHandler (Unit {0})
unfolding inject inject_batch send_control close_sender
apply_agent_action (AgentAction.focus_entered position) s =
    inject (InjectionCommand.warp_cursor s.generation position) s
apply_agent_action (AgentAction.apply_input batch) s = inject_batch batch s
apply_agent_action AgentAction.release_all_input s =
    inject (InjectionCommand.release_all s.generation) s
apply_agent_action (AgentAction.send message) s = send_control message s
apply_agent_action (AgentAction.clipboard control) s = (s, ok tt)
apply_agent_action AgentAction.close_connection s = close_sender s

unfoldable pub apply_agent_actions : List AgentAction → AgentHandler (Unit {0})
apply_agent_actions [] s = (s, ok tt)
apply_agent_actions (action ∷ actions) s =
    let r = apply_agent_action action s in
    elim (r.1) [ ok _ ↦ apply_agent_actions actions r.0 | err e ↦ (r.0, err e) ]

-- A method of the session, whose error ends the connection.
unfoldable pub on_agent : (AgentSession → Outcome) → AgentHandler (List AgentAction)
on_agent method s =
    let r = method s.agent in
    elim (r.1) [
      | ok actions ↦ (record s { agent = r.0 }, ok actions)
      | err e ↦ (record s { agent = r.0 }, err (RuntimeError.session (SessionFailure.agent e)))
    ]

unfoldable pub saturating_increment : ℕ → ℕ
saturating_increment n = min (n + 1) u64_max

unfoldable pub emit_agent_diagnostics : Bool → AgentHandler (Unit {0})
unfolding send_agent_event round_trip_micros
emit_agent_diagnostics test_completed s =
    send_agent_event
      (RuntimeEvent.connection_diagnostics s.controller_node (round_trip_micros s.round_trip) 0
        s.input_batches_received s.input_batches_acknowledged
        (if ltb s.input_batches_acknowledged s.input_batches_received then 1 else 0) test_completed)
      s

abbrev pub differs : Bool → Bool → Bool
differs a b = if a then not b else b

-- The event of a changed control, if it has changed.
unfoldable pub set_controlled : Bool → AgentHandler (Unit {0})
unfolding send_agent_event
set_controlled next s =
    if differs next s.controlled
    then send_agent_event (RuntimeEvent.agent_control s.controller_node next)
        (record s { controlled = next })
    else (s, ok tt)
