-- ===== src/Runtime/Agent/Sound/Steps.antt =====
-- crates/tevir/src/runtime.rs: a connection of the agent opens sound, and every branch of its loop keeps it so.
use tevir.Prelude.{
  ℕ, ◌+◌, ◌%◌, ◌^◌, ◌≡◌, refl, subst, false, Option, none, some, List, [], ◌∷◌, Result, ok, err,
  ◌>>◌, ◌&&◌, is_some, option-cases, result-cases, if-cases, arith,
}
use tevir.Prelude.State.{Then, bind-Then}
use tevir.Domain.Identity.{NodeId, node_eq}
use tevir.Protocol.Message.{Session}
use tevir.Session.Agent as AgentSessions
use tevir.Session.Agent.{AgentAction, confirm_applied, reconcile_display}
use tevir.Session.Agent.Invariant as AgentInvariant
use tevir.Session.Clipboard.Methods
use tevir.Session.Clipboard.Invariant as ClipboardInvariant
use tevir.Session.Clipboard.Calls as ClipboardCalls
use tevir.Runtime.Channel.{Sender, try_send}
use tevir.Runtime.Controller.{
  geometry_eq, ClipboardService, DesktopGeometry, RuntimeError, RuntimeEvent,
}
use tevir.Runtime.Controller.Clipboards.{ClipboardServiceEvent}
use tevir.Runtime.Controller.Network.{ConnectionInfo, NetworkEvent, take_heartbeat, is_applied}
use tevir.Runtime.Controller.Sound.{ClipboardOk}
use tevir.Runtime.Controller.Sound.Rooms.{clipboard_room-Ok}
use tevir.Runtime.Controller.Sound.Heartbeats.{kept-le, take_heartbeat-length}
use tevir.Runtime.Agent.{
  AgentHandler, Connection, InjectionCommand, InjectionServiceEvent, send_agent_event, send_control,
  emit_agent_diagnostics,
}
use tevir.Runtime.Agent.Clipboards.{on_negotiated, drain_agent_clipboard}
use tevir.Runtime.Agent.Injected.{injection_events, earlier_events}
use tevir.Runtime.Agent.Loop.{
  AgentEvent, AgentRooms, make_agent_room, count_heartbeat, test_connection, measure,
  report_synchronized, receive_message, release_injected, say_farewell, goes_on, transfer_events,
  agent_tick, agent_step, run_agent_connection, begin_session, new_connection, report_display,
  open_connection,
}
use tevir.Runtime.Agent.Sound.{
  On, KeepsOn, Sound, agent_event-KeepsOn, control-KeepsOn, handle_control-Keeps,
}
use tevir.Runtime.Agent.Sound.Injected.{injections-KeepsOn}
use tevir.Runtime.Agent.Sound.Clipboards.{negotiated-KeepsOn, drain-KeepsOn, transfers-KeepsOn}

module _ (sha256 : List ℕ → List ℕ) where
  test_connection-KeepsOn : (now : ℕ) → KeepsOn (Sound sha256) (test_connection now)
  unfolding test_connection count_heartbeat
  test_connection-KeepsOn now s h =
      let nonce = (s.heartbeat_nonce + 1) % 2 ^ 64 in
      bind-Then (On (Sound sha256)) (On (Sound sha256)) (send_control (Session.heartbeat nonce))
        (λ _. count_heartbeat now nonce) (record s { heartbeat_nonce = nonce })
        (control-KeepsOn (Sound sha256) (Session.heartbeat nonce) _ h)
        (λ _ t k. ((k.0.0, k.0.1, kept-le t.pending_heartbeats _ k.0.2, k.0.3), k.1))

  measure-KeepsOn : (now nonce : ℕ) → KeepsOn (Sound sha256) (measure now nonce)
  unfolding measure emit_agent_diagnostics send_agent_event
  measure-KeepsOn now nonce s h =
      option-cases (Then (On (Sound sha256))) (take_heartbeat nonce s.pending_heartbeats) _ _
        (λ _. h)
        λ o e. (
          (
            h.0.0,
            h.0.1,
            omega (arith, take_heartbeat-length nonce s.pending_heartbeats o.1 o.0 e, h.0.2),
            h.0.3,
          ),
          h.1,
        )

  receive_message-Keeps :
      (now : ℕ) (message_ : Session) (s : Connection)
      → s.application_pending ≡ false
      → On (Sound sha256) s
      → Then (On (Sound sha256)) (receive_message sha256 now message_ s)
  unfolding receive_message report_synchronized ClipboardCalls.step
  receive_message-Keeps now (Session.clipboard control) s e h =
      bind-Then (On (Sound sha256)) (On (Sound sha256))
        (on_negotiated (λ c. Methods.receive_control sha256 c control))
        (λ _. report_synchronized (is_applied control)) s
        (negotiated-KeepsOn sha256 (ClipboardCalls.controls control) s h)
        λ _ t k.
          if-cases (Then (On (Sound sha256))) (is_applied control) _ _
            (λ _.
              agent_event-KeepsOn (Sound sha256)
                (RuntimeEvent.clipboard_synchronized t.controller_node false) t k)
            (λ _. k)
  receive_message-Keeps now (Session.heartbeat_acknowledged nonce) s e h =
      measure-KeepsOn now nonce s h
  receive_message-Keeps now (Session.display_changed layout) s e h =
      handle_control-Keeps sha256 (Session.display_changed layout) s e h
  receive_message-Keeps now (Session.focus_changed focus_epoch target entry_position) s e h =
      handle_control-Keeps sha256 (Session.focus_changed focus_epoch target entry_position) s e h
  receive_message-Keeps now (Session.input batch) s e h =
      handle_control-Keeps sha256 (Session.input batch) s e h
  receive_message-Keeps now (Session.input_acknowledged through_sequence) s e h =
      handle_control-Keeps sha256 (Session.input_acknowledged through_sequence) s e h
  receive_message-Keeps now (Session.heartbeat nonce) s e h =
      handle_control-Keeps sha256 (Session.heartbeat nonce) s e h
  receive_message-Keeps now Session.disconnect s e h =
      handle_control-Keeps sha256 Session.disconnect s e h

  tick-KeepsOn :
      (native_events : List ClipboardServiceEvent) (transfers : List NetworkEvent)
      (injected : List InjectionServiceEvent)
      → KeepsOn (Sound sha256) (agent_tick sha256 native_events transfers injected)
  unfolding agent_tick
  tick-KeepsOn native_events transfers injected s h =
      bind-Then (On (Sound sha256)) (On (Sound sha256)) (drain_agent_clipboard sha256 native_events)
        (λ _. do transfer_events sha256 transfers; injection_events injected) s
        (drain-KeepsOn sha256 native_events s h)
        λ _ t k.
          bind-Then (On (Sound sha256)) (On (Sound sha256)) (transfer_events sha256 transfers)
            (λ _. injection_events injected) t (transfers-KeepsOn sha256 transfers t k)
            (λ _ u m. injections-KeepsOn sha256 injected u m)

  release-Sound : (s : Connection) → On (Sound sha256) s → On (Sound sha256) (release_injected s)
  unfolding release_injected
  release-Sound s h =
      option-cases (On (Sound sha256))
        (try_send (InjectionCommand.release_all s.generation) s.injection) _ _ (λ _. h) (λ _ _. h)

  farewell-Sound : (s : Connection) → On (Sound sha256) s → On (Sound sha256) (say_farewell s)
  unfolding say_farewell
  farewell-Sound s h =
      option-cases (On (Sound sha256)) (try_send Session.disconnect s.sender) _ _ (λ _. h)
        (λ _ _. h)

  goes_on-Then :
      (handler : AgentHandler (Unit {0})) (s : Connection)
      → Then (On (Sound sha256)) (handler s)
      → Then (On (Sound sha256)) (goes_on handler s)
  unfolding goes_on
  goes_on-Then handler s h =
      bind-Then (On (Sound sha256)) (On (Sound sha256)) handler (λ _ t. (t, ok none)) s h
        (λ _ t k. k)

  room-Sound :
      (rooms : AgentRooms) (s : Connection)
      → On (Sound sha256) s
      → On (Sound sha256) (make_agent_room rooms s)
  unfolding make_agent_room
  room-Sound rooms s h = (
    (h.0.0, h.0.1, h.0.2, clipboard_room-Ok sha256 rooms.transfers s.active_clipboard h.0.3),
    h.1,
  )

  step-KeepsOn : (event : AgentEvent) → KeepsOn (Sound sha256) (agent_step sha256 event)
  unfolding agent_step
  step-KeepsOn AgentEvent.stop s h = release-Sound (say_farewell s) (farewell-Sound s h)
  step-KeepsOn AgentEvent.other_command s h = h
  step-KeepsOn AgentEvent.connection_ended s h =
      if-cases (Then (On (Sound sha256))) s.application_pending _ _ (λ _. h)
        (λ _. release-Sound s h)
  step-KeepsOn (AgentEvent.drained rooms) s h = room-Sound rooms s h
  step-KeepsOn (AgentEvent.tested now) s h =
      goes_on-Then (test_connection now) s (test_connection-KeepsOn now s h)
  step-KeepsOn (AgentEvent.received now message_) s h =
      if-cases (Then (On (Sound sha256))) s.application_pending _ _ (λ _. h)
        (λ e.
          goes_on-Then (receive_message sha256 now message_) s
            (receive_message-Keeps now message_ s e h))
  step-KeepsOn (AgentEvent.tick native_events transfers injected) s h =
      goes_on-Then (agent_tick sha256 native_events transfers injected) s
        (tick-KeepsOn native_events transfers injected s h)

  -- What an opened connection is, if it opens.
  abbrev Opens : Result (Connection × Result (Unit {0}) RuntimeError) RuntimeError → Type 0
  Opens (ok o) = Then (On (Sound sha256)) o
  Opens (err e) = Unit

  report_display-KeepsOn : KeepsOn (Sound sha256) report_display
  unfolding report_display send_agent_event
  report_display-KeepsOn s h =
      bind-Then (On (Sound sha256)) (On (Sound sha256))
        (send_control (Session.display_changed s.display_geometry.layout))
        (λ _ t. send_agent_event (RuntimeEvent.local_desktop_changed t.display_geometry) t) s
        (control-KeepsOn (Sound sha256) (Session.display_changed s.display_geometry.layout) s h)
        (λ _ t k. k)

  new_connection-Sound :
      (local_node controller_node : NodeId) (info : ConnectionInfo) (geometry : DesktopGeometry)
      (generation : ℕ) (injection : Sender InjectionCommand) (sender : Sender Session)
      (clipboard : Option ClipboardService) (events : List RuntimeEvent)
      → On (Sound sha256) (
          new_connection local_node controller_node info geometry generation injection sender
            clipboard events)
  unfolding new_connection AgentSessions.new
  new_connection-Sound local_node controller_node info geometry generation injection sender
        clipboard events =
      (
        (
          AgentInvariant.new-IsValid local_node geometry.layout.size,
          refl,
          omega arith,
          if-cases (ClipboardOk sha256) (is_some clipboard && info.clipboard_text) _ _
              (λ _. ClipboardInvariant.new-IsValid sha256 local_node controller_node) (λ _. tt),
        ),
        refl,
      )

  open_connection-Opens :
      (local_node controller_node : NodeId) (info : ConnectionInfo) (geometry : DesktopGeometry)
      (earlier : List InjectionServiceEvent) (generation : ℕ) (injection : Sender InjectionCommand)
      (sender : Sender Session) (clipboard : Option ClipboardService)
      → Opens (
          open_connection local_node controller_node info geometry earlier generation injection
            sender clipboard)
  unfolding open_connection
  open_connection-Opens local_node controller_node info geometry earlier generation injection sender
        clipboard =
      result-cases Opens (earlier_events earlier [] geometry) _ _
        (λ o _.
          result-cases Opens (begin_session generation injection) _ _
            (λ begun _. report_display-KeepsOn _ (
              new_connection-Sound local_node controller_node info o.1 generation begun sender
                clipboard o.0))
            (λ _ _. tt))
        (λ _ _. tt)

  run-KeepsOn :
      (events : List AgentEvent) → KeepsOn (Sound sha256) (run_agent_connection sha256 events)
  unfolding run_agent_connection
  run-KeepsOn [] s h = h
  run-KeepsOn (event ∷ events) s h =
      bind-Then (On (Sound sha256)) (On (Sound sha256)) (agent_step sha256 event)
        (λ r t. elim r [
          | none ↦ run_agent_connection sha256 events t
          | some outcome ↦ (t, ok (some outcome))
        ])
        s (step-KeepsOn event s h)
        (λ r t k.
          option-cases (Then (On (Sound sha256))) r _ _ (λ _. run-KeepsOn events t k) (λ _ _. k))

  -- As long as a connection of the agent goes on, whichever branches of the loop are taken, and
  -- whatever its channels take in between: the session is
  -- valid; the loop waits for an application, and takes no message, exactly while a batch of the session is
  -- under application; what it reported of the control is what the session says; at most four heartbeats are
  -- awaited; and the clipboard's session, if there is one, is valid.
  pub connected-Sound :
      (local_node controller_node : NodeId) (info : ConnectionInfo) (geometry : DesktopGeometry)
      (earlier : List InjectionServiceEvent) (generation : ℕ) (injection : Sender InjectionCommand)
      (sender : Sender Session) (clipboard : Option ClipboardService) (s : Connection)
      (events : List AgentEvent)
      → open_connection local_node controller_node info geometry earlier generation injection sender
          clipboard
        ≡ ok (s, ok tt)
      → Then (On (Sound sha256)) (run_agent_connection sha256 events s)
  connected-Sound local_node controller_node info geometry earlier generation injection sender
        clipboard s events e =
      run-KeepsOn events s (
        subst Opens e (
          open_connection-Opens local_node controller_node info geometry earlier generation
            injection sender clipboard))
