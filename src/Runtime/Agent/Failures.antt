-- ===== src/Runtime/Agent/Failures.antt =====
-- crates/tevir/src/runtime.rs: what ends the agent's loop, and the runtime with it.
use tevir.Prelude.{ℕ, ◌≡◌, ◌≤◌, true, false, Option, List, [], ◌∷◌, ok, err, is_some, ◌==◌, arith}
use tevir.Domain.Identity.{NodeId}
use tevir.Protocol.Message.{Session}
use tevir.Protocol.Clipboard.{ClipboardControl}
use tevir.Session.Agent.{AgentError, confirm_applied, reconcile_display}
use tevir.Runtime.Channel.{Sender, try_send}
use tevir.Runtime.Controller.{
  geometry_eq, ClipboardService, DesktopGeometry, RuntimeError, SessionFailure,
}
use tevir.Runtime.Controller.Clipboards.{ClipboardServiceEvent, start_next}
use tevir.Runtime.Controller.Network.{ConnectionInfo, NetworkEvent}
use tevir.Runtime.Agent.{
  Connection, InjectionCommand, InjectionServiceEvent, inject, send_agent_event, send_control,
  apply_agent_action, apply_agent_actions, on_agent, set_controlled,
}
use tevir.Runtime.Agent.Clipboards.{
  start_next_application, with_applications, on_negotiated, drop_clipboard, agent_applied,
  agent_clipboard_event, agent_clipboard_events, drain_agent_clipboard,
}
use tevir.Runtime.Agent.Injected.{
  reset_display, change_geometry, batch_applied, injection_event, injection_events,
}
use tevir.Runtime.Agent.Loop.{
  AgentEvent, goes_on, agent_tick, receive_message, agent_step, begin_session, new_connection,
  report_display, open_connection,
}

-- If the desktop of an agent changes while a batch is being applied, then the report that the batch was
-- applied, which follows, ends the agent's loop, although the batch was applied and there is room for every
-- message.
pub changed_desktop_fails :
    (geometry : DesktopGeometry) (sequence : ℕ) (later : List InjectionServiceEvent)
    (s : Connection)
    → s.agent.closed ≡ false
    → (geometry == s.display_geometry) ≡ false
    → 1 ≤ s.injection.room
    → 1 ≤ s.sender.room
    → (injection_events
        (InjectionServiceEvent.desktop_changed geometry
          ∷ InjectionServiceEvent.applied s.generation sequence
          ∷ later)
        s).1
      ≡ err (RuntimeError.session (SessionFailure.agent AgentError.no_input_application_pending))
unfolding injection_events injection_event change_geometry reset_display reconcile_display
    apply_agent_actions apply_agent_action inject send_control set_controlled send_agent_event
    batch_applied on_agent confirm_applied try_send
changed_desktop_fails geometry sequence later s open_ apart room space = ground arith

module _ (sha256 : List ℕ → List ℕ) where
  -- If the native clipboard of an agent has stopped, then the next message of the controller on the clipboard
  -- ends the agent's loop.
  pub stopped_clipboard_fails :
      (now : ℕ) (control : ClipboardControl) (s : Connection)
      → s.application_pending ≡ false
      → is_some s.clipboard_state.service ≡ true
      → (agent_step sha256
          (AgentEvent.received now (Session.clipboard control))
          (drain_agent_clipboard sha256 (ClipboardServiceEvent.stopped ∷ []) s).0).1
        ≡ err (RuntimeError.session SessionFailure.agent_clipboard_not_negotiated)
  unfolding agent_step goes_on receive_message on_negotiated drain_agent_clipboard
      agent_clipboard_events agent_clipboard_event drop_clipboard with_applications
      start_next_application start_next
  stopped_clipboard_fails now control s e runs = ground arith

  -- If the first branch of a connection that has just opened is a tick, and the first that the native clipboard
  -- reports in it is that it applied a text, which then is one of an earlier connection, the tick ends the agent's
  -- loop with an error.
  pub earlier_application_fails :
      (local_node controller_node : NodeId) (info : ConnectionInfo) (geometry : DesktopGeometry)
      (earlier : List InjectionServiceEvent) (generation : ℕ) (injection : Sender InjectionCommand)
      (sender : Sender Session) (clipboard : Option ClipboardService) (s : Connection)
      (later : List ClipboardServiceEvent) (transfers : List NetworkEvent)
      (injected : List InjectionServiceEvent)
      → open_connection local_node controller_node info geometry earlier generation injection sender
          clipboard
        ≡ ok (s, ok tt)
      → is_some clipboard ≡ true
      → (agent_step sha256
          (AgentEvent.tick (ClipboardServiceEvent.applied ∷ later) transfers injected)
          s).1
        ≡ err (RuntimeError.session SessionFailure.applied_without_pending)
  unfolding open_connection begin_session new_connection report_display send_control
      send_agent_event agent_step goes_on agent_tick drain_agent_clipboard agent_clipboard_events
      agent_clipboard_event agent_applied
  earlier_application_fails local_node controller_node info geometry earlier generation injection
        sender clipboard s later transfers injected opened runs =
      ground arith
