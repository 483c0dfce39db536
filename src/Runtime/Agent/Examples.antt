-- ===== src/Runtime/Agent/Examples.antt =====
-- An agent with a clipboard, and the theorems on its loop.
use tevir.Prelude.{
  ℕ, zero, suc, ◌≡◌, ◌≤◌, refl, pos, true, false, none, some, List, [], ◌∷◌, ok, err, any, arith,
}
use tevir.Prelude.State.{Then}
use tevir.Domain.Identity.{NodeId-discrete}
use tevir.Domain.Geometry.{Point, Size}
use tevir.Protocol.Message.{Session, InputBatch}
use tevir.Session.Agent as AgentSessions
use tevir.Session.Agent.{AgentSession, AgentError, contains_local, handle, confirm_applied}
use tevir.Session.Clipboard.Methods
use tevir.Session.Clipboard.Invariant as ClipboardInvariant
use tevir.Session.Clipboard as ClipboardSessions
use tevir.Session.Scenario.{controller, agent, full_hd, event}
use tevir.Runtime.Channel.{channel, try_send}
use tevir.Runtime.Controller.{
  ClipboardService, DesktopGeometry, Geometry-discrete, RuntimeError, RuntimeEvent, SessionFailure,
  no_applications,
}
use tevir.Runtime.Controller.Clipboards.{ClipboardServiceEvent}
use tevir.Runtime.Controller.Network.{ConnectionInfo}
use tevir.Runtime.Agent
use tevir.Runtime.Agent.Clipboards
use tevir.Runtime.Agent.Injected
use tevir.Runtime.Agent.Loop
use tevir.Runtime.Agent.{
  AgentConnectionOutcome, Connection, InjectionCommand, InjectionServiceEvent,
}
use tevir.Runtime.Agent.Clipboards.{drain_agent_clipboard}
use tevir.Runtime.Agent.Injected.{injection_events}
use tevir.Runtime.Agent.Loop.{AgentEvent, agent_step, open_connection, run_agent_connection}
use tevir.Runtime.Agent.Sound.{On, Sound}
use tevir.Runtime.Agent.Sound.Steps.{connected-Sound}
use tevir.Runtime.Agent.Retrying.{Round, Progress, run_agent, count_refused, unreachable_ends}
use tevir.Transport.Reconnect
use tevir.Transport.Reconnect.{default_policy, delay_before, delay_before-bounds, Longer}
use tevir.Runtime.Agent.Rounds.{HandedOver, Acknowledged, input_round}
use tevir.Runtime.Agent.Failures.{changed_desktop_fails, earlier_application_fails}

abbrev digest : List ℕ → List ℕ
digest text = text

abbrev entry : Point
entry = record { x = pos 10; y = pos 20 }

abbrev batch : InputBatch
batch = record { focus_epoch = 2; sequence = 1; events = event ∷ [] }

abbrev desktop_of : Size → DesktopGeometry
desktop_of size = record {
  origin = record { x = pos 0; y = pos 0 };
  layout = record { size = size; monitors = [] };
}

abbrev desktop : DesktopGeometry
desktop = desktop_of full_hd

abbrev smaller : DesktopGeometry
smaller = desktop_of (record { width = 800; height = 600 })

abbrev info : ConnectionInfo
info = record { peer = controller; session_id = 7; clipboard_text = true }

abbrev service : ClipboardService
service = record { commands = channel 8; maximum_text_bytes = 1000 }

abbrev connected : Connection
connected = record {
  controller_node = controller;
  session_id = 7;
  agent = AgentSessions.new agent full_hd;
  display_geometry = desktop;
  generation = 3;
  injection = record { sent = InjectionCommand.begin_session 3 ∷ []; room = 63 };
  sender = record { sent = Session.display_changed desktop.layout ∷ []; room = 99 };
  active_clipboard =
      some (record { session = ClipboardSessions.new agent controller; outbound = channel 8 });
  clipboard_state = record { service = some service; applications = no_applications };
  controlled = false;
  application_pending = false;
  heartbeat_nonce = 0;
  pending_heartbeats = [];
  round_trip = none;
  input_batches_received = 0;
  input_batches_acknowledged = 0;
  events = RuntimeEvent.local_desktop_changed desktop ∷ [];
}

opens :
    open_connection agent controller info desktop
      (InjectionServiceEvent.released 2 ∷ [])
      3
      (channel 64)
      (channel 100)
      (some service)
    ≡ ok (connected, ok tt)
unfolding open_connection try_send
opens = refl

abbrev branches : List AgentEvent
branches =
    AgentEvent.received 1 (Session.focus_changed 2 agent entry)
    ∷ AgentEvent.received 2 (Session.input batch)
    ∷ AgentEvent.tick [] [] (InjectionServiceEvent.applied 3 1 ∷ [])
    ∷ AgentEvent.drained (record { injection = 64; control = 100; transfers = 8; applications = 8 })
    ∷ AgentEvent.tested 3
    ∷ AgentEvent.received 4 (Session.heartbeat_acknowledged 1)
    ∷ AgentEvent.tick [] [] (InjectionServiceEvent.desktop_changed smaller ∷ [])
    ∷ AgentEvent.connection_ended
    ∷ []

connected-Sound_example : Then (On (Sound digest)) (run_agent_connection digest branches connected)
connected-Sound_example =
    connected-Sound digest agent controller info desktop (InjectionServiceEvent.released 2 ∷ []) 3
      (channel 64) (channel 100) (some service) connected branches opens

-- The controller has the control, at epoch 2.
abbrev focused : Connection
focused = record connected {
  controlled = true;
  agent = record connected.agent {
    highest_focus_epoch = 2;
    active_focus_epoch = some 2;
    last_focus = some (record { epoch = 2; target = agent; entry_position = entry });
  };
}

-- A batch is being applied.
abbrev applying : Connection
applying = record focused {
  application_pending = true;
  agent = record focused.agent { pending_batch = some batch };
}

accepts :
    (handle focused.agent (Session.input batch)).1
    ≡ ok (AgentSessions.AgentAction.apply_input batch ∷ [])
unfolding handle AgentSessions.new
accepts = refl

applying-Sound : On (Sound digest) applying
unfolding contains_local AgentSessions.new
applying-Sound = (
  (ground arith, refl, omega arith, ClipboardInvariant.new-IsValid digest agent controller),
  refl,
)

input_round_example :
    HandedOver batch focused
      (agent_step digest (AgentEvent.received 2 (Session.input batch)) focused)
    × Acknowledged batch applying (
        agent_step digest (AgentEvent.tick [] [] (InjectionServiceEvent.applied 3 1 ∷ [])) applying)
input_round_example =
    input_round digest 2 batch focused applying refl accepts (omega arith) applying-Sound refl refl
      (omega arith)

changed_desktop_fails_example :
    (injection_events
      (InjectionServiceEvent.desktop_changed smaller ∷ InjectionServiceEvent.applied 3 1 ∷ [])
      applying).1
    ≡ err (RuntimeError.session (SessionFailure.agent AgentError.no_input_application_pending))
unfolding Geometry-discrete AgentSessions.new
changed_desktop_fails_example =
    changed_desktop_fails smaller 1 [] applying refl refl (omega arith) (omega arith)

earlier_application_fails_example :
    (agent_step digest (AgentEvent.tick (ClipboardServiceEvent.applied ∷ []) [] []) connected).1
    ≡ err (RuntimeError.session SessionFailure.applied_without_pending)
earlier_application_fails_example =
    earlier_application_fails digest agent controller info desktop
      (InjectionServiceEvent.released 2 ∷ []) 3 (channel 64) (channel 100) (some service) connected
      [] [] [] opens refl

-- The run of `branches`: the batch is applied, the connection tested, the desktop changes, and the connection
-- ends.
runs :
    (run_agent_connection digest branches connected).1
    ≡ ok (some AgentConnectionOutcome.disconnected)
unfolding run_agent_connection agent_step handle AgentSessions.new NodeId-discrete
    Agent.apply_agent_actions Agent.apply_agent_action try_send any drain_agent_clipboard
    Clipboards.start_next_application Loop.transfer_events injection_events Injected.injection_event
    confirm_applied Geometry-discrete AgentSessions.reconcile_display
runs = refl

accepted_policy : Reconnect.new 8 250000000 15000000000 ≡ ok default_policy
unfolding Reconnect.new
accepted_policy = refl

third_delay : delay_before default_policy 3 ≡ some 2000000000
unfolding delay_before Reconnect.multiplier
third_delay = refl

delay_before-bounds_example :
    (1 ≤ 2000000000)
    × (250000000 ≤ 2000000000)
    × (2000000000 ≤ 15000000000)
    × Longer 2000000000 (delay_before default_policy 4)
delay_before-bounds_example =
    delay_before-bounds 8 250000000 15000000000 3 2000000000 default_policy accepted_policy
      (omega arith) third_delay

-- Two attempts fail, with a command between them.
abbrev unreachable : List Round
unreachable = Round.refused false ∷ Round.other_command ∷ Round.refused false ∷ []

unreachable_ends_example :
    run_agent controller default_policy 7 unreachable
    ≡ Progress.ends (err (RuntimeError.reconnect_exhausted controller))
unfolding count_refused
unreachable_ends_example =
    unreachable_ends controller default_policy 7 unreachable (omega arith) (omega arith)
      (refl, (tt, (refl, tt)))

-- The worker of the clipboard takes what it is sent: a ninth text is no different from the first.
abbrev copies : ℕ → List AgentEvent → List AgentEvent
copies zero events = events
copies (suc n) events =
    AgentEvent.tick (ClipboardServiceEvent.changed (n ∷ []) ∷ []) [] [] ∷ copies n events

abbrev emptied : AgentEvent
emptied =
    AgentEvent.drained (record { injection = 64; control = 100; transfers = 8; applications = 8 })

copies_go_on :
    (run_agent_connection digest (copies 8 (emptied ∷ copies 1 [])) connected).1 ≡ ok none
unfolding run_agent_connection agent_step drain_agent_clipboard Clipboards.agent_clipboard_event
    Methods.local_changed ClipboardSessions.new Clipboards.apply_agent_clipboard_actions
    Clipboards.apply_agent_clipboard_action try_send Clipboards.start_next_application
    Loop.transfer_events injection_events
copies_go_on = refl
