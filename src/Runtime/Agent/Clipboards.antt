-- ===== src/Runtime/Agent/Clipboards.antt =====
-- crates/tevir/src/runtime.rs: the native clipboard of the agent and its clipboard session. SHA-256 is a
-- parameter.
use tevir.Prelude.{
  ℕ, true, not, none, some, List, [], ◌∷◌, ◌++◌, ok, err, ◌>>◌, is_some, ◌==◌, if◌then◌else◌,
}
use tevir.Domain.Identity.{node_eq}
use tevir.Protocol.Message.{Session}
use tevir.Session.Clipboard.{ClipboardAction, ClipboardSession, Outcome}
use tevir.Session.Clipboard.Methods
use tevir.Runtime.Channel.{try_send}
use tevir.Runtime.Controller.{
  ActiveClipboard, ClipboardApplications, no_applications, Notice, RuntimeError, RuntimeEvent,
  SessionFailure,
}
use tevir.Runtime.Controller.Clipboards.{ClipboardServiceEvent, start_next}
use tevir.Runtime.Agent.{Connection, AgentHandler, send_agent_event, send_control}

unfoldable pub start_next_application : AgentHandler (Unit {0})
unfolding start_next
start_next_application s =
    let r = start_next s.clipboard_state in (record s { clipboard_state = r.0 }, r.1)

unfoldable pub with_applications : ClipboardApplications → Connection → Connection
with_applications applications s = record s {
  clipboard_state = record s.clipboard_state { applications = applications };
}

-- One round of `apply_agent_clipboard_actions`.
unfoldable pub apply_agent_clipboard_action : ClipboardAction → AgentHandler (Unit {0})
unfolding send_control with_applications
apply_agent_clipboard_action (ClipboardAction.send_control control) s =
    send_control (Session.clipboard control) s
apply_agent_clipboard_action (ClipboardAction.send_transfer transfer) s =
    elim (s.active_clipboard) [
      | none ↦ (s, err (RuntimeError.session SessionFailure.transfer_channel_unavailable))
      | some clipboard ↦ elim (try_send transfer clipboard.outbound) [
        | none ↦ (s, err (RuntimeError.session SessionFailure.agent_transfer_queue_full))
        | some outbound ↦
            (record s { active_clipboard = some (record clipboard { outbound = outbound }) }, ok tt)
      ]
    ]
apply_agent_clipboard_action (ClipboardAction.apply_remote transfer) s =
    let applications = s.clipboard_state.applications in
    (
      with_applications
          (record applications {
            queued = applications.queued ++ ((transfer.generation.owner, transfer) ∷ []);
          })
          s,
      ok tt,
    )

unfoldable pub apply_agent_clipboard_actions : List ClipboardAction → AgentHandler (Unit {0})
apply_agent_clipboard_actions [] s = start_next_application s
apply_agent_clipboard_actions (action ∷ actions) s =
    let r = apply_agent_clipboard_action action s in
    elim (r.1) [ ok _ ↦ apply_agent_clipboard_actions actions r.0 | err e ↦ (r.0, err e) ]

-- A method of the clipboard session, and then its actions.
unfoldable pub on_agent_clipboard :
    ActiveClipboard → (ClipboardSession → Outcome) → AgentHandler (Unit {0})
on_agent_clipboard clipboard method s =
    let r = method clipboard.session in
    let t = record s { active_clipboard = some (record clipboard { session = r.0 }) } in
    elim (r.1) [
      | err e ↦ (t, err (RuntimeError.session (SessionFailure.clipboard e)))
      | ok actions ↦ apply_agent_clipboard_actions actions t
    ]

-- The same for what the controller sends, which needs a clipboard.
unfoldable pub on_negotiated : (ClipboardSession → Outcome) → AgentHandler (Unit {0})
unfolding on_agent_clipboard
on_negotiated method s = elim (s.active_clipboard) [
  | none ↦ (s, err (RuntimeError.session SessionFailure.agent_clipboard_not_negotiated))
  | some clipboard ↦ on_agent_clipboard clipboard method s
]

-- The arms of `Failed` and `Stopped`; the service stays.
unfoldable pub drop_clipboard : Connection → Connection
unfolding with_applications
drop_clipboard s = with_applications no_applications (record s { active_clipboard = none })

module _ (sha256 : List ℕ → List ℕ) where
  unfoldable pub agent_applied : AgentHandler (Unit {0})
  unfolding with_applications on_agent_clipboard send_agent_event
  agent_applied s = elim (s.clipboard_state.applications.pending) [
    | none ↦ (s, err (RuntimeError.session SessionFailure.applied_without_pending))
    | some (peer, generation) ↦
        let t = with_applications (record s.clipboard_state.applications { pending = none }) s in
        if not (peer == s.controller_node)
        then (t, err (RuntimeError.session (SessionFailure.foreign_application peer)))
        else elim (t.active_clipboard) [
          | none ↦ (t, ok tt)
          | some clipboard ↦
              (do
                on_agent_clipboard clipboard (λ c. Methods.confirm_applied sha256 c generation)
                send_agent_event (RuntimeEvent.clipboard_synchronized peer true))
                t
        ]
  ]

  -- One round of the loop of `drain_agent_clipboard`.
  unfoldable pub agent_clipboard_event : ClipboardServiceEvent → AgentHandler (Unit {0})
  unfolding send_agent_event on_agent_clipboard agent_applied drop_clipboard
  agent_clipboard_event (ClipboardServiceEvent.ready backend) s =
      send_agent_event (RuntimeEvent.clipboard_ready backend) s
  agent_clipboard_event (ClipboardServiceEvent.changed text) s = elim (s.active_clipboard) [
    | none ↦ (s, ok tt)
    | some clipboard ↦ on_agent_clipboard clipboard (λ c. Methods.local_changed sha256 c text) s
  ]
  agent_clipboard_event ClipboardServiceEvent.applied s = agent_applied s
  agent_clipboard_event ClipboardServiceEvent.failed s =
      (do
        send_agent_event (RuntimeEvent.error Notice.clipboard_failed)
        λ t. (drop_clipboard t, ok tt))
        s
  agent_clipboard_event ClipboardServiceEvent.stopped s = (drop_clipboard s, ok tt)

  unfoldable pub agent_clipboard_events : List ClipboardServiceEvent → AgentHandler (Unit {0})
  agent_clipboard_events [] s = start_next_application s
  agent_clipboard_events (event ∷ events) s =
      let r = agent_clipboard_event event s in
      elim (r.1) [ ok _ ↦ agent_clipboard_events events r.0 | err e ↦ (r.0, err e) ]

  unfoldable pub drain_agent_clipboard : List ClipboardServiceEvent → AgentHandler (Unit {0})
  unfolding agent_clipboard_events
  drain_agent_clipboard native_events s =
      agent_clipboard_events (if is_some s.clipboard_state.service then native_events else []) s
