-- ===== src/Runtime/Agent/Sound/Clipboards.antt =====
-- crates/tevir/src/runtime.rs: the handlers of the agent's clipboard keep the state of its loop sound.
use tevir.Prelude.{
  ℕ, subst, true, not, none, some, List, [], ◌∷◌, is_some, ◌==◌, if◌then◌else◌, option-cases,
  result-cases, if-cases,
}
use tevir.Prelude.State.{Then, any-Then, bind-Then}
use tevir.Domain.Identity.{node_eq}
use tevir.Protocol.Message.{Session}
use tevir.Session.Clipboard.{ClipboardAction}
use tevir.Session.Clipboard.Methods
use tevir.Session.Clipboard.Invariant.{IsValid}
use tevir.Session.Clipboard.Calls as ClipboardCalls
use tevir.Session.Clipboard.Steps as ClipboardSteps
use tevir.Runtime.Channel.{try_send}
use tevir.Runtime.Controller.{ActiveClipboard, RuntimeEvent}
use tevir.Runtime.Controller.Clipboards.{ClipboardServiceEvent}
use tevir.Runtime.Controller.Network.{NetworkEvent}
use tevir.Runtime.Controller.Sound.{ClipboardOk}
use tevir.Runtime.Agent.{Connection, send_agent_event}
use tevir.Runtime.Agent.Clipboards.{
  start_next_application, with_applications, apply_agent_clipboard_action,
  apply_agent_clipboard_actions, on_agent_clipboard, on_negotiated, drop_clipboard, agent_applied,
  agent_clipboard_event, agent_clipboard_events, drain_agent_clipboard,
}
use tevir.Runtime.Agent.Loop.{is_own, transfer_event, transfer_events}
use tevir.Runtime.Agent.Sound.{On, KeepsOn, Sound, control-KeepsOn}

module _ (sha256 : List ℕ → List ℕ) where
  start_next-KeepsOn : KeepsOn (Sound sha256) start_next_application
  unfolding start_next_application
  start_next-KeepsOn s h = any-Then (On (Sound sha256)) (start_next_application s) h

  action-KeepsOn :
      (action : ClipboardAction) → KeepsOn (Sound sha256) (apply_agent_clipboard_action action)
  unfolding apply_agent_clipboard_action with_applications
  action-KeepsOn (ClipboardAction.send_control control) s h =
      control-KeepsOn (Sound sha256) (Session.clipboard control) s h
  action-KeepsOn (ClipboardAction.send_transfer transfer) s h =
      option-cases (Then (On (Sound sha256))) (s.active_clipboard) _ _ (λ _. tt)
        λ clipboard e.
          option-cases (Then (On (Sound sha256))) (try_send transfer clipboard.outbound) _ _
            (λ _. tt) (λ _ _. ((h.0.0, h.0.1, h.0.2, subst (ClipboardOk sha256) e h.0.3), h.1))
  action-KeepsOn (ClipboardAction.apply_remote transfer) s h = h

  clipboard_actions-KeepsOn :
      (actions : List ClipboardAction)
      → KeepsOn (Sound sha256) (apply_agent_clipboard_actions actions)
  unfolding apply_agent_clipboard_actions
  clipboard_actions-KeepsOn [] s h = start_next-KeepsOn s h
  clipboard_actions-KeepsOn (action ∷ actions) s h =
      bind-Then (On (Sound sha256)) (On (Sound sha256)) (apply_agent_clipboard_action action)
        (λ _. apply_agent_clipboard_actions actions) s (action-KeepsOn action s h)
        (λ _ t k. clipboard_actions-KeepsOn actions t k)

  -- A call on the clipboard session, and its actions.
  call-KeepsOn :
      (clipboard : ActiveClipboard) (call : ClipboardCalls.Call) (s : Connection)
      → IsValid sha256 clipboard.session
      → On (Sound sha256) s
      → Then
          (On (Sound sha256))
          (on_agent_clipboard clipboard (λ c. ClipboardCalls.step sha256 c call) s)
  unfolding on_agent_clipboard
  call-KeepsOn clipboard call s v h =
      let r = ClipboardCalls.step sha256 clipboard.session call in
      let t = record s { active_clipboard = some (record clipboard { session = r.0 }) } in
      let k : On (Sound sha256) t = (
        (h.0.0, h.0.1, h.0.2, (ClipboardSteps.step-Sound sha256 clipboard.session call v).0),
        h.1,
      ) in
      result-cases (Then (On (Sound sha256))) (r.1) _ _
        (λ actions _. clipboard_actions-KeepsOn actions t k) (λ _ _. tt)

  pub negotiated-KeepsOn :
      (call : ClipboardCalls.Call)
      → KeepsOn (Sound sha256) (on_negotiated (λ c. ClipboardCalls.step sha256 c call))
  unfolding on_negotiated
  negotiated-KeepsOn call s h =
      option-cases (Then (On (Sound sha256))) (s.active_clipboard) _ _ (λ _. tt)
        λ clipboard e. call-KeepsOn clipboard call s (subst (ClipboardOk sha256) e h.0.3) h

  applied-KeepsOn : KeepsOn (Sound sha256) (agent_applied sha256)
  unfolding agent_applied ClipboardCalls.step with_applications send_agent_event
  applied-KeepsOn s h =
      option-cases (Then (On (Sound sha256))) (s.clipboard_state.applications.pending) _ _ (λ _. tt)
        λ o _.
          let t = with_applications (record s.clipboard_state.applications { pending = none }) s in
          if-cases (Then (On (Sound sha256))) (not (o.0 == s.controller_node)) _ _ (λ _. tt)
            λ _.
              option-cases (Then (On (Sound sha256))) (s.active_clipboard) _ _ (λ _. h)
                λ clipboard e.
                  bind-Then (On (Sound sha256)) (On (Sound sha256))
                    (on_agent_clipboard clipboard (λ c. Methods.confirm_applied sha256 c o.1))
                    (λ _. send_agent_event (RuntimeEvent.clipboard_synchronized o.0 true)) t
                    (call-KeepsOn clipboard (ClipboardCalls.confirms o.1) t
                      (subst (ClipboardOk sha256) e h.0.3) h)
                    (λ _ _ k. k)

  event-KeepsOn :
      (event : ClipboardServiceEvent) → KeepsOn (Sound sha256) (agent_clipboard_event sha256 event)
  unfolding agent_clipboard_event send_agent_event drop_clipboard with_applications
      ClipboardCalls.step
  event-KeepsOn (ClipboardServiceEvent.ready backend) s h = h
  event-KeepsOn (ClipboardServiceEvent.changed text) s h =
      option-cases (Then (On (Sound sha256))) (s.active_clipboard) _ _ (λ _. h)
        λ clipboard e.
          call-KeepsOn clipboard (ClipboardCalls.changes text) s
            (subst (ClipboardOk sha256) e h.0.3) h
  event-KeepsOn ClipboardServiceEvent.applied s h = applied-KeepsOn s h
  event-KeepsOn ClipboardServiceEvent.failed s h = ((h.0.0, h.0.1, h.0.2, tt), h.1)
  event-KeepsOn ClipboardServiceEvent.stopped s h = ((h.0.0, h.0.1, h.0.2, tt), h.1)

  clipboard_events-KeepsOn :
      (events : List ClipboardServiceEvent)
      → KeepsOn (Sound sha256) (agent_clipboard_events sha256 events)
  unfolding agent_clipboard_events
  clipboard_events-KeepsOn [] s h = start_next-KeepsOn s h
  clipboard_events-KeepsOn (event ∷ events) s h =
      bind-Then (On (Sound sha256)) (On (Sound sha256)) (agent_clipboard_event sha256 event)
        (λ _. agent_clipboard_events sha256 events) s (event-KeepsOn event s h)
        (λ _ t k. clipboard_events-KeepsOn events t k)

  pub drain-KeepsOn :
      (events : List ClipboardServiceEvent)
      → KeepsOn (Sound sha256) (drain_agent_clipboard sha256 events)
  unfolding drain_agent_clipboard
  drain-KeepsOn events s h =
      clipboard_events-KeepsOn (if is_some s.clipboard_state.service then events else []) s h

  transfer-KeepsOn : (event : NetworkEvent) → KeepsOn (Sound sha256) (transfer_event sha256 event)
  unfolding transfer_event send_agent_event ClipboardCalls.step
  transfer-KeepsOn (NetworkEvent.clipboard_transfer peer session_id transfer) s h =
      if-cases (Then (On (Sound sha256))) (is_own sha256 peer session_id s) _ _
        (λ _. negotiated-KeepsOn (ClipboardCalls.transfers transfer) s h) (λ _. h)
  transfer-KeepsOn (NetworkEvent.clipboard_failed peer session_id) s h =
      if-cases (Then (On (Sound sha256))) (is_own sha256 peer session_id s) _ _
        (λ _. ((h.0.0, h.0.1, h.0.2, tt), h.1)) (λ _. h)
  transfer-KeepsOn (NetworkEvent.message peer session_id received) s h = h
  transfer-KeepsOn (NetworkEvent.disconnected peer session_id) s h = h

  pub transfers-KeepsOn :
      (events : List NetworkEvent) → KeepsOn (Sound sha256) (transfer_events sha256 events)
  unfolding transfer_events
  transfers-KeepsOn [] s h = h
  transfers-KeepsOn (event ∷ events) s h =
      bind-Then (On (Sound sha256)) (On (Sound sha256)) (transfer_event sha256 event)
        (λ _. transfer_events sha256 events) s (transfer-KeepsOn event s h)
        (λ _ t k. transfers-KeepsOn events t k)
