-- ===== src/Runtime/Controller/Sound/Clipboards.antt =====
-- crates/tevir/src/runtime.rs: the handlers of the clipboards keep the state of the loop sound.
use tevir.Prelude.{
  ℕ, ◌≡◌, ap, subst, true, none, some, List, [], ◌∷◌, is_some, if◌then◌else◌, option-cases,
  result-cases, arith,
}
use tevir.Prelude.Assoc
use tevir.Domain.Identity.{NodeId, node_eq}
use tevir.Protocol.Message.{Session}
use tevir.Session.Clipboard.{ClipboardAction}
use tevir.Session.Clipboard.Methods
use tevir.Session.Clipboard.Invariant.{IsValid}
use tevir.Session.Clipboard.Calls as ClipboardCalls
use tevir.Session.Clipboard.Steps as ClipboardSteps
use tevir.Runtime.Channel.{try_send}
use tevir.Runtime.Controller.{
  ActivePeer, ActiveClipboard, Controller, RuntimeEvent, SessionFailure, send_event,
}
use tevir.Runtime.Controller.Clipboards.{
  ClipboardServiceEvent, start_next_clipboard_application, queue_application, set_applications,
  clipboard_of, set_clipboard, apply_clipboard_action, apply_clipboard_actions, on_clipboard,
  clipboard_peers, stop_clipboard, offer_to, clipboard_applied, clipboard_event, clipboard_events,
  drain_controller_clipboard,
}
use tevir.Prelude.State.{Then, any-Then, bind-Then}
use tevir.Runtime.Controller.Sound.{
  Keeps, Sound, SoundOn-insert, ConnectionOk, ClipboardOk, send_to-Sound, then-Keeps, event-Keeps,
}

-- A connection with a clipboard is a connection.
clipboard_of-some :
    (peer : NodeId) (s : Controller) (active : ActivePeer) (clipboard : ActiveClipboard)
    → clipboard_of peer s ≡ some (active, clipboard)
    → (Assoc.lookup peer s.peers ≡ some active) × (active.clipboard ≡ some clipboard)
unfolding clipboard_of
clipboard_of-some peer s active clipboard e = ground arith

module _ (sha256 : List ℕ → List ℕ) where
  set_clipboard-Sound :
      (peer : NodeId) (active : ActivePeer) (clipboard : ActiveClipboard) (s : Controller)
      → Assoc.lookup peer s.peers ≡ some active
      → IsValid sha256 clipboard.session
      → Sound sha256 s
      → Sound sha256 (set_clipboard peer active (some clipboard) s)
  unfolding set_clipboard
  set_clipboard-Sound peer active clipboard s found v h =
      let c : ConnectionOk sha256 active =
        Assoc.AllValues-lookup (ConnectionOk sha256) peer s.peers active h.held found in
      SoundOn-insert sha256 s.topology s.topology s.local_node s.session s.peers peer
        (record active { clipboard = some clipboard }) (h.connected peer (ap is_some found))
        (c.0, v) h

  clipboard_of-IsValid :
      (peer : NodeId) (s : Controller) (active : ActivePeer) (clipboard : ActiveClipboard)
      → Sound sha256 s
      → clipboard_of peer s ≡ some (active, clipboard)
      → IsValid sha256 clipboard.session
  clipboard_of-IsValid peer s active clipboard h found =
      let (there, has) = clipboard_of-some peer s active clipboard found in
      let c : ConnectionOk sha256 active =
        Assoc.AllValues-lookup (ConnectionOk sha256) peer s.peers active h.held there in
      subst (ClipboardOk sha256) has c.1

  start_next-Keeps : Keeps (Sound sha256) start_next_clipboard_application
  unfolding start_next_clipboard_application
  start_next-Keeps s h = any-Then (Sound sha256) (start_next_clipboard_application s) h

  apply_clipboard_action-Keeps :
      (peer : NodeId) (action : ClipboardAction)
      → Keeps (Sound sha256) (apply_clipboard_action peer action)
  unfolding apply_clipboard_action queue_application set_applications
  apply_clipboard_action-Keeps peer (ClipboardAction.send_control control) s h =
      option-cases (Then (Sound sha256)) (Assoc.lookup peer s.peers) _ _ (λ _. tt)
        λ active found. send_to-Sound sha256 peer active (Session.clipboard control) s found h
  apply_clipboard_action-Keeps peer (ClipboardAction.send_transfer transfer) s h =
      option-cases (Then (Sound sha256)) (clipboard_of peer s) _ _ (λ _. tt)
        λ o found.
          option-cases (Then (Sound sha256)) (try_send transfer ((o.1).outbound)) _ _ (λ _. tt)
            λ outbound _.
              set_clipboard-Sound peer o.0 (record (o.1) { outbound = outbound }) s
                (clipboard_of-some peer s o.0 o.1 found).0
                (clipboard_of-IsValid peer s o.0 o.1 h found) h
  apply_clipboard_action-Keeps peer (ClipboardAction.apply_remote transfer) s h = h

  apply_clipboard_actions-Keeps :
      (peer : NodeId) (actions : List ClipboardAction)
      → Keeps (Sound sha256) (apply_clipboard_actions peer actions)
  unfolding apply_clipboard_actions
  apply_clipboard_actions-Keeps peer [] s h = start_next-Keeps s h
  apply_clipboard_actions-Keeps peer (action ∷ actions) s h =
      bind-Then (Sound sha256) (Sound sha256) (apply_clipboard_action peer action)
        (λ _. apply_clipboard_actions peer actions) s (apply_clipboard_action-Keeps peer action s h)
        (λ _ t k. apply_clipboard_actions-Keeps peer actions t k)

  -- A call on the clipboard session of a peer, and its actions.
  pub call-Keeps :
      (peer : NodeId) (missing : SessionFailure) (call : ClipboardCalls.Call)
      → Keeps (Sound sha256) (on_clipboard peer missing (λ c. ClipboardCalls.step sha256 c call))
  unfolding on_clipboard
  call-Keeps peer missing call s h =
      option-cases (Then (Sound sha256)) (clipboard_of peer s) _ _ (λ _. tt)
        λ o found.
          let r = ClipboardCalls.step sha256 ((o.1).session) call in
          let v = clipboard_of-IsValid peer s o.0 o.1 h found in
          let t = set_clipboard peer o.0 (some (record (o.1) { session = r.0 })) s in
          let k : Sound sha256 t =
            set_clipboard-Sound peer o.0 (record (o.1) { session = r.0 }) s
              (clipboard_of-some peer s o.0 o.1 found).0
              (ClipboardSteps.step-Sound sha256 ((o.1).session) call v).0 h in
          result-cases (Then (Sound sha256)) (r.1) _ _
            (λ actions _. apply_clipboard_actions-Keeps peer actions t k) (λ _ _. tt)

  offer_to-Keeps :
      (text : List ℕ) (peers : List NodeId) → Keeps (Sound sha256) (offer_to sha256 text peers)
  unfolding offer_to ClipboardCalls.step
  offer_to-Keeps text [] s h = h
  offer_to-Keeps text (peer ∷ peers) s h =
      bind-Then (Sound sha256) (Sound sha256)
        (on_clipboard peer SessionFailure.clipboard_peer_lost
          (λ c. Methods.local_changed sha256 c text))
        (λ _. offer_to sha256 text peers) s
        (call-Keeps peer SessionFailure.clipboard_peer_lost (ClipboardCalls.changes text) s h)
        (λ _ t k. offer_to-Keeps text peers t k)

  applied-Keeps : Keeps (Sound sha256) (clipboard_applied sha256)
  unfolding clipboard_applied ClipboardCalls.step set_applications
  applied-Keeps s h =
      option-cases (Then (Sound sha256)) (s.clipboard_state.applications.pending) _ _ (λ _. tt)
        λ o _.
          let t = set_applications (record s.clipboard_state.applications { pending = none }) s in
          option-cases (Then (Sound sha256)) (clipboard_of o.0 t) _ _ (λ _. h)
            λ _ _.
              then-Keeps sha256
                (on_clipboard o.0 SessionFailure.clipboard_peer_lost
                  (λ c. Methods.confirm_applied sha256 c o.1))
                (λ _. send_event (RuntimeEvent.clipboard_synchronized o.0 true))
                (call-Keeps o.0 SessionFailure.clipboard_peer_lost (ClipboardCalls.confirms o.1))
                (λ _. event-Keeps sha256 (RuntimeEvent.clipboard_synchronized o.0 true)) t h

  clipboard_event-Keeps :
      (event : ClipboardServiceEvent) → Keeps (Sound sha256) (clipboard_event sha256 event)
  unfolding clipboard_event stop_clipboard send_event
  clipboard_event-Keeps (ClipboardServiceEvent.ready backend) s h = h
  clipboard_event-Keeps (ClipboardServiceEvent.changed text) s h =
      offer_to-Keeps text (clipboard_peers s.peers) s h
  clipboard_event-Keeps ClipboardServiceEvent.applied s h = applied-Keeps s h
  clipboard_event-Keeps ClipboardServiceEvent.failed s h = h
  clipboard_event-Keeps ClipboardServiceEvent.stopped s h = h

  clipboard_events-Keeps :
      (events : List ClipboardServiceEvent) → Keeps (Sound sha256) (clipboard_events sha256 events)
  unfolding clipboard_events
  clipboard_events-Keeps [] s h = start_next-Keeps s h
  clipboard_events-Keeps (event ∷ events) s h =
      bind-Then (Sound sha256) (Sound sha256) (clipboard_event sha256 event)
        (λ _. clipboard_events sha256 events) s (clipboard_event-Keeps event s h)
        (λ _ t k. clipboard_events-Keeps events t k)

  pub drain_clipboard-Keeps :
      (events : List ClipboardServiceEvent)
      → Keeps (Sound sha256) (drain_controller_clipboard sha256 events)
  unfolding drain_controller_clipboard
  drain_clipboard-Keeps events s h =
      clipboard_events-Keeps (if is_some s.clipboard_state.service then events else []) s h
