-- ===== src/Runtime/Controller/Failures.antt =====
-- crates/tevir/src/runtime.rs: what arrives late, and what ends the controller's loop.
use tevir.Prelude.{
  ℕ, ◌≡◌, ◌≢◌, refl, sym, subst, ◌∙◌, true, false, not, some, List, [], ◌∷◌, ok, err, is_some,
  is_none, ◌==◌, if-cases, result-cases, arith,
}
use tevir.Prelude.Assoc
use tevir.Domain.Identity.{NodeId, node_eq}
use tevir.Domain.Topology.{screen}
use tevir.Protocol.Clipboard.{ClipboardGeneration, ClipboardText}
use tevir.Session.Clipboard.{ClipboardAction, ClipboardSessionError}
use tevir.Session.Clipboard as ClipboardSessions
use tevir.Session.Clipboard.Methods
use tevir.Runtime.Controller.{
  ActivePeer, ActiveClipboard, Controller, NativeFailure, RuntimeError, SessionFailure,
  active_session, act, apply_controller_actions, send_focus, on_session, send_event,
}
use tevir.Runtime.Controller.Clipboards.{
  ClipboardServiceEvent, clipboard_of, on_clipboard, clipboard_applied, clipboard_event,
  clipboard_events, set_applications, set_clipboard, apply_clipboard_actions,
  apply_clipboard_action, queue_application, start_next_clipboard_application, stop_clipboard,
  drain_controller_clipboard,
}
use tevir.Session.Routing.{return_to_local}
use tevir.Prelude.State.{Then, Then-map, bind-Then}
use tevir.Runtime.Controller.Sending.{Handed, apply_controller_actions-Handed}
use tevir.Runtime.Controller.Capture.{return_control}
use tevir.Runtime.Controller.Network.{
  ConnectionInfo, NetworkEvent, accept_controller_peer, new_peer, add_peer, remove_peer,
  disconnect_controller_peer, handle_controller_network,
}

-- The connection that an event comes from.
abbrev pub origin : NetworkEvent → NodeId × ℕ
origin (NetworkEvent.message peer session_id received) = (peer, session_id)
origin (NetworkEvent.disconnected peer session_id) = (peer, session_id)
origin (NetworkEvent.clipboard_transfer peer session_id transfer) = (peer, session_id)
origin (NetworkEvent.clipboard_failed peer session_id) = (peer, session_id)

-- What an accepted connection leaves.
accepted_peer :
    (info : ConnectionInfo) (s t : Controller)
    → is_none (screen s.topology info.peer) ≡ false
    → accept_controller_peer info s ≡ (t, ok tt)
    → (Assoc.lookup info.peer t.peers ≡ some (new_peer s.local_node info))
      × (t.clipboard_state ≡ s.clipboard_state)
unfolding accept_controller_peer add_peer on_session send_event
accepted_peer info s t known e = ground (
  arith,
  Assoc.lookup-insert info.peer info.peer (new_peer s.local_node info) s.peers,
  node_eq.eq_iff info.peer info.peer,
)

module _ (sha256 : List ℕ → List ℕ) where
  stale :
      (now : ℕ) (event : NetworkEvent) (s : Controller)
      → active_session s.peers (origin event).0 (origin event).1 ≡ false
      → handle_controller_network sha256 now event s ≡ (s, ok tt)
  unfolding handle_controller_network disconnect_controller_peer
  stale now (NetworkEvent.message peer session_id received) s e = ground arith
  stale now (NetworkEvent.disconnected peer session_id) s e = ground arith
  stale now (NetworkEvent.clipboard_transfer peer session_id transfer) s e = ground arith
  stale now (NetworkEvent.clipboard_failed peer session_id) s e = ground arith

  -- Once a node of the topology has connected again, nothing that still arrives from an earlier connection
  -- of that node, its end included, changes anything.
  pub reconnected_ignores :
      (info : ConnectionInfo) (now : ℕ) (event : NetworkEvent) (s t : Controller)
      → is_none (screen s.topology info.peer) ≡ false
      → accept_controller_peer info s ≡ (t, ok tt)
      → (origin event).0 ≡ info.peer
      → (origin event).1 ≢ info.session_id
      → handle_controller_network sha256 now event t ≡ (t, ok tt)
  unfolding new_peer active_session
  reconnected_ignores info now event s t known e same apart =
      let here =
        subst (λ n. Assoc.lookup n t.peers ≡ some (new_peer s.local_node info)) (sym same)
          (accepted_peer info s t known e).0 in
      stale now event t (ground arith)

-- The handlers of the focus leave the clipboard alone.
return_control-clipboard :
    (s : Controller) → Then (λ t. t.clipboard_state ≡ s.clipboard_state) (return_control s)
unfolding return_control act on_session send_focus send_event
return_control-clipboard s =
    let Stays : Controller → Type 0 = λ t. t.clipboard_state ≡ s.clipboard_state in
    bind-Then Stays Stays (act return_to_local) (λ _. send_focus) s
      (bind-Then Stays Stays (on_session return_to_local) apply_controller_actions s
        (result-cases (Then Stays) ((return_to_local s.session).1) _ _ (λ _ _. refl) (λ _ _. tt))
        (λ actions t k.
          Then-map (Handed actions t) Stays (apply_controller_actions actions t) (λ u h. h.2.4 ∙ k)
            (apply_controller_actions-Handed actions t)))
      (λ _ t k. k)

disconnect-Then :
    (peer : NodeId) (session_id : ℕ) (s : Controller)
    → Then
        (λ t. t.clipboard_state ≡ s.clipboard_state)
        (disconnect_controller_peer peer session_id s)
unfolding disconnect_controller_peer remove_peer send_event
disconnect-Then peer session_id s =
    let Stays : Controller → Type 0 = λ t. t.clipboard_state ≡ s.clipboard_state in
    if-cases (Then Stays) (not (active_session s.peers peer session_id)) _ _ (λ _. refl)
      λ _.
        if-cases (Then Stays) (s.session.focus == peer) _ _ (λ _. return_control-clipboard _)
          (λ _. refl)

disconnect-clipboard :
    (peer : NodeId) (session_id : ℕ) (s t : Controller)
    → disconnect_controller_peer peer session_id s ≡ (t, ok tt)
    → t.clipboard_state ≡ s.clipboard_state
disconnect-clipboard peer session_id s t e =
    subst (Then (λ u. u.clipboard_state ≡ s.clipboard_state)) e (disconnect-Then peer session_id s)

module _ (sha256 : List ℕ → List ℕ) where
  -- If a peer disconnects while a text that its connection handed to the native clipboard is being applied, and
  -- the next that happens is that it connects again, with a clipboard, and the next after that the report that the
  -- text was applied, then the report ends the controller's loop.
  pub reconnected_application_fails :
      (info : ConnectionInfo) (session_id : ℕ) (generation : ClipboardGeneration)
      (later : List ClipboardServiceEvent) (s t u : Controller)
      → s.clipboard_state.applications.pending ≡ some (info.peer, generation)
      → is_some s.clipboard_state.service ≡ true
      → info.clipboard_text ≡ true
      → disconnect_controller_peer info.peer session_id s ≡ (t, ok tt)
      → is_none (screen t.topology info.peer) ≡ false
      → accept_controller_peer info t ≡ (u, ok tt)
      → (drain_controller_clipboard sha256 (ClipboardServiceEvent.applied ∷ later) u).1
        ≡ err (
            RuntimeError.session
              (SessionFailure.clipboard ClipboardSessionError.no_application_pending))
  unfolding drain_controller_clipboard clipboard_events clipboard_event clipboard_applied
      set_applications clipboard_of on_clipboard Methods.confirm_applied ClipboardSessions.new
      new_peer
  reconnected_application_fails info session_id generation later s t u pending runs text ended known
        accepted =
      let (there, same) = accepted_peer info t u known accepted in
      let kept = same ∙ disconnect-clipboard info.peer session_id s t ended in ground arith

  -- If the native clipboard has failed or stopped, then the next text that a peer completes ends the
  -- controller's loop.
  pub transfer_without_service_fails :
      (now session_id : ℕ) (peer : NodeId) (transfer complete : ClipboardText) (s : Controller)
      (active : ActivePeer) (clipboard : ActiveClipboard)
      → Assoc.lookup peer s.peers ≡ some active
      → active.session_id ≡ session_id
      → active.clipboard ≡ some clipboard
      → (Methods.receive_transfer sha256 clipboard.session transfer).1
        ≡ ok (ClipboardAction.apply_remote complete ∷ [])
      → (handle_controller_network sha256 now
          (NetworkEvent.clipboard_transfer peer session_id transfer)
          (stop_clipboard s)).1
        ≡ err (RuntimeError.native NativeFailure.clipboard_unavailable)
  unfolding handle_controller_network active_session on_clipboard clipboard_of set_clipboard
      apply_clipboard_actions apply_clipboard_action queue_application set_applications
      start_next_clipboard_application stop_clipboard
  transfer_without_service_fails now session_id peer transfer complete s active clipboard there same
        has done =
      ground arith
