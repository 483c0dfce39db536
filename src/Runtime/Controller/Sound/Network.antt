-- ===== src/Runtime/Controller/Sound/Network.antt =====
-- crates/tevir/src/runtime.rs: the handlers of the connections keep the state of the loop sound.
use tevir.Prelude.{
  ℕ, ◌≡◌, refl, Bool, true, false, not, none, List, ok, ◌>>◌, is_some, is_none, ◌==◌, if◌then◌else◌,
  option-cases, if-cases, result-cases, arith,
}
use tevir.Prelude.Assoc
use tevir.Domain.Identity.{NodeId, node_eq}
use tevir.Domain.Display.{DesktopLayout}
use tevir.Domain.Topology.{Topology, screen}
use tevir.Domain.Topology.Accepted.{IsArrangement}
use tevir.Protocol.Message.{Session}
use tevir.Session.Controller.{acknowledge, reset_peer, focus_position}
use tevir.Session.Controller.Invariant.{acknowledge-IsValid, reset_peer-IsValid}
use tevir.Session.Routing.Placed.{acknowledge-Placed, reset_peer-Placed}
use tevir.Session.Clipboard.Methods
use tevir.Session.Clipboard.Calls as ClipboardCalls
use tevir.Session.Clipboard.Invariant as ClipboardInvariant
use tevir.Runtime.Resize.{resize_topology_screen}
use tevir.Runtime.Controller.{
  topology_eq, ActivePeer, Controller, RuntimeEvent, Notice, SessionFailure, send_event, on_session,
  active_session,
}
use tevir.Runtime.Controller.Capture.{return_control}
use tevir.Runtime.Controller.Clipboards.{on_clipboard, set_applications}
use tevir.Runtime.Controller.Network.{
  ConnectionInfo, NetworkEvent, new_peer, add_peer, accept_controller_peer, remove_peer,
  disconnect_controller_peer, emit_controller_diagnostics, repeat_focus, adopt_or_repeat,
  display_changed, is_applied, report_applied, clipboard_lost, handle_message,
  handle_controller_network,
}
use tevir.Prelude.State.{Then, bind-Then}
use tevir.Runtime.Controller.Sound.{
  Keeps, Known, Sound, SoundOn-insert, Between, Between-Sound, ConnectionOk, ClipboardOk,
  KeepsSession-Ends, send_to-Sound, on_session-Between, on_session-Keeps, then-Keeps, event-Keeps,
}
use tevir.Runtime.Controller.Sound.Capture.{
  resize-Known, return_control-Keeps, adopt_topology-Keeps,
}
use tevir.Runtime.Controller.Sound.Clipboards.{call-Keeps}
use tevir.Runtime.Controller.Sound.Heartbeats.{
  replace-Sound, diagnostics-Keeps, acknowledged-Keeps, answer-Sound,
}

pub Known-retain :
    (topology : Topology) (keep : NodeId → Bool) (peers : List (NodeId × ActivePeer))
    → Known topology peers
    → Known topology (Assoc.retain keep peers)
Known-retain topology keep peers h peer e =
    h peer (ground (arith, Assoc.lookup-retain keep peer peers))

module _ (sha256 : List ℕ → List ℕ) where
  retain-Sound :
      (keep : NodeId → Bool) (s : Controller)
      → Sound sha256 s
      → Sound sha256 (record s { peers = Assoc.retain keep s.peers })
  retain-Sound keep s h = record {
    valid = h.valid;
    placed = h.placed;
    arranged = h.arranged;
    connected = Known-retain s.topology keep s.peers h.connected;
    held = Assoc.AllValues-retain (ConnectionOk sha256) keep s.peers h.held;
  }

  new_peer-Ok : (node : NodeId) (info : ConnectionInfo) → ConnectionOk sha256 (new_peer node info)
  unfolding new_peer
  new_peer-Ok node info = (
    omega arith,
    if-cases (ClipboardOk sha256) info.clipboard_text _ _
        (λ _. ClipboardInvariant.new-IsValid sha256 node info.peer) (λ _. tt),
  )

  pub accept-Keeps : (info : ConnectionInfo) → Keeps (Sound sha256) (accept_controller_peer info)
  unfolding accept_controller_peer
  accept-Keeps info s h =
      if-cases (Then (Sound sha256)) (is_none (screen s.topology info.peer)) _ _
        (λ _. event-Keeps sha256 (RuntimeEvent.error (Notice.not_in_topology info.peer)) s h)
        λ here.
          let on = s.topology in
          let known : is_some (screen on info.peer) ≡ true = ground arith in
          let new_active = new_peer s.local_node info in
          bind-Then (Between sha256 on on on) (Sound sha256) (on_session (reset_peer info.peer))
            (λ _.
              add_peer info.peer new_active
              >> send_event (RuntimeEvent.connected info.peer info.session_id))
            s
            (on_session-Between sha256 on on on on (reset_peer info.peer) s h.arranged
              (KeepsSession-Ends sha256 (reset_peer info.peer) on s.local_node s.session
                (reset_peer-IsValid info.peer, λ t n. reset_peer-Placed t n info.peer) h.valid
                h.placed)
              (h, refl))
            λ _ t k.
              Between-Sound sha256 on
                (record t { peers = Assoc.insert info.peer new_active t.peers })
                (
                  SoundOn-insert sha256 on on t.local_node t.session t.peers info.peer new_active
                      known (new_peer-Ok s.local_node info) k.0,
                  k.1,
                )

  pub disconnect-Keeps :
      (peer : NodeId) (session_id : ℕ)
      → Keeps (Sound sha256) (disconnect_controller_peer peer session_id)
  unfolding disconnect_controller_peer remove_peer
  disconnect-Keeps peer session_id s h =
      if-cases (Then (Sound sha256)) (not (active_session s.peers peer session_id)) _ _ (λ _. h)
        λ _.
          then-Keeps sha256 (send_event (RuntimeEvent.disconnected peer))
            (λ _ t. if t.session.focus == peer then return_control t else (t, ok tt))
            (event-Keeps sha256 (RuntimeEvent.disconnected peer))
            (λ _ t k.
              if-cases (Then (Sound sha256)) (t.session.focus == peer) _ _
                (λ _. return_control-Keeps sha256 t k) (λ _. k))
            (remove_peer peer s) (retain-Sound (λ other. not (other == peer)) s h)

  repeat_focus-Keeps : (peer : NodeId) → Keeps (Sound sha256) (repeat_focus peer)
  unfolding repeat_focus
  repeat_focus-Keeps peer s h =
      option-cases (Then (Sound sha256)) (Assoc.lookup peer s.peers) _ _ (λ _. h)
        λ active found.
          let again =
            Session.focus_changed s.session.focus_epoch s.session.focus
              (focus_position s.session) in
          send_to-Sound sha256 peer active again s found h

  adopt_or_repeat-Keeps :
      (peer : NodeId) (updated : Topology) (s : Controller)
      → IsArrangement updated.screens
      → Known updated s.peers
      → Sound sha256 s
      → Then (Sound sha256) (adopt_or_repeat peer updated s)
  unfolding adopt_or_repeat
  adopt_or_repeat-Keeps peer updated s a known h =
      if-cases (Then (Sound sha256)) (updated == s.topology) _ _ (λ _. repeat_focus-Keeps peer s h)
        (λ _. adopt_topology-Keeps sha256 updated s a known h)

  display_changed-Keeps :
      (peer : NodeId) (layout : DesktopLayout) → Keeps (Sound sha256) (display_changed peer layout)
  unfolding display_changed
  display_changed-Keeps peer layout s h =
      result-cases (Then (Sound sha256)) (resize_topology_screen s.topology peer layout) _ _
        (λ updated e.
          let (a, known) =
            resize-Known s.topology updated peer layout s.peers h.arranged e h.connected in
          option-cases (Then (Sound sha256)) (screen updated peer) _ _ (λ _. tt)
            (λ found _.
              bind-Then (Sound sha256) (Sound sha256) (adopt_or_repeat peer updated)
                (λ _. send_event (RuntimeEvent.display_changed found)) s
                (adopt_or_repeat-Keeps peer updated s a known h)
                (λ _. event-Keeps sha256 (RuntimeEvent.display_changed found))))
        (λ e _. event-Keeps sha256 (RuntimeEvent.error (Notice.display_rejected peer e)) s h)

  report_applied-Keeps : (peer : NodeId) (b : Bool) → Keeps (Sound sha256) (report_applied peer b)
  unfolding report_applied
  report_applied-Keeps peer b s h =
      if-cases (Then (Sound sha256)) b _ _
        (λ _. event-Keeps sha256 (RuntimeEvent.clipboard_synchronized peer false) s h) (λ _. h)

  clipboard_lost-Keeps : (peer : NodeId) → Keeps (Sound sha256) (clipboard_lost peer)
  unfolding clipboard_lost set_applications send_event
  clipboard_lost-Keeps peer s h =
      option-cases (Sound sha256) (Assoc.lookup peer s.peers) s
        (λ active. record s {
          peers = Assoc.insert peer (record active { clipboard = none }) s.peers;
        })
        (λ _. h)
        (λ active found.
          replace-Sound sha256 peer active (record active { clipboard = none }) s found
            (λ c. (c.0, tt)) h)

  handle_message-Keeps :
      (now : ℕ) (peer : NodeId) (session_id : ℕ) (received : Session)
      → Keeps (Sound sha256) (handle_message sha256 now peer session_id received)
  unfolding handle_message ClipboardCalls.step
  handle_message-Keeps now peer session_id (Session.display_changed layout) s h =
      display_changed-Keeps peer layout s h
  handle_message-Keeps now peer session_id (Session.input_acknowledged n) s h =
      then-Keeps sha256 (on_session (acknowledge peer n))
        (λ _. emit_controller_diagnostics peer false)
        (on_session-Keeps sha256 (acknowledge peer n)
          (acknowledge-IsValid peer n, λ t m. acknowledge-Placed t m peer n))
        (λ _. diagnostics-Keeps sha256 peer false) s h
  handle_message-Keeps now peer session_id (Session.heartbeat nonce) s h =
      answer-Sound sha256 peer nonce s h
  handle_message-Keeps now peer session_id (Session.heartbeat_acknowledged nonce) s h =
      acknowledged-Keeps sha256 now peer nonce s h
  handle_message-Keeps now peer session_id (Session.clipboard control) s h =
      then-Keeps sha256
        (on_clipboard peer (SessionFailure.clipboard_not_negotiated peer)
          (λ c. Methods.receive_control sha256 c control))
        (λ _. report_applied peer (is_applied control))
        (call-Keeps sha256 peer (SessionFailure.clipboard_not_negotiated peer)
          (ClipboardCalls.controls control))
        (λ _. report_applied-Keeps peer (is_applied control)) s h
  handle_message-Keeps now peer session_id Session.disconnect s h =
      disconnect-Keeps peer session_id s h
  handle_message-Keeps now peer session_id (Session.focus_changed e t p) s h =
      event-Keeps sha256 (RuntimeEvent.error (Notice.unexpected_message peer)) s h
  handle_message-Keeps now peer session_id (Session.input batch) s h =
      event-Keeps sha256 (RuntimeEvent.error (Notice.unexpected_message peer)) s h

  pub network-Keeps :
      (now : ℕ) (event : NetworkEvent)
      → Keeps (Sound sha256) (handle_controller_network sha256 now event)
  unfolding handle_controller_network ClipboardCalls.step
  network-Keeps now (NetworkEvent.message peer session_id received) s h =
      if-cases (Then (Sound sha256)) (active_session s.peers peer session_id) _ _
        (λ _. handle_message-Keeps now peer session_id received s h) (λ _. h)
  network-Keeps now (NetworkEvent.disconnected peer session_id) s h =
      disconnect-Keeps peer session_id s h
  network-Keeps now (NetworkEvent.clipboard_transfer peer session_id transfer) s h =
      if-cases (Then (Sound sha256)) (active_session s.peers peer session_id) _ _
        (λ _.
          call-Keeps sha256 peer (SessionFailure.clipboard_not_negotiated peer)
            (ClipboardCalls.transfers transfer) s h)
        (λ _. h)
  network-Keeps now (NetworkEvent.clipboard_failed peer session_id) s h =
      if-cases (Then (Sound sha256)) (active_session s.peers peer session_id) _ _
        (λ _. clipboard_lost-Keeps peer s h) (λ _. h)
