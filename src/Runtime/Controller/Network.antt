-- ===== src/Runtime/Controller/Network.antt =====
-- crates/tevir/src/runtime.rs: connections, what arrives on them, and heartbeats. Times are microseconds.
use tevir.Prelude.{
  ℕ, min, u64_max, ◌+◌, ◌-◌, ◌%◌, ◌^◌, Bool, true, false, not, Option, none, some, List, [], ◌∷◌,
  ◌++◌, drop, filter, ok, err, ◌>>=◌, ◌>>◌, length, is_none, eqb, ◌==◌, if◌then◌else◌,
}
use tevir.Prelude.Assoc
use tevir.Domain.Identity.{NodeId, node_eq}
use tevir.Domain.Display.{DesktopLayout}
use tevir.Domain.Topology.{Topology, screen}
use tevir.Protocol.Clipboard.{ClipboardText, ClipboardControl}
use tevir.Protocol.Message.{Session}
use tevir.Session.Controller.{acknowledge, reset_peer, focus_position}
use tevir.Session.Routing.{delivery_progress}
use tevir.Session.Clipboard as ClipboardSessions
use tevir.Session.Clipboard.Methods
use tevir.Runtime.Channel.{channel, try_send}
use tevir.Runtime.Resize.{resize_topology_screen}
use tevir.Runtime.Controller.{
  topology_eq, ActivePeer, PendingHeartbeat, SessionFailure, RuntimeError, RuntimeEvent, Notice,
  Controller, Handler, send_event, on_session, send_to, active_session,
}
use tevir.Runtime.Controller.Capture.{return_control, adopt_topology}
use tevir.Runtime.Controller.Clipboards.{set_applications, on_clipboard}

abbrev pub outbound_capacity : ℕ
outbound_capacity = 128

abbrev pub clipboard_outbound_capacity : ℕ
clipboard_outbound_capacity = 8

abbrev pub max_pending_heartbeats : ℕ
max_pending_heartbeats = 4

-- What the transport says of an accepted connection.
pub record ConnectionInfo : Type 0 where
  pub peer : NodeId
  pub session_id : ℕ
  pub clipboard_text : Bool

pub data NetworkEvent : Type 0 where
  message : (peer : NodeId) (session_id : ℕ) → Session → NetworkEvent
  disconnected : (peer : NodeId) (session_id : ℕ) → NetworkEvent
  clipboard_transfer : (peer : NodeId) (session_id : ℕ) → ClipboardText → NetworkEvent
  clipboard_failed : (peer : NodeId) (session_id : ℕ) → NetworkEvent

-- The entry of a new connection.
unfoldable pub new_peer : NodeId → ConnectionInfo → ActivePeer
new_peer local_node info = record {
  session_id = info.session_id;
  outbound = channel outbound_capacity;
  clipboard =
      if info.clipboard_text
      then some (record {
        session = ClipboardSessions.new local_node info.peer;
        outbound = channel clipboard_outbound_capacity;
      })
      else none;
  pending_heartbeats = [];
  round_trip = none;
}

unfoldable pub add_peer : NodeId → ActivePeer → Handler (Unit {0})
add_peer peer active s = (record s { peers = Assoc.insert peer active s.peers }, ok tt)

unfoldable pub accept_controller_peer : ConnectionInfo → Handler (Unit {0})
unfolding send_event on_session new_peer add_peer
accept_controller_peer info s =
    if is_none (screen s.topology info.peer)
    then send_event (RuntimeEvent.error (Notice.not_in_topology info.peer)) s
    else (do
      on_session (reset_peer info.peer)
      add_peer info.peer (new_peer s.local_node info)
      send_event (RuntimeEvent.connected info.peer info.session_id))
        s

unfoldable pub remove_peer : NodeId → Controller → Controller
remove_peer peer s = record s { peers = Assoc.retain (λ other. not (other == peer)) s.peers }

unfoldable pub disconnect_controller_peer : NodeId → ℕ → Handler (Unit {0})
unfolding remove_peer send_event return_control
disconnect_controller_peer peer session_id s =
    if not (active_session s.peers peer session_id)
    then (s, ok tt)
    else (do
      send_event (RuntimeEvent.disconnected peer)
      λ t. if t.session.focus == peer then return_control t else (t, ok tt))
        (remove_peer peer s)

unfoldable pub duration_micros : ℕ → ℕ
duration_micros duration = min duration u64_max

-- `active.round_trip.map(duration_micros)`.
unfoldable pub round_trip_micros : Option ℕ → Option ℕ
unfolding duration_micros
round_trip_micros none = none
round_trip_micros (some duration) = some (duration_micros duration)

unfoldable pub emit_controller_diagnostics : NodeId → Bool → Handler (Unit {0})
unfolding send_event round_trip_micros
emit_controller_diagnostics peer test_completed s = elim (Assoc.lookup peer s.peers) [
  | none ↦ (s, ok tt)
  | some active ↦ elim (delivery_progress s.session peer) [
    | none ↦ (s, ok tt)
    | some progress ↦
        send_event
          (RuntimeEvent.connection_diagnostics peer (round_trip_micros active.round_trip)
            progress.sent 0 progress.acknowledged progress.pending test_completed)
          s
  ]
]

-- `iter().position(…)` and `remove(position)`: the first heartbeat of a nonce, and the others.
unfoldable pub take_heartbeat :
    ℕ → List PendingHeartbeat → Option (PendingHeartbeat × List PendingHeartbeat)
take_heartbeat nonce [] = none
take_heartbeat nonce (h ∷ hs) =
    if eqb h.nonce nonce then some (h, hs) else elim (take_heartbeat nonce hs) [
      | none ↦ none
      | some (found, rest) ↦ some (found, h ∷ rest)
    ]

unfoldable pub finish_heartbeat : ℕ → NodeId → ℕ → Handler (Unit {0})
unfolding take_heartbeat emit_controller_diagnostics
finish_heartbeat now peer nonce s = elim (Assoc.lookup peer s.peers) [
  | none ↦ (s, ok tt)
  | some active ↦ elim (take_heartbeat nonce active.pending_heartbeats) [
    | none ↦ (s, ok tt)
    | some (pending, rest) ↦ emit_controller_diagnostics peer pending.test (record s {
      peers =
          Assoc.insert peer
            (record active { pending_heartbeats = rest; round_trip = some (now - pending.sent_at) })
            s.peers;
    })
  ]
]

-- A message that may be lost: `let _ = try_send(message)`.
unfoldable pub offer_message : Session → ActivePeer → ActivePeer
offer_message reply active = elim (try_send reply active.outbound) [
  | none ↦ active
  | some outbound ↦ record active { outbound = outbound }
]

unfoldable pub answer_heartbeat : NodeId → ℕ → Controller → Controller
unfolding offer_message
answer_heartbeat peer nonce s = elim (Assoc.lookup peer s.peers) [
  | none ↦ s
  | some active ↦ record s {
    peers = Assoc.insert peer (offer_message (Session.heartbeat_acknowledged nonce) active) s.peers;
  }
]

-- The focus again, for a peer whose display is as it was.
unfoldable pub repeat_focus : NodeId → Handler (Unit {0})
unfolding send_to
repeat_focus peer s = elim (Assoc.lookup peer s.peers) [
  | none ↦ (s, ok tt)
  | some connection ↦
      send_to peer connection
        (Session.focus_changed s.session.focus_epoch s.session.focus (focus_position s.session)) s
]

unfoldable pub adopt_or_repeat : NodeId → Topology → Handler (Unit {0})
unfolding adopt_topology repeat_focus
adopt_or_repeat peer updated s =
    if updated == s.topology then repeat_focus peer s else adopt_topology updated s

unfoldable pub display_changed : NodeId → DesktopLayout → Handler (Unit {0})
unfolding send_event adopt_or_repeat
display_changed peer layout s = elim (resize_topology_screen s.topology peer layout) [
  | err e ↦ send_event (RuntimeEvent.error (Notice.display_rejected peer e)) s
  | ok updated ↦ elim (screen updated peer) [
    | none ↦ (s, err (RuntimeError.session (SessionFailure.unknown_peer peer)))
    | some found ↦
        (do adopt_or_repeat peer updated; send_event (RuntimeEvent.display_changed found)) s
  ]
]

abbrev pub is_applied : ClipboardControl → Bool
is_applied (ClipboardControl.applied generation) = true
is_applied (ClipboardControl.offered offer) = false

-- The end of the arm of `Clipboard`.
unfoldable pub report_applied : NodeId → Bool → Handler (Unit {0})
unfolding send_event
report_applied peer acknowledged s =
    if acknowledged
    then send_event (RuntimeEvent.clipboard_synchronized peer false) s
    else (s, ok tt)

-- The arm of `ClipboardFailed`.
unfoldable pub clipboard_lost : NodeId → Handler (Unit {0})
unfolding set_applications send_event
clipboard_lost peer s =
    let t : Controller = elim (Assoc.lookup peer s.peers) [
      | none ↦ s
      | some active ↦ record s {
        peers = Assoc.insert peer (record active { clipboard = none }) s.peers;
      }
    ] in
    let applications = t.clipboard_state.applications in
    send_event (RuntimeEvent.error (Notice.clipboard_stopped peer)) (
      set_applications
        (record applications { queued = filter (λ q. not (q.0 == peer)) applications.queued }) t)

module _ (sha256 : List ℕ → List ℕ) where
  -- The arms of `Message` for a connection that is active.
  unfoldable pub handle_message : ℕ → NodeId → ℕ → Session → Handler (Unit {0})
  unfolding display_changed on_session emit_controller_diagnostics answer_heartbeat finish_heartbeat
      on_clipboard report_applied disconnect_controller_peer send_event
  handle_message now peer session_id (Session.display_changed layout) s =
      display_changed peer layout s
  handle_message now peer session_id (Session.input_acknowledged through_sequence) s =
      (do
        completed ← on_session (acknowledge peer through_sequence)
        emit_controller_diagnostics peer false)
        s
  handle_message now peer session_id (Session.heartbeat nonce) s =
      (answer_heartbeat peer nonce s, ok tt)
  handle_message now peer session_id (Session.heartbeat_acknowledged nonce) s =
      finish_heartbeat now peer nonce s
  handle_message now peer session_id (Session.clipboard control) s =
      (do
        on_clipboard peer (SessionFailure.clipboard_not_negotiated peer)
            (λ c. Methods.receive_control sha256 c control)
        report_applied peer (is_applied control))
        s
  handle_message now peer session_id Session.disconnect s =
      disconnect_controller_peer peer session_id s
  handle_message now peer session_id (Session.focus_changed focus_epoch target entry_position) s =
      send_event (RuntimeEvent.error (Notice.unexpected_message peer)) s
  handle_message now peer session_id (Session.input batch) s =
      send_event (RuntimeEvent.error (Notice.unexpected_message peer)) s

  unfoldable pub handle_controller_network : ℕ → NetworkEvent → Handler (Unit {0})
  unfolding handle_message disconnect_controller_peer on_clipboard clipboard_lost
  handle_controller_network now (NetworkEvent.message peer session_id received) s =
      if active_session s.peers peer session_id
      then handle_message now peer session_id received s
      else (s, ok tt)
  handle_controller_network now (NetworkEvent.disconnected peer session_id) s =
      disconnect_controller_peer peer session_id s
  handle_controller_network now (NetworkEvent.clipboard_transfer peer session_id transfer) s =
      if active_session s.peers peer session_id
      then on_clipboard peer (SessionFailure.clipboard_not_negotiated peer)
          (λ c. Methods.receive_transfer sha256 c transfer) s
      else (s, ok tt)
  handle_controller_network now (NetworkEvent.clipboard_failed peer session_id) s =
      if active_session s.peers peer session_id then clipboard_lost peer s else (s, ok tt)

-- One round of `send_controller_heartbeats`.
unfoldable pub send_heartbeat : ℕ → ℕ → Bool → ActivePeer → ActivePeer
send_heartbeat now nonce test active = elim (try_send (Session.heartbeat nonce) active.outbound) [
  | none ↦ active
  | some outbound ↦
      let kept =
        if eqb (length active.pending_heartbeats) max_pending_heartbeats
        then drop 1 active.pending_heartbeats
        else active.pending_heartbeats in
      record active {
        outbound = outbound;
        pending_heartbeats = kept ++ (record { nonce = nonce; sent_at = now; test = test } ∷ []);
      }
]

unfoldable pub send_heartbeats :
    ℕ → ℕ → Bool → List (NodeId × ActivePeer) → List (NodeId × ActivePeer)
unfolding send_heartbeat
send_heartbeats now nonce test [] = []
send_heartbeats now nonce test ((peer, active) ∷ peers) =
    (peer, send_heartbeat now nonce test active) ∷ send_heartbeats now nonce test peers

unfoldable pub send_controller_heartbeats : ℕ → Bool → Controller → Controller
unfolding send_heartbeats
send_controller_heartbeats now test s =
    let nonce = (s.heartbeat_nonce + 1) % 2 ^ 64 in
    record s { heartbeat_nonce = nonce; peers = send_heartbeats now nonce test s.peers }
