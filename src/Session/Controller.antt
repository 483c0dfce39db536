-- ===== src/Session/Controller.antt =====
-- crates/session/src/controller.rs: the controller's focus, its event buffer and the deliveries to
-- its peers. Each method is a step of a monad over the session, which keeps the changes made before
-- an error; log lines have no effect.
pub mod Flush
pub mod Delivery
pub mod Invariant
use tevir.Prelude.{
  ℕ, ◌+◌, ◌-◌, ℤ, pos, Bool, true, false, ◌&&◌, not, Option, none, some, List, [], ◌∷◌, ◌++◌, map,
  Result, ok, err, M, ◌>>=◌, ◌>>◌, return, fail, ok_or, length, filter, any, ltb, leb, ltb_ℤ, leb_ℤ,
  ◌==◌, u64_max, clamp_ℤ, saturating_add, is_none, if◌then◌else◌,
}
use tevir.Prelude.State.{get, modify}
use tevir.Prelude.Assoc
use tevir.Domain.Identity.{NodeId, node_eq}
use tevir.Domain.NodeSet
use tevir.Domain.Geometry.{Point, Size}
use tevir.Domain.Edge.{Edge}
use tevir.Domain.Input.{InputEvent, InputKind}
use tevir.Domain.Placement.{ScreenPlacement}
use tevir.Domain.Topology.{Topology, Transition, screen, transition}
use tevir.Protocol.Message.{Session, InputBatch, max_input_events_per_batch}
use tevir.Session.Coalesce.{EventBuffer, empty, can_coalesce, push, buffer_is_empty, is_full}
use tevir.Session.Pointer.{
  micropixels, local_point, screen_center, clamp_local_position, extent, maximum, exit_edge,
  exit_offset, carried_x, carried_y,
}

abbrev pub max_in_flight_batches_per_peer : ℕ
max_in_flight_batches_per_peer = 1

pub record PeerDelivery : Type 0 where
  pub last_sent : ℕ
  pub last_acknowledged : ℕ
  pub pending : List ℕ

-- `PeerDelivery::default()`.
abbrev pub new_delivery : PeerDelivery
new_delivery = record { last_sent = 0; last_acknowledged = 0; pending = [] }

pub record ControllerSession : Type 0 where
  pub topology : Topology
  pub local_node : NodeId
  pub focus : NodeId
  pub focus_epoch : ℕ
  pub focus_x_micropixels : ℤ
  pub focus_y_micropixels : ℤ
  pub buffer : EventBuffer
  pub deliveries : List (NodeId × PeerDelivery)

pub data ControllerAction : Type 0 where
  send : (peer : NodeId) (message : Session) → ControllerAction
  release_capture : ControllerAction

pub record DeliveryProgress : Type 0 where
  pub sent : ℕ
  pub acknowledged : ℕ
  pub pending : ℕ

pub data ControllerError : Type 0 where
  local_node_missing : NodeId → ControllerError
  unknown_peer : NodeId → ControllerError
  capture_already_active : NodeId → ControllerError
  no_adjacent_screen : (edge : Edge) (offset : ℕ) → ControllerError
  input_while_local : ControllerError
  backpressure : (peer : NodeId) (buffered : ℕ) → ControllerError
  sequence_exhausted : NodeId → ControllerError
  focus_epoch_exhausted : ControllerError
  acknowledgement_beyond_sent : (peer : NodeId) (acknowledged last_sent : ℕ) → ControllerError
  pointer_coordinate_overflow : ControllerError

abbrev pub Method : Type 0 → Type 0
Method A = M ControllerSession ControllerError A

abbrev pub Actions : Type 0
Actions = List ControllerAction

unfoldable pub peer_nodes : Topology → NodeId → List NodeId
peer_nodes topology local_node =
    map (λ s. s.node) (filter (λ s. not (s.node == local_node)) topology.screens)

-- The deliveries of `new`, one for each peer.
unfoldable pub default_deliveries : List NodeId → List (NodeId × PeerDelivery)
default_deliveries peers = map (λ node. (node, new_delivery)) peers

unfoldable pub new : Topology → NodeId → Result ControllerSession ControllerError
unfolding default_deliveries peer_nodes
new topology local_node = elim (screen topology local_node) [
  | none ↦ err (ControllerError.local_node_missing local_node)
  | some local_screen ↦
      let focus_position = screen_center local_screen.bounds.size in
      ok (record {
        topology = topology;
        local_node = local_node;
        focus = local_node;
        focus_epoch = 1;
        focus_x_micropixels = micropixels focus_position.x;
        focus_y_micropixels = micropixels focus_position.y;
        buffer = empty;
        deliveries = default_deliveries (peer_nodes topology local_node);
      })
]

unfoldable pub focus_position : ControllerSession → Point
focus_position s = local_point s.focus_x_micropixels s.focus_y_micropixels

unfoldable pub set_focus_position : Point → ControllerSession → ControllerSession
set_focus_position position s = record s {
  focus_x_micropixels = micropixels position.x;
  focus_y_micropixels = micropixels position.y;
}

unfoldable pub clamp_focus_position : Size → ControllerSession → ControllerSession
clamp_focus_position size s = record s {
  focus_x_micropixels = clamp_ℤ s.focus_x_micropixels (pos 0) (maximum size.width);
  focus_y_micropixels = clamp_ℤ s.focus_y_micropixels (pos 0) (maximum size.height);
}

-- The part of `flush` that sends the buffer as the next batch of a delivery.
unfoldable pub send_batch : PeerDelivery → Method Actions
send_batch delivery s =
    let sequence = delivery.last_sent + 1 in
    if ltb u64_max sequence then (s, err (ControllerError.sequence_exhausted s.focus)) else (
      record s {
        buffer = empty;
        deliveries =
            Assoc.insert s.focus
              (record delivery {
                last_sent = sequence;
                pending = delivery.pending ++ sequence ∷ [];
              })
              s.deliveries;
      },
      ok (
          ControllerAction.send s.focus (
            Session.input (record {
              focus_epoch = s.focus_epoch;
              sequence = sequence;
              events = s.buffer.events;
            }))
          ∷ []),
    )

unfoldable pub flush : Method Actions
unfolding send_batch buffer_is_empty
flush s =
    if buffer_is_empty s.buffer
    then (s, ok [])
    else if s.focus == s.local_node
    then (record s { buffer = empty }, err ControllerError.input_while_local)
    else elim (Assoc.lookup s.focus s.deliveries) [
      | none ↦ (s, err (ControllerError.unknown_peer s.focus))
      | some delivery ↦
          if leb max_in_flight_batches_per_peer (length delivery.pending)
          then (s, ok [])
          else send_batch delivery s
    ]

-- The loop of `acknowledge`.
unfoldable pub pop_through : ℕ → List ℕ → List ℕ
pop_through n [] = []
pop_through n (sequence ∷ rest) = if leb sequence n then pop_through n rest else sequence ∷ rest

unfoldable pub acknowledge : NodeId → ℕ → Method ℕ
unfolding pop_through
acknowledge peer through_sequence s = elim (Assoc.lookup peer s.deliveries) [
  | none ↦ (s, err (ControllerError.unknown_peer peer))
  | some delivery ↦
      if ltb delivery.last_sent through_sequence
      then (
        s,
        err (ControllerError.acknowledgement_beyond_sent peer through_sequence delivery.last_sent),
      )
      else if leb through_sequence delivery.last_acknowledged
      then (s, ok 0)
      else let pending = pop_through through_sequence delivery.pending in
        (
          record s {
            deliveries =
                Assoc.insert peer
                  (record delivery { last_acknowledged = through_sequence; pending = pending })
                  s.deliveries;
          },
          ok (length delivery.pending - length pending),
        )
]

unfoldable pub reset_peer : NodeId → Method (Unit {0})
reset_peer peer s = elim (Assoc.lookup peer s.deliveries) [
  | none ↦ (s, err (ControllerError.unknown_peer peer))
  | some _ ↦ (record s { deliveries = Assoc.insert peer new_delivery s.deliveries }, ok tt)
]

-- The message of the current focus to each recipient.
unfoldable pub focus_messages : ControllerSession → List NodeId → Actions
focus_messages s recipients =
    map
      (λ peer.
        ControllerAction.send peer (Session.focus_changed s.focus_epoch s.focus (focus_position s)))
      recipients

unfoldable pub advance_epoch_and_broadcast : Option (List NodeId) → Method Actions
unfolding focus_messages peer_nodes
advance_epoch_and_broadcast recipients s =
    if ltb u64_max (s.focus_epoch + 1)
    then (s, err ControllerError.focus_epoch_exhausted)
    else let t = record s { focus_epoch = s.focus_epoch + 1 } in
      let released =
        if t.focus == t.local_node then ControllerAction.release_capture ∷ [] else [] in
      let peers : List NodeId = elim recipients [
        | none ↦ NodeSet.collect (peer_nodes t.topology t.local_node)
        | some nodes ↦ nodes
      ] in
      (t, ok (released ++ focus_messages t peers))

-- The part of `change_focus` behind the flush.
unfoldable pub move_focus : NodeId → Point → Option (List NodeId) → Method Actions
unfolding set_focus_position advance_epoch_and_broadcast
move_focus target position recipients s = elim (screen s.topology target) [
  | none ↦ (s, err (ControllerError.unknown_peer target))
  | some target_screen ↦ advance_epoch_and_broadcast recipients (
      set_focus_position (clamp_local_position target_screen.bounds.size position)
        (record s { focus = target }))
]

-- `actions.extend(method?)`.
unfoldable pub extend : Actions → Method Actions → Method Actions
extend actions method = do more ← method; return (actions ++ more)

-- What follows the flush of `change_focus`: input that could not be sent keeps the focus.
unfoldable pub move_if_flushed : NodeId → Point → Option (List NodeId) → Actions → Method Actions
unfolding extend move_focus
move_if_flushed target position recipients actions s =
    if not (buffer_is_empty s.buffer)
    then (s, ok actions)
    else extend actions (move_focus target position recipients) s

unfoldable pub change_focus : NodeId → Point → Option (List NodeId) → Method Actions
unfolding flush move_if_flushed
change_focus target position recipients = do
  actions ← flush
  move_if_flushed target position recipients actions
