-- ===== src/Session/Routing.antt =====
-- crates/session/src/controller.rs: the methods that follow the pointer, and those that the runtime
-- calls to move the focus or to change the topology.
pub mod Reconcile
pub mod Invariant
pub mod Calls
pub mod Stranding
pub mod Placed
pub mod Returning
mod Examples
use tevir.Prelude.{
  ℕ, ◌+◌, ℤ, pos, Bool, true, false, ◌&&◌, not, Option, none, some, List, [], ◌∷◌, ◌++◌, Result, ok,
  err, ◌>>=◌, ◌>>◌, return, fail, ok_or, length, any, ltb_ℤ, leb_ℤ, ◌==◌, clamp_ℤ, saturating_add,
  is_none, if◌then◌else◌,
}
use tevir.Prelude.State.{get, modify, reads}
use tevir.Prelude.Assoc
use tevir.Domain.Identity.{NodeId, node_eq}
use tevir.Domain.NodeSet
use tevir.Domain.Geometry.{Point, Size}
use tevir.Domain.Edge.{Edge}
use tevir.Domain.Input.{InputEvent, InputKind}
use tevir.Domain.Topology.{Topology, screen, transition}
use tevir.Protocol.Message.{max_input_events_per_batch}
use tevir.Session.Coalesce.{empty, can_coalesce, push, is_full}
use tevir.Session.Pointer.{
  micropixels, local_point, screen_center, extent, maximum, exit_edge, exit_offset, carried_x,
  carried_y,
}
use tevir.Session.Controller.{
  ControllerSession, ControllerError, PeerDelivery, DeliveryProgress, Method, Actions, new_delivery,
  peer_nodes, flush, extend, change_focus, set_focus_position, clamp_focus_position,
  advance_epoch_and_broadcast,
}

unfoldable pub activate : Edge → ℕ → Method Actions
activate edge offset s =
    if not (s.focus == s.local_node)
    then (s, err (ControllerError.capture_already_active s.focus))
    else elim (transition s.topology s.local_node edge offset) [
      | none ↦ (s, err (ControllerError.no_adjacent_screen edge offset))
      | some t ↦ change_focus t.target t.local_position none s
    ]

unfoldable pub inside_desktop : Size → ℤ → ℤ → Bool
inside_desktop size x y =
    leb_ℤ (pos 0) x
    && ltb_ℤ x (extent size.width)
    && leb_ℤ (pos 0) y
    && ltb_ℤ y (extent size.height)

-- The part of `pointer_destination` for a position that left the desktop by an edge.
unfoldable pub cross_edge :
    ControllerSession → Edge → Size → ℤ → ℤ → Result (Option (NodeId × Point)) ControllerError
cross_edge s edge size destination_x destination_y =
    elim (exit_offset edge size destination_x destination_y) [
      | none ↦ err ControllerError.pointer_coordinate_overflow
      | some source_offset ↦ elim (transition s.topology s.focus edge source_offset) [
        | none ↦ ok none
        | some t ↦ elim (screen s.topology t.target) [
          | none ↦ err (ControllerError.unknown_peer t.target)
          | some destination ↦
              let target_x = carried_x edge size (micropixels t.local_position.x) destination_x in
              let target_y = carried_y edge size (micropixels t.local_position.y) destination_y in
              ok (
                some (
                  t.target,
                  local_point (clamp_ℤ target_x (pos 0) (maximum destination.bounds.size.width))
                      (clamp_ℤ target_y (pos 0) (maximum destination.bounds.size.height)),
                ))
        ]
      ]
    ]

unfoldable pub pointer_destination :
    ControllerSession → ℤ → ℤ → Result (Option (NodeId × Point)) ControllerError
unfolding inside_desktop cross_edge
pointer_destination s dx_micropixels dy_micropixels = elim (screen s.topology s.focus) [
  | none ↦ err (ControllerError.unknown_peer s.focus)
  | some current ↦
      let size = current.bounds.size in
      let destination_x = saturating_add s.focus_x_micropixels dx_micropixels in
      let destination_y = saturating_add s.focus_y_micropixels dy_micropixels in
      if inside_desktop size destination_x destination_y
      then ok (some (current.node, local_point destination_x destination_y))
      else cross_edge s (exit_edge size destination_x destination_y) size destination_x
          destination_y
]

-- The end of `observe_pointer`, which keeps the position inside the focused screen.
unfoldable pub clamp_to_focus : Method (Unit {0})
clamp_to_focus s = elim (screen s.topology s.focus) [
  | none ↦ (s, err (ControllerError.unknown_peer s.focus))
  | some focused ↦ (clamp_focus_position focused.bounds.size s, ok tt)
]

unfoldable pub observe_kind : InputKind → Method (Unit {0})
unfolding clamp_to_focus
observe_kind (InputKind.pointer_relative dx_micropixels dy_micropixels) s =
    clamp_to_focus (record s {
      focus_x_micropixels = saturating_add s.focus_x_micropixels dx_micropixels;
      focus_y_micropixels = saturating_add s.focus_y_micropixels dy_micropixels;
    })
observe_kind (InputKind.pointer_absolute position) s =
    clamp_to_focus (set_focus_position position s)
observe_kind _ s = (s, ok tt)

-- The target of the first `if let` of `route_input`: another node than the focus.
unfoldable pub leaving :
    ControllerSession → InputKind → Result (Option (NodeId × Point)) ControllerError
leaving s (InputKind.pointer_relative dx_micropixels dy_micropixels) =
    elim (pointer_destination s dx_micropixels dy_micropixels) [
      | err e ↦ err e
      | ok none ↦ ok none
      | ok (some (target, position)) ↦
          if target == s.focus then ok none else ok (some (target, position))
    ]
leaving s _ = ok none

-- After the flush of a full buffer: there is room, or the event is refused.
unfoldable pub check_room : Actions → Method Actions
check_room actions s =
    if is_full s.buffer
    then (s, err (ControllerError.backpressure s.focus max_input_events_per_batch))
    else (s, ok actions)

-- The room that a full buffer needs: what the flush before the push sends.
unfoldable pub make_room : InputEvent → Method Actions
unfolding check_room
make_room event s =
    if is_full s.buffer && not (can_coalesce s.buffer event)
    then (do actions ← flush; check_room actions) s
    else (s, ok [])

-- `if self.buffer.push(event) { actions.extend(self.flush()?) }`.
unfoldable pub push_and_flush : InputEvent → Method Actions
push_and_flush event s =
    let (buffer, full) = push s.buffer event in
    if full then flush (record s { buffer = buffer }) else (record s { buffer = buffer }, ok [])

-- The end of `route_input` for an event that stays with the focus.
unfoldable pub observe_and_push : InputEvent → Actions → Method Actions
unfolding push_and_flush observe_kind
observe_and_push event actions = do observe_kind event.kind; extend actions (push_and_flush event)

unfoldable pub buffer_event : InputEvent → Method Actions
unfolding make_room observe_and_push
buffer_event event = do actions ← make_room event; observe_and_push event actions

-- The branch of `route_input` for a pointer that leaves the focused screen.
unfoldable pub flush_and_leave : NodeId → Point → Method Actions
flush_and_leave target position = do
  actions ← flush
  extend actions (change_focus target position none)

-- `route_input` by what `pointer_destination` answers.
unfoldable pub route_by :
    InputEvent → Result (Option (NodeId × Point)) ControllerError → Method Actions
unfolding buffer_event flush_and_leave
route_by event (err e) s = (s, err e)
route_by event (ok none) s = buffer_event event s
route_by event (ok (some (target, position))) s = flush_and_leave target position s

unfoldable pub route_input : InputEvent → Method Actions
unfolding leaving route_by
route_input event s =
    if s.focus == s.local_node
    then (s, err ControllerError.input_while_local)
    else route_by event (leaving s event.kind) s

unfoldable pub return_to_local : Method Actions
return_to_local s =
    if s.focus == s.local_node
    then (s, ok [])
    else let t = record s { buffer = empty } in
      elim (screen t.topology t.local_node) [
        | none ↦ (t, err (ControllerError.local_node_missing t.local_node))
        | some local_screen ↦
            change_focus t.local_node (screen_center local_screen.bounds.size) none t
      ]

-- The deliveries after a change of peers: `retain`, and `entry(node).or_default()` for each peer.
unfoldable pub add_defaults :
    List NodeId → List (NodeId × PeerDelivery) → List (NodeId × PeerDelivery)
add_defaults [] deliveries = deliveries
add_defaults (node ∷ nodes) deliveries = add_defaults nodes (
    if is_none (Assoc.lookup node deliveries)
    then Assoc.insert node new_delivery deliveries
    else deliveries)

unfoldable pub reconcile_deliveries :
    List NodeId → List (NodeId × PeerDelivery) → List (NodeId × PeerDelivery)
unfolding add_defaults
reconcile_deliveries peers deliveries =
    add_defaults peers (Assoc.retain (λ node. any (λ p. p == node) peers) deliveries)

-- The focus after a change of topology: on the local screen if its own is gone.
unfoldable pub reconcile_focus : Topology → Method (Unit {0})
reconcile_focus topology s = elim (screen topology s.focus) [
  | some focused ↦ (clamp_focus_position focused.bounds.size s, ok tt)
  | none ↦
      let t = record s { focus = s.local_node } in
      elim (screen topology t.local_node) [
        | none ↦ (t, err (ControllerError.local_node_missing t.local_node))
        | some local_screen ↦ (set_focus_position (screen_center local_screen.bounds.size) t, ok tt)
      ]
]

-- The assignments of the topology and the deliveries.
unfoldable pub adopt : Topology → Method (Unit {0})
unfolding reconcile_deliveries
adopt topology s = (
  record s {
    topology = topology;
    deliveries =
        reconcile_deliveries (NodeSet.collect (peer_nodes topology s.local_node)) s.deliveries;
  },
  ok tt,
)

-- What follows the flush of `reconcile_topology`.
unfoldable pub adopt_and_broadcast : Topology → List NodeId → Actions → Method Actions
unfolding reconcile_focus adopt
adopt_and_broadcast topology recipients actions = do
  reconcile_focus topology
  adopt topology
  extend actions (advance_epoch_and_broadcast (some recipients))

unfoldable pub reconcile_topology : Topology → Method Actions
unfolding adopt_and_broadcast
reconcile_topology topology s =
    if is_none (screen topology s.local_node)
    then (s, err (ControllerError.local_node_missing s.local_node))
    else let previous_peers = NodeSet.collect (peer_nodes s.topology s.local_node) in
      let next_peers = NodeSet.collect (peer_nodes topology s.local_node) in
      (do
        actions ← flush
        adopt_and_broadcast topology (NodeSet.union previous_peers next_peers) actions)
        s

unfoldable pub pending_batches : ControllerSession → NodeId → ℕ
pending_batches s peer = elim (Assoc.lookup peer s.deliveries) [
  | none ↦ 0
  | some delivery ↦ length delivery.pending
]

unfoldable pub delivery_progress : ControllerSession → NodeId → Option DeliveryProgress
delivery_progress s peer = elim (Assoc.lookup peer s.deliveries) [
  | none ↦ none
  | some delivery ↦ some (record {
    sent = delivery.last_sent;
    acknowledged = delivery.last_acknowledged;
    pending = length delivery.pending;
  })
]
