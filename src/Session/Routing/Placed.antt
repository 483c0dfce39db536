-- ===== src/Session/Routing/Placed.antt =====
-- crates/session/src/controller.rs: which of the methods change the topology of the session, and that none
-- changes its local node.
use tevir.Prelude.{
  ℕ, ◌≡◌, refl, Option, none, some, List, Result, ok, err, if-cases, option-cases, arith, ◌==◌, not,
  ◌&&◌, is_none,
}
use tevir.Prelude.State.{Preserves, bind-Preserves, Ends, bind-Ends}
use tevir.Domain.Identity.{NodeId, node_eq}
use tevir.Domain.NodeSet
use tevir.Domain.Geometry.{Point}
use tevir.Domain.Edge.{Edge}
use tevir.Domain.Input.{InputEvent, InputKind}
use tevir.Domain.Topology.{Topology, screen, transition}
use tevir.Session.Coalesce.{is_full, can_coalesce, push, buffer_is_empty}
use tevir.Session.Controller.Invariant.{extend-Preserves}
use tevir.Session.Controller.{
  ControllerSession, ControllerError, Method, Actions, new, flush, acknowledge, reset_peer, extend,
  move_focus, move_if_flushed, change_focus, advance_epoch_and_broadcast, set_focus_position,
  clamp_focus_position, peer_nodes,
}
use tevir.Session.Routing.{
  activate, leaving, clamp_to_focus, observe_kind, check_room, make_room, push_and_flush,
  observe_and_push, buffer_event, flush_and_leave, route_by, route_input, return_to_local,
  reconcile_focus, adopt, adopt_and_broadcast, reconcile_topology,
}

-- A session of a node on a topology.
abbrev pub Placed : Topology → NodeId → ControllerSession → Type 0
Placed topology node s = (s.topology ≡ topology) × (s.local_node ≡ node)

module _ (topology : Topology) (node : NodeId) where
  pub new-Placed : (s : ControllerSession) → new topology node ≡ ok s → Placed topology node s
  unfolding new
  new-Placed s e = ground arith

  abbrev Stays : {A : Type 0} → Method A → Type 0
  Stays m = Preserves (Placed topology node) m

  abbrev Rests : ControllerSession × Result Actions ControllerError → Type 0
  Rests o = Placed topology node o.0

  pub flush-Placed : Stays flush
  unfolding flush
  flush-Placed s p = ground arith

  pub acknowledge-Placed : (peer : NodeId) (n : ℕ) → Stays (acknowledge peer n)
  unfolding acknowledge
  acknowledge-Placed peer n s p = ground arith

  pub reset_peer-Placed : (peer : NodeId) → Stays (reset_peer peer)
  unfolding reset_peer
  reset_peer-Placed peer s p = ground arith

  advance-Placed :
      (recipients : Option (List NodeId)) → Stays (advance_epoch_and_broadcast recipients)
  unfolding advance_epoch_and_broadcast
  advance-Placed recipients s p = ground arith

  move_focus-Placed :
      (target : NodeId) (position : Point) (recipients : Option (List NodeId))
      → Stays (move_focus target position recipients)
  unfolding move_focus set_focus_position
  move_focus-Placed target position recipients s p =
      option-cases Rests (screen s.topology target) _ _ (λ _. p)
        (λ found _. advance-Placed recipients _ p)

  move_if_flushed-Placed :
      (target : NodeId) (position : Point) (recipients : Option (List NodeId)) (actions : Actions)
      → Stays (move_if_flushed target position recipients actions)
  unfolding move_if_flushed
  move_if_flushed-Placed target position recipients actions s p =
      if-cases Rests (not (buffer_is_empty s.buffer)) _ _ (λ _. p)
        (λ _.
          extend-Preserves (Placed topology node) actions (move_focus target position recipients)
            (move_focus-Placed target position recipients) s p)

  change_focus-Placed :
      (target : NodeId) (position : Point) (recipients : Option (List NodeId))
      → Stays (change_focus target position recipients)
  unfolding change_focus
  change_focus-Placed target position recipients =
      bind-Preserves (Placed topology node) flush (move_if_flushed target position recipients)
        flush-Placed (move_if_flushed-Placed target position recipients)

  pub activate-Placed : (edge : Edge) (offset : ℕ) → Stays (activate edge offset)
  unfolding activate
  activate-Placed edge offset s p =
      if-cases Rests (not (s.focus == s.local_node)) _ _ (λ _. p)
        λ _.
          option-cases Rests (transition s.topology s.local_node edge offset) _ _ (λ _. p)
            (λ t _. change_focus-Placed t.target t.local_position none s p)

  pub return_to_local-Placed : Stays return_to_local
  unfolding return_to_local
  return_to_local-Placed s p =
      if-cases Rests (s.focus == s.local_node) _ _ (λ _. p)
        λ _.
          option-cases Rests (screen s.topology s.local_node) _ _ (λ _. p)
            (λ l _. change_focus-Placed s.local_node _ none _ p)

  observe_kind-Placed : (kind : InputKind) → Stays (observe_kind kind)
  unfolding observe_kind clamp_to_focus set_focus_position clamp_focus_position
  observe_kind-Placed kind s p = ground arith

  push_and_flush-Placed : (event : InputEvent) → Stays (push_and_flush event)
  unfolding push_and_flush
  push_and_flush-Placed event s p =
      if-cases Rests ((push s.buffer event).1) _ _ (λ _. flush-Placed _ p) (λ _. p)

  make_room-Placed : (event : InputEvent) → Stays (make_room event)
  unfolding make_room check_room
  make_room-Placed event s p =
      if-cases Rests (is_full s.buffer && not (can_coalesce s.buffer event)) _ _
        (λ _.
          bind-Preserves (Placed topology node) flush check_room flush-Placed
            (λ actions t q. ground arith) s p)
        (λ _. p)

  buffer_event-Placed : (event : InputEvent) → Stays (buffer_event event)
  unfolding buffer_event observe_and_push
  buffer_event-Placed event =
      bind-Preserves (Placed topology node) (make_room event) (observe_and_push event)
        (make_room-Placed event)
        λ actions.
          bind-Preserves (Placed topology node) (observe_kind event.kind)
            (λ _. extend actions (push_and_flush event)) (observe_kind-Placed event.kind)
            (λ _.
              extend-Preserves (Placed topology node) actions (push_and_flush event)
                (push_and_flush-Placed event))

  flush_and_leave-Placed :
      (target : NodeId) (position : Point) → Stays (flush_and_leave target position)
  unfolding flush_and_leave
  flush_and_leave-Placed target position =
      bind-Preserves (Placed topology node) flush
        (λ actions. extend actions (change_focus target position none)) flush-Placed
        λ actions.
          extend-Preserves (Placed topology node) actions (change_focus target position none)
            (change_focus-Placed target position none)

  route_by-Placed :
      (event : InputEvent) (r : Result (Option (NodeId × Point)) ControllerError)
      → Stays (route_by event r)
  unfolding route_by
  route_by-Placed event (err e) s p = p
  route_by-Placed event (ok none) s p = buffer_event-Placed event s p
  route_by-Placed event (ok (some (target, position))) s p =
      flush_and_leave-Placed target position s p

  pub route_input-Placed : (event : InputEvent) → Stays (route_input event)
  unfolding route_input
  route_input-Placed event s p =
      if-cases Rests (s.focus == s.local_node) _ (route_by event (leaving s event.kind) s) (λ _. p)
        (λ _. route_by-Placed event (leaving s event.kind) s p)

  -- A node on whatever topology.
  abbrev Named : ControllerSession → Type 0
  Named s = s.local_node ≡ node

  reconcile_focus-Named : (t : Topology) → Preserves Named (reconcile_focus t)
  unfolding reconcile_focus set_focus_position clamp_focus_position
  reconcile_focus-Named t s p = ground arith

  flush-Named : Preserves Named flush
  unfolding flush
  flush-Named s p = ground arith

  Named-Ends :
      {A : Type 0} (o : ControllerSession × Result A ControllerError)
      → Named o.0
      → Ends Named (λ _. Named) o
  Named-Ends (t, ok a) h = h
  Named-Ends (t, err e) h = h

  Placed-Ends :
      (o : ControllerSession × Result Actions ControllerError)
      → Rests o
      → Ends Named (λ _. Placed topology node) o
  Placed-Ends (t, ok a) h = h
  Placed-Ends (t, err e) h = h.1

  adopt_and_broadcast-Placed :
      (recipients : List NodeId) (actions : Actions) (s : ControllerSession)
      → Named s
      → Ends Named (λ _. Placed topology node) (adopt_and_broadcast topology recipients actions s)
  unfolding adopt_and_broadcast adopt
  adopt_and_broadcast-Placed recipients actions s p =
      bind-Ends Named (λ _. Named) (λ _. Placed topology node) (reconcile_focus topology)
        (λ _ t. extend actions (advance_epoch_and_broadcast (some recipients)) (adopt topology t).0)
        s (Named-Ends (reconcile_focus topology s) (reconcile_focus-Named topology s p))
        (λ _ t q.
          let send = advance_epoch_and_broadcast (some recipients) in
          let u = (adopt topology t).0 in
          Placed-Ends (extend actions send u) (
            extend-Preserves (Placed topology node) actions send (advance-Placed (some recipients))
              u (refl, q)))

  -- A changed topology is the session's if the change succeeds.
  pub reconcile_topology-Placed :
      (s : ControllerSession)
      → Named s
      → Ends Named (λ _. Placed topology node) (reconcile_topology topology s)
  unfolding reconcile_topology
  reconcile_topology-Placed s p =
      if-cases (Ends Named (λ _. Placed topology node)) (is_none (screen topology s.local_node)) _ _
        (λ _. p)
        λ _.
          bind-Ends Named (λ _. Named) (λ _. Placed topology node) flush
            (adopt_and_broadcast topology (
              NodeSet.union (NodeSet.collect (peer_nodes s.topology s.local_node))
                (NodeSet.collect (peer_nodes topology s.local_node))))
            s (Named-Ends (flush s) (flush-Named s p)) (adopt_and_broadcast-Placed _)
