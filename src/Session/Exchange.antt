-- ===== src/Session/Exchange.antt =====
-- The controller and one agent together: a batch from the controller's buffer to the agent's native
-- input, and its acknowledgement back.
mod Examples
use tevir.Prelude.{
  ℕ, suc, ◌+◌, ◌≤◌, ◌<◌, ◌≡◌, ◌≢◌, refl, ap, sym, subst, ◌⊎◌, inl, inr, Bool, true, false, not,
  Option, none, some, List, [], ◌∷◌, is_some, Result, ok, err, length, All, any, map, filter, find,
  ◌==◌, Option-cases, u64_max, arith, if◌then◌else◌,
}
use tevir.Prelude.Assoc
use tevir.Domain.Identity.{NodeId, node_eq}
use tevir.Domain.NodeSet.Membership.{has}
use tevir.Domain.Placement.{ScreenPlacement}
use tevir.Domain.Topology.{Topology, screen}
use tevir.Protocol.Message.{Session, InputBatch}
use tevir.Session.Agent.{AgentSession, AgentAction, handle, confirm_applied}
use tevir.Session.Agent.Invariant.{IsValid as AgentValid, handle-IsValid, confirm_applied-IsValid}
use tevir.Session.Controller.{
  ControllerSession, ControllerError, ControllerAction, Actions, PeerDelivery, peer_nodes, flush,
  acknowledge, send_batch,
}
use tevir.Session.Controller.Flush.{
  next_batch, sent_delivery, sent_session, Flushed, nothing, dropped, unknown, blocked, exhausted,
  sent, flush-Flushed,
}
use tevir.Session.Controller.Delivery.{Delivers, DeliveryOk}
use tevir.Session.Controller.Invariant.{
  IsValid as ControllerValid, flush-IsValid, acknowledge-IsValid,
}

-- Every node with a screen, other than the local one, is a peer.
has-peer_nodes :
    (screens : List ScreenPlacement) (node k : NodeId)
    → is_some (screen (record { screens = screens }) k) ≡ true
    → k ≢ node
    → has (peer_nodes (record { screens = screens }) node) k ≡ true
unfolding screen find peer_nodes filter any
has-peer_nodes [] node k h far = ground arith
has-peer_nodes (s ∷ ss) node k h far =
    ground (arith, has-peer_nodes ss node k, node_eq.eq_iff s.node k, node_eq.eq_iff s.node node)

known_peer :
    (peers : List NodeId) (m : List (NodeId × PeerDelivery)) (k : NodeId)
    → All (λ p. is_some (Assoc.lookup p m) ≡ true) peers
    → has peers k ≡ true
    → is_some (Assoc.lookup k m) ≡ true
unfolding any
known_peer [] m k h e = ground arith
known_peer (p ∷ ps) m k h e = ground (arith, known_peer ps m k h.1, node_eq.eq_iff p k)

-- The outcomes of a flush for a focus with the delivery `d`.
abbrev pub FlushResult :
    ControllerSession → PeerDelivery → ControllerSession × Result Actions ControllerError → Type 0
FlushResult s d o =
    ((s.buffer.events ≡ []) × (o ≡ (s, ok [])))
    ⊎ ((d.pending ≡ d.last_sent ∷ []) × (o ≡ (s, ok [])))
    ⊎ ((d.last_sent ≡ u64_max) × (o ≡ (s, err (ControllerError.sequence_exhausted s.focus))))
    ⊎ ((d.pending ≡ [])
        × (o ≡ (
          sent_session s d,
          ok (ControllerAction.send s.focus (Session.input (next_batch s d)) ∷ []),
        )))

flushed_lem :
    (s : ControllerSession) (o : ControllerSession × Result Actions ControllerError)
    (d : PeerDelivery)
    → Flushed s o
    → s.focus ≢ s.local_node
    → Assoc.lookup s.focus s.deliveries ≡ some d
    → DeliveryOk d
    → FlushResult s d o
flushed_lem s o d (nothing e) far found k = inl (e, refl)
flushed_lem s o d (dropped e) far found k = absurd (far e)
flushed_lem s o d (unknown f e) far found k = absurd (ground arith)
flushed_lem s o d (blocked f d' e full) far found k = ground arith
flushed_lem s o d (exhausted d' e end) far found k = ground arith
flushed_lem s o d (sent f d' e idle room full) far found k = ground arith

-- On a valid session the flush of captured input for a remote focus is never refused for an unknown
-- peer or a local focus: the focus has a delivery, and the flush has nothing to send, or leaves all
-- as it is while the last batch is under way, or stops at the end of the sequences, or sends one
-- batch to the focus, with the current epoch, the sequence after the last one sent and all the
-- buffered events, and empties the buffer.
pub flush_lem :
    (s : ControllerSession)
    → ControllerValid s
    → s.focus ≢ s.local_node
    → (d : PeerDelivery) × (Assoc.lookup s.focus s.deliveries ≡ some d) × FlushResult s d (flush s)
flush_lem s v far = elim (Option-cases (Assoc.lookup s.focus s.deliveries)) [
  | inl none_ ↦ absurd (
      ground (
        arith,
        known_peer (peer_nodes s.topology s.local_node) s.deliveries s.focus v.delivers.known
            (has-peer_nodes s.topology.screens s.local_node s.focus v.focus_known far),
      ))
  | inr (d, found) ↦ (
    d,
    found,
    flushed_lem s (flush s) d (flush-Flushed s) far found
        (Assoc.AllValues-lookup DeliveryOk s.focus s.deliveries d v.delivers.all_ok found),
  )
]

-- A controller and the agent in focus agree: everything sent was applied, and the agent is active in
-- the controller's epoch.
pub record InStep (s : ControllerSession) (a : AgentSession) (d : PeerDelivery) : Type 0 where
  pub controller_valid : ControllerValid s
  pub agent_valid : AgentValid a
  pub remote : s.focus ≢ s.local_node
  pub delivery : Assoc.lookup s.focus s.deliveries ≡ some d
  pub window_open : d.pending ≡ []
  pub agreed : d.last_sent ≡ a.last_applied_sequence
  pub agent_open : a.closed ≡ false
  pub epoch : a.active_focus_epoch ≡ some s.focus_epoch
  pub agent_idle : a.pending_batch ≡ none

module _ (s : ControllerSession) (a : AgentSession) (d : PeerDelivery) (h : InStep s a d) where
  abbrev completed : PeerDelivery
  completed = record {
    last_sent = d.last_sent + 1;
    last_acknowledged = d.last_sent + 1;
    pending = [];
  }

  flush-sends :
      s.buffer.events ≢ []
      → d.last_sent < u64_max
      → flush s ≡ (
        sent_session s d,
        ok (ControllerAction.send s.focus (Session.input (next_batch s d)) ∷ []),
      )
  flush-sends full room = ground (
    arith,
    flushed_lem s (flush s) d (flush-Flushed s) h.remote h.delivery (
        Assoc.AllValues-lookup DeliveryOk s.focus s.deliveries d h.controller_valid.delivers.all_ok
          h.delivery),
  )

  handle-applies :
      s.buffer.events ≢ []
      → d.last_sent < u64_max
      → handle a (Session.input (next_batch s d)) ≡ (
        record a { pending_batch = some (next_batch s d) },
        ok (AgentAction.apply_input (next_batch s d) ∷ []),
      )
  unfolding handle
  handle-applies full room = ground arith

  confirm-acknowledges :
      confirm_applied (record a { pending_batch = some (next_batch s d) }) (d.last_sent + 1) ≡ (
        record a { pending_batch = none; last_applied_sequence = d.last_sent + 1 },
        ok (AgentAction.send (Session.input_acknowledged (d.last_sent + 1)) ∷ []),
      )
  unfolding confirm_applied
  confirm-acknowledges = ground arith

  acknowledge-completes : acknowledge s.focus (d.last_sent + 1) (sent_session s d) ≡ (
    record (sent_session s d) {
      deliveries =
          Assoc.insert s.focus completed (Assoc.insert s.focus (sent_delivery d) s.deliveries);
    },
    ok 1,
  )
  unfolding acknowledge
  acknowledge-completes = ground (
    arith,
    Assoc.lookup-insert s.focus s.focus (sent_delivery d) s.deliveries,
    node_eq.eq_iff s.focus s.focus,
    (Assoc.AllValues-lookup DeliveryOk s.focus s.deliveries d h.controller_valid.delivers.all_ok
        h.delivery),
  )

  abbrev acknowledged_session : ControllerSession
  acknowledged_session = record (sent_session s d) {
    deliveries =
        Assoc.insert s.focus completed (Assoc.insert s.focus (sent_delivery d) s.deliveries);
  }

  abbrev confirmed_session : AgentSession
  confirmed_session = record a { pending_batch = none; last_applied_sequence = d.last_sent + 1 }

  acknowledged-IsValid :
      s.buffer.events ≢ [] → d.last_sent < u64_max → ControllerValid acknowledged_session
  acknowledged-IsValid full room =
      subst (λ o. ControllerValid o.0) acknowledge-completes
        (acknowledge-IsValid s.focus (d.last_sent + 1) (sent_session s d) (
          subst (λ o. ControllerValid o.0) (flush-sends full room)
            (flush-IsValid s h.controller_valid)))

  confirmed-IsValid : s.buffer.events ≢ [] → d.last_sent < u64_max → AgentValid confirmed_session
  confirmed-IsValid full room =
      subst (λ o. AgentValid o.0) confirm-acknowledges
        (confirm_applied-IsValid (record a { pending_batch = some (next_batch s d) })
          (d.last_sent + 1)
          (subst (λ o. AgentValid o.0) (handle-applies full room)
            (handle-IsValid a (Session.input (next_batch s d)) h.agent_valid)))

  still-InStep :
      s.buffer.events ≢ []
      → d.last_sent < u64_max
      → InStep acknowledged_session confirmed_session completed
  still-InStep full room = record {
    controller_valid = acknowledged-IsValid full room;
    agent_valid = confirmed-IsValid full room;
    remote = h.remote;
    delivery = ground (
      arith,
      Assoc.lookup-insert s.focus s.focus completed
          (Assoc.insert s.focus (sent_delivery d) s.deliveries),
      node_eq.eq_iff s.focus s.focus,
    );
    window_open = refl;
    agreed = refl;
    agent_open = h.agent_open;
    epoch = h.epoch;
    agent_idle = refl;
  }

-- Of a controller and an agent in step, with events in the buffer and sequences left: the flush
-- sends one batch with exactly those events; the agent hands that batch to the native input; its
-- confirmation is answered by an acknowledgement of that sequence; and the controller takes it as
-- the completion of one batch. Then the buffer is empty and the two are in step again, one sequence
-- further.
pub round_trip :
    (s : ControllerSession) (a : AgentSession) (d : PeerDelivery)
    → InStep s a d
    → s.buffer.events ≢ []
    → d.last_sent < u64_max
    → let batch = next_batch s d in
      let flushed = flush s in
      let received = handle a (Session.input batch) in
      let confirmed = confirm_applied received.0 batch.sequence in
      let acknowledged = acknowledge s.focus batch.sequence flushed.0 in
      (flushed.1 ≡ ok (ControllerAction.send s.focus (Session.input batch) ∷ []))
      × (received.1 ≡ ok (AgentAction.apply_input batch ∷ []))
      × (confirmed.1 ≡ ok (AgentAction.send (Session.input_acknowledged batch.sequence) ∷ []))
      × (acknowledged.1 ≡ ok 1)
      × (acknowledged.0.buffer.events ≡ [])
      × InStep acknowledged.0 confirmed.0
          (record { last_sent = batch.sequence; last_acknowledged = batch.sequence; pending = [] })
round_trip s a d h full room =
    rw
      (
        flush-sends s a d h full room,
        handle-applies s a d h full room,
        confirm-acknowledges s a d h,
        acknowledge-completes s a d h,
      )
      (refl, refl, refl, refl, refl, still-InStep s a d h full room)
