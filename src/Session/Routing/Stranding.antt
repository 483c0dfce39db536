-- ===== src/Session/Routing/Stranding.antt =====
-- A change of topology that takes the focused screen away while a batch is under way.
use tevir.Prelude.{
  ◌≡◌, ◌≢◌, ap, sym, ◌∙◌, ◌++◌, return, subst, true, Option, none, some, List, [], is_some, ok, err,
  arith,
}
use tevir.Prelude.Assoc
use tevir.Prelude.State.{bind-cases, bind-ok}
use tevir.Domain.Placement.{ScreenPlacement}
use tevir.Session.Pointer.{screen_center}
use tevir.Domain.Identity.{NodeId, node_eq}
use tevir.Domain.NodeSet
use tevir.Domain.Topology.{Topology, screen}
use tevir.Session.Coalesce.{EventBuffer}
use tevir.Session.Controller.{
  ControllerSession, ControllerError, PeerDelivery, Method, Actions, flush, extend, peer_nodes,
  set_focus_position, advance_epoch_and_broadcast,
}
use tevir.Session.Routing.{reconcile_topology, adopt, adopt_and_broadcast, reconcile_focus}

flush_blocked :
    (s : ControllerSession) (d : PeerDelivery)
    → s.focus ≢ s.local_node
    → Assoc.lookup s.focus s.deliveries ≡ some d
    → d.pending ≢ []
    → flush s ≡ (s, ok [])
unfolding flush
flush_blocked s d far found busy = ground arith

flush_local :
    (s : ControllerSession)
    → s.focus ≡ s.local_node
    → s.buffer.events ≢ []
    → (flush s).1 ≡ err ControllerError.input_while_local
unfolding flush
flush_local s home full = ground arith

extend-state :
    (actions : Actions) (method : Method Actions) (s : ControllerSession)
    → (extend actions method s).0 ≡ (method s).0
unfolding extend
extend-state actions method s =
    bind-cases (λ o. o.0 ≡ (method s).0) method (λ more. return (actions ++ more)) s
      (λ t e h. sym (ap (λ o. o.0) h)) (λ t more h. sym (ap (λ o. o.0) h))

-- The parts of a session that a broadcast leaves alone.
abbrev SameInput : ControllerSession → ControllerSession → Type 0
SameInput s t = (t.focus ≡ s.focus) × (t.local_node ≡ s.local_node) × (t.buffer ≡ s.buffer)

advance-SameInput :
    (recipients : Option (List NodeId)) (s : ControllerSession)
    → SameInput s (advance_epoch_and_broadcast recipients s).0
unfolding advance_epoch_and_broadcast
advance-SameInput recipients s = ground arith

reconcile_focus-home :
    (topology : Topology) (s : ControllerSession) (l : ScreenPlacement)
    → screen topology s.local_node ≡ some l
    → screen topology s.focus ≡ none
    → reconcile_focus topology s ≡ (
      set_focus_position (screen_center l.bounds.size) (record s { focus = s.local_node }),
      ok tt,
    )
unfolding reconcile_focus
reconcile_focus-home topology s l here gone = ground arith

adopt_strands :
    (s : ControllerSession) (topology : Topology) (recipients : List NodeId) (l : ScreenPlacement)
    → screen topology s.local_node ≡ some l
    → screen topology s.focus ≡ none
    → SameInput (record s { focus = s.local_node }) (adopt_and_broadcast topology recipients [] s).0
unfolding adopt_and_broadcast adopt set_focus_position
adopt_strands s topology recipients l here gone =
    let broadcast = extend [] (advance_epoch_and_broadcast (some recipients)) in
    subst (λ o. SameInput (record s { focus = s.local_node }) o.0)
      (sym (
        bind-ok (reconcile_focus topology) (λ _ t. broadcast (adopt topology t).0) s _ tt
          (reconcile_focus-home topology s l here gone)))
      (subst (SameInput (record s { focus = s.local_node }))
        (sym (extend-state [] (advance_epoch_and_broadcast (some recipients)) _))
        (advance-SameInput (some recipients) _))

reconcile-blocked :
    (s : ControllerSession) (topology : Topology)
    → flush s ≡ (s, ok [])
    → is_some (screen topology s.local_node) ≡ true
    → reconcile_topology topology s
      ≡ adopt_and_broadcast topology
          (NodeSet.union
            (NodeSet.collect (peer_nodes s.topology s.local_node))
            (NodeSet.collect (peer_nodes topology s.local_node)))
          []
          s
unfolding reconcile_topology
reconcile-blocked s topology blocked here = ground arith

-- If a session's focused screen is missing from the new topology while its last batch is under
-- way and newer input is buffered, the change of topology takes the focus home and keeps the
-- buffered input of the node that is gone, and the next flush fails for input while the focus is
-- local.
pub reconcile_strands_input :
    (s : ControllerSession) (d : PeerDelivery) (topology : Topology) (l : ScreenPlacement)
    → s.focus ≢ s.local_node
    → Assoc.lookup s.focus s.deliveries ≡ some d
    → d.pending ≢ []
    → s.buffer.events ≢ []
    → screen topology s.local_node ≡ some l
    → screen topology s.focus ≡ none
    → let t = (reconcile_topology topology s).0 in
      (t.focus ≡ s.local_node)
      × (t.buffer ≡ s.buffer)
      × ((flush t).1 ≡ err ControllerError.input_while_local)
reconcile_strands_input s d topology l far found busy full here gone =
    let r = reconcile-blocked s topology (flush_blocked s d far found busy) (ap is_some here) in
    let a = adopt_strands s topology _ l here gone in
    rw r (
      a.0,
      a.2,
      flush_local _ (a.0 ∙ sym a.1) (λ e. full (sym (ap (λ (b : EventBuffer). b.events) a.2) ∙ e)),
    )
