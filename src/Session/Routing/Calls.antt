-- ===== src/Session/Routing/Calls.antt =====
-- The calls that the runtime makes on a controller session, as data, and the invariant over them.
use tevir.Prelude.{
  ℕ, ◌≡◌, refl, ap, sym, subst, true, false, Option, none, some, List, [], ◌∷◌, is_some, is_none,
  Result, ok, err, option-cases, if-cases, arith,
}
use tevir.Prelude.State.{Preserves, Ends, bind-Ends}
use tevir.Domain.Identity.{NodeId, node_eq}
use tevir.Domain.NodeSet
use tevir.Domain.Edge.{Edge}
use tevir.Domain.Input.{InputEvent}
use tevir.Domain.Topology.{Topology, screen}
use tevir.Domain.Placement.{ScreenPlacement}
use tevir.Session.Controller.Flush.{
  Flushed, nothing, dropped, unknown, blocked, exhausted, sent, flush-Flushed,
}
use tevir.Session.Controller.Invariant.{
  IsValid, Leaves, flush-IsValid, acknowledge-IsValid, reset_peer-IsValid, extend-Preserves,
  advance-IsValid,
}
use tevir.Session.Controller.{
  ControllerSession, ControllerError, Actions, peer_nodes, new, flush, acknowledge, reset_peer,
  extend, advance_epoch_and_broadcast,
}
use tevir.Session.Routing.Reconcile.{default-Delivers}
use tevir.Session.Routing.Invariant.{
  Adoptable, Leaves-Ends, Ends-Leaves, activate-IsValid, route_input-IsValid,
  return_to_local-IsValid, reconcile_focus-Ends, adopt-IsValid,
}
use tevir.Session.Routing.{
  activate, route_input, return_to_local, reconcile_focus, adopt, adopt_and_broadcast,
  reconcile_topology,
}

Flushed-local_node :
    {s : ControllerSession} {o : ControllerSession × Result Actions ControllerError}
    → Flushed s o
    → o.0.local_node ≡ s.local_node
Flushed-local_node (nothing e) = refl
Flushed-local_node (dropped e) = refl
Flushed-local_node (unknown far e) = refl
Flushed-local_node (blocked far d e k) = refl
Flushed-local_node (exhausted d e k) = refl
Flushed-local_node (sent far d e idle room full) = refl

-- A valid session whose node is still there in a topology to come.
abbrev Staying : Topology → ControllerSession → Type 0
Staying topology s = IsValid s × (is_some (screen topology s.local_node) ≡ true)

Staying-Ends :
    (topology : Topology) (o : ControllerSession × Result Actions ControllerError)
    → Staying topology o.0
    → Ends IsValid (λ _. Staying topology) o
Staying-Ends topology (t, ok a) h = h
Staying-Ends topology (t, err e) h = h.0

adopt_and_broadcast-Ends :
    (topology : Topology) (recipients : List NodeId) (actions : Actions) (s : ControllerSession)
    → Staying topology s
    → Ends IsValid (λ _. IsValid) (adopt_and_broadcast topology recipients actions s)
unfolding adopt_and_broadcast adopt
adopt_and_broadcast-Ends topology recipients actions s h =
    bind-Ends IsValid (λ _. Adoptable topology) (λ _. IsValid) (reconcile_focus topology)
      (λ _ t. extend actions (advance_epoch_and_broadcast (some recipients)) (adopt topology t).0) s
      (reconcile_focus-Ends topology s h.1 h.0)
      (λ _ t r. Leaves-Ends _ (
        extend-Preserves IsValid actions (advance_epoch_and_broadcast (some recipients))
          (advance-IsValid (some recipients)) _ (adopt-IsValid topology t r)))

known_some : (o : Option ScreenPlacement) → is_none o ≡ false → is_some o ≡ true
known_some none h = ground arith
known_some (some s) h = refl

pub reconcile_topology-IsValid :
    (topology : Topology) → Preserves IsValid (reconcile_topology topology)
unfolding reconcile_topology
reconcile_topology-IsValid topology s v =
    if-cases Leaves (is_none (screen topology s.local_node)) _ _ (λ _. v)
      λ here. Ends-Leaves _ (
        bind-Ends IsValid (λ _. Staying topology) (λ _. IsValid) flush
          (adopt_and_broadcast topology (
            NodeSet.union (NodeSet.collect (peer_nodes s.topology s.local_node))
              (NodeSet.collect (peer_nodes topology s.local_node))))
          s
          (Staying-Ends topology (flush s) (
            flush-IsValid s v,
            subst (λ n. is_some (screen topology n) ≡ true)
                (sym (Flushed-local_node (flush-Flushed s)))
                (known_some (screen topology s.local_node) here),
          ))
          (adopt_and_broadcast-Ends topology _))

-- How the opening of a session ends.
abbrev pub Opens : Topology → NodeId → Result ControllerSession ControllerError → Type 0
Opens topology node (ok s) =
    IsValid s × (is_some (screen topology node) ≡ true) × (s.focus ≡ node) × (s.local_node ≡ node)
Opens topology node (err e) =
    (screen topology node ≡ none) × (e ≡ ControllerError.local_node_missing node)

-- Opening a session on a topology succeeds exactly if the local node has a screen there, with a valid
-- session whose focus is on that node, and fails otherwise for the missing node.
pub new-Opens : (topology : Topology) (node : NodeId) → Opens topology node (new topology node)
unfolding new
new-Opens topology node =
    option-cases (Opens topology node) (screen topology node) _ _ (λ e. (e, refl))
      λ found e.
        let here : is_some (screen topology node) ≡ true = ap is_some e in
        (
          record {
            delivers = default-Delivers (peer_nodes topology node);
            buffer_bounded = omega arith;
            epoch_starts = omega arith;
            epoch_fits = omega arith;
            local_known = here;
            focus_known = here;
          },
          here,
          refl,
          refl,
        )

pub data Call : Type 0 where
  activates : Edge → (offset : ℕ) → Call
  routes : InputEvent → Call
  flushes : Call
  acknowledges : (peer : NodeId) (through_sequence : ℕ) → Call
  resets : (peer : NodeId) → Call
  returns : Call
  reconciles : Topology → Call

unfoldable pub after : ControllerSession → Call → ControllerSession
after s (activates edge offset) = (activate edge offset s).0
after s (routes event) = (route_input event s).0
after s flushes = (flush s).0
after s (acknowledges peer n) = (acknowledge peer n s).0
after s (resets peer) = (reset_peer peer s).0
after s returns = (return_to_local s).0
after s (reconciles topology) = (reconcile_topology topology s).0

-- Every call, with a failing call too, keeps the invariant: at most one batch under way to each
-- peer, and only its last one, with everything older acknowledged; a delivery for every other node
-- of the topology; a buffer within its bound; an epoch in its range; and the focus and the local
-- node on screens of the topology.
pub after-IsValid : (s : ControllerSession) (c : Call) → IsValid s → IsValid (after s c)
unfolding after
after-IsValid s (activates edge offset) v = activate-IsValid edge offset s v
after-IsValid s (routes event) v = route_input-IsValid event s v
after-IsValid s flushes v = flush-IsValid s v
after-IsValid s (acknowledges peer n) v = acknowledge-IsValid peer n s v
after-IsValid s (resets peer) v = reset_peer-IsValid peer s v
after-IsValid s returns v = return_to_local-IsValid s v
after-IsValid s (reconciles topology) v = reconcile_topology-IsValid topology s v

unfoldable pub run : ControllerSession → List Call → ControllerSession
run s [] = s
run s (c ∷ cs) = run (after s c) cs

run-IsValid : (s : ControllerSession) (cs : List Call) → IsValid s → IsValid (run s cs)
unfolding run
run-IsValid s [] v = v
run-IsValid s (c ∷ cs) v = run-IsValid (after s c) cs (after-IsValid s c v)

-- Whatever calls follow the successful opening of a session on a topology, in whatever order and with
-- whatever failures, the session stays valid: at most one batch under way to each peer, a delivery for
-- every other node of the topology, a buffer within its bound, an epoch in its range, and the focus and
-- the local node on screens of the topology.
pub opened-IsValid :
    (topology : Topology) (node : NodeId) (s : ControllerSession) (cs : List Call)
    → new topology node ≡ ok s
    → IsValid (run s cs)
opened-IsValid topology node s cs e =
    run-IsValid s cs (subst (Opens topology node) e (new-Opens topology node)).0
