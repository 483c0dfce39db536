-- ===== src/Runtime/Controller/Returning.antt =====
-- crates/tevir/src/runtime.rs: the return of control to the controller, and its exception.
use tevir.Prelude.{
  ℕ, ◌+◌, ◌≤◌, ◌≡◌, refl, sym, ap, subst, ◌∙◌, Bool, true, false, Option, none, some, List, [], ◌∷◌,
  ◌++◌, Result, ok, length, not, ◌==◌, u64_max, Option-cases, inl, inr, arith,
}
use tevir.Domain.Identity.{NodeId, node_eq}
use tevir.Domain.NodeSet
use tevir.Domain.NodeSet.Counting.{count, count-collect, count-Distinct}
use tevir.Domain.Input.{InputEvent}
use tevir.Domain.Topology.{Topology, screen}
use tevir.Domain.Topology.Checks.{DistinctNodes}
use tevir.Domain.Placement.{ScreenPlacement}
use tevir.Protocol.Message.{Session}
use tevir.Session.Controller.{
  ControllerSession, ControllerAction, peer_nodes, focus_messages, set_focus_position,
}
use tevir.Session.Routing.{return_to_local}
use tevir.Session.Routing.Returning.{home, home_actions, return_to_local_lem}
use tevir.Runtime.Channel.{Sender}
use tevir.Runtime.Shortcut
use tevir.Runtime.Controller.{
  CaptureCommand, Controller, RuntimeError, RuntimeEvent, act, on_session, send_focus, send_event,
  set_pending, apply_controller_actions,
}
use tevir.Runtime.Controller.Capture.{return_control, observe_input}
use tevir.Runtime.Controller.Loop.{LoopEvent, step}
use tevir.Prelude.State.{ok-Then}
use tevir.Runtime.Controller.Sound.{Sound}
use tevir.Runtime.Controller.Sending.{
  Handed, Room, outbox, messages_to, releases, apply_controller_actions-Handed,
  apply_controller_actions_succeeds,
}

messages_to-focus :
    (peer : NodeId) (session : ControllerSession) (nodes : List NodeId)
    → length (messages_to peer (focus_messages session nodes)) ≡ count peer nodes
unfolding focus_messages
messages_to-focus peer session [] = refl
messages_to-focus peer session (n ∷ nodes) = ground (arith, messages_to-focus peer session nodes)

releases-focus :
    (session : ControllerSession) (nodes : List NodeId)
    → releases (focus_messages session nodes) ≡ []
unfolding focus_messages
releases-focus session [] = refl
releases-focus session (n ∷ nodes) = releases-focus session nodes

return_control-eq :
    (s : Controller) (session : ControllerSession) (actions : List ControllerAction)
    → return_to_local s.session ≡ (session, ok actions)
    → (apply_controller_actions actions (record s { session = session })).1 ≡ ok tt
    → return_control s ≡ (
        send_event
          (RuntimeEvent.focus_changed
            (apply_controller_actions actions (record s { session = session })).0.session.focus)
          (apply_controller_actions actions (record s { session = session })).0)
unfolding return_control act on_session send_focus send_event
return_control-eq s session actions e done = ground arith

-- Room for one more message to each connected peer and to the capture.
abbrev pub HasRoom : Controller → Type 0
HasRoom s =
    (1 ≤ s.capture.room)
    × ((peer : NodeId) (o : Sender Session) → outbox peer s ≡ some o → 1 ≤ o.room)

-- How the return of control ends.
abbrev pub Returned : Controller → Controller × Result (Unit {0}) RuntimeError → Type 0
Returned s o =
    (o.1 ≡ ok tt)
    × (o.0.session.focus ≡ s.local_node)
    × (o.0.session.focus_epoch ≡ s.session.focus_epoch + 1)
    × (o.0.capture.sent ≡ s.capture.sent ++ (CaptureCommand.release ∷ []))
    × (o.0.edge_state ≡ s.edge_state)

home-Room :
    (l : ScreenPlacement) (s : Controller)
    → DistinctNodes s.session.topology.screens
    → HasRoom s
    → Room (home_actions l s.session) (record s { session = home l s.session })
unfolding peer_nodes
home-Room l s distinct h =
    let nodes = peer_nodes s.session.topology s.session.local_node in
    let sent = focus_messages (home l s.session) (NodeSet.collect nodes) in
    (
      omega (arith, h.0, ap length (releases-focus (home l s.session) (NodeSet.collect nodes))),
      λ peer o e. omega (
        arith,
        h.1 peer o e,
        messages_to-focus peer (home l s.session) (NodeSet.collect nodes),
        count-collect peer nodes,
        count-Distinct peer (λ c. not (c.node == s.session.local_node)) s.session.topology.screens
            distinct,
      ),
    )

-- A local focus has nothing to return.
local_return :
    (s : Controller)
    → (s.session.focus == s.session.local_node) ≡ true
    → return_control s ≡ send_event (RuntimeEvent.focus_changed s.session.focus) s
unfolding return_control act on_session return_to_local apply_controller_actions send_focus
    send_event
local_return s near = ground arith

-- A delayed activation is given up without a release of the capture that it holds: while the focus is
-- local, the emergency shortcut drops what is under way and sends the capture nothing.
pub shortcut_holds_capture :
    (s : Controller) (event : InputEvent)
    → (s.session.focus == s.session.local_node) ≡ true
    → (Shortcut.observe s.edge_state.emergency_shortcut event).1 ≡ true
    → ((observe_input event s).1 ≡ ok tt)
      × ((observe_input event s).0.edge_state.pending_activation ≡ none)
      × ((observe_input event s).0.session ≡ s.session)
      × ((observe_input event s).0.capture ≡ s.capture)
unfolding observe_input set_pending send_event
shortcut_holds_capture s event near fires =
    let t : Controller = set_pending none (record s {
      edge_state = record s.edge_state {
        emergency_shortcut = (Shortcut.observe s.edge_state.emergency_shortcut event).0;
      };
    }) in
    ground (arith, local_return t near)

module _ (sha256 : List ℕ → List ℕ) where
  return_control-Returned :
      (s : Controller)
      → Sound sha256 s
      → (s.session.focus == s.local_node) ≡ false
      → s.session.focus_epoch + 1 ≤ u64_max
      → HasRoom s
      → Returned s (return_control s)
  unfolding send_event set_focus_position
  return_control-Returned s h far epoch room =
      elim (Option-cases (screen s.session.topology s.session.local_node)) [
        | inl lost ↦ absurd (ground (arith, h.valid.local_known))
        | inr (l, found) ↦
            let far_ = subst (λ n. (s.session.focus == n) ≡ false) (sym h.placed.1) far in
            let e = return_to_local_lem s.session l found far_ epoch in
            let actions = home_actions l s.session in
            let v : Controller = record s { session = home l s.session } in
            let done = apply_controller_actions_succeeds actions v (
              home-Room l s
                (subst (λ (t : Topology). DistinctNodes t.screens) (sym h.placed.0)
                  h.arranged.distinct)
                room) in
            let handed =
              ok-Then (Handed actions v) (apply_controller_actions actions v) done
                (apply_controller_actions-Handed actions v) in
            let t = (apply_controller_actions actions v).0 in
            let ends = return_control-eq s (home l s.session) actions e done in
            subst (Returned s) (sym ends) (
              refl,
              ap (λ (c : ControllerSession). c.focus) handed.2.0 ∙ h.placed.1,
              ap (λ (c : ControllerSession). c.focus_epoch) handed.2.0,
              ap (λ (c : Sender CaptureCommand). c.sent) handed.0
                  ∙ ap (λ r. s.capture.sent ++ (CaptureCommand.release ∷ r))
                      (releases-focus (home l s.session)
                        (NodeSet.collect (peer_nodes s.session.topology s.session.local_node))),
              handed.2.3,
            )
      ]

  module _ {F64 : Type 0} (offset_at : F64 → ℕ → ℕ) (within : Option F64 → ℕ → ℕ → Bool) where
    -- In a sound state with a remote focus, below the last epoch, and with room for a message in the channels
    -- to the capture and to the connected peers, the command to return control succeeds, whatever is buffered
    -- or in flight: the focus is on the local node again, under the next epoch, and the native capture is told to
    -- release, once; no activation is under way.
    pub return_local_succeeds :
        (s : Controller)
        → Sound sha256 s
        → (s.session.focus == s.local_node) ≡ false
        → s.session.focus_epoch + 1 ≤ u64_max
        → HasRoom s
        → Returned (set_pending none s) (step offset_at within sha256 LoopEvent.return_local s)
    unfolding step set_pending
    return_local_succeeds s h far epoch room =
        return_control-Returned (set_pending none s) h far epoch room
