-- ===== src/Session/Routing/Returning.antt =====
-- crates/session/src/controller.rs: `return_to_local` from a remote focus.
use tevir.Prelude.{◌+◌, ◌≤◌, ◌≡◌, false, some, ◌∷◌, ok, ◌==◌, u64_max, eq_refl, arith}
use tevir.Domain.Identity.{node_eq}
use tevir.Domain.NodeSet
use tevir.Domain.Placement.{ScreenPlacement}
use tevir.Domain.Topology.{screen}
use tevir.Session.Coalesce.{empty}
use tevir.Session.Pointer.{screen_center, clamp_local_position}
use tevir.Session.Controller.{
  ControllerSession, ControllerAction, Actions, change_focus, peer_nodes, set_focus_position,
  focus_messages,
}
use tevir.Session.Routing.{return_to_local}

-- The session with its focus back on the local screen, at its centre.
abbrev pub home : ScreenPlacement → ControllerSession → ControllerSession
home l s =
    record (set_focus_position (clamp_local_position l.bounds.size (screen_center l.bounds.size))
      (record s { buffer = empty; focus = s.local_node })) { focus_epoch = s.focus_epoch + 1 }

abbrev pub home_actions : ScreenPlacement → ControllerSession → Actions
home_actions l s =
    ControllerAction.release_capture
    ∷ focus_messages (home l s) (NodeSet.collect (peer_nodes s.topology s.local_node))

-- From a remote focus the return succeeds at once, whatever is buffered: what is buffered is dropped, the
-- capture is released, and every peer is told of the focus under the next epoch.
pub return_to_local_lem :
    (s : ControllerSession) (l : ScreenPlacement)
    → screen s.topology s.local_node ≡ some l
    → (s.focus == s.local_node) ≡ false
    → s.focus_epoch + 1 ≤ u64_max
    → return_to_local s ≡ (home l s, ok (home_actions l s))
unfolding return_to_local change_focus
return_to_local_lem s l e far room = ground (arith, eq_refl s.local_node)
