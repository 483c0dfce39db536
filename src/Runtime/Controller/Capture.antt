-- ===== src/Runtime/Controller/Capture.antt =====
-- crates/tevir/src/runtime.rs: the events of the native capture, and the delayed activation. Times are
-- microseconds.
use tevir.Prelude.{
  ℕ, ◌+◌, ◌*◌, Bool, false, not, Option, none, some, List, [], ◌∷◌, ok, err, ◌>>=◌, ◌>>◌, is_some,
  ltb, eqb, ◌==◌, if◌then◌else◌,
}
use tevir.Domain.Identity.{NodeId, node_eq}
use tevir.Domain.Edge.{Edge}
use tevir.Domain.Input.{InputEvent}
use tevir.Domain.Display.{DesktopLayout}
use tevir.Domain.Topology.{Topology}
use tevir.Session.Routing.{activate, route_input, return_to_local, reconcile_topology}
use tevir.Runtime.Config.{EdgeBehavior, active_interval}
use tevir.Runtime.Edges.{activation_target}
use tevir.Runtime.Resize.{resize_topology_screen}
use tevir.Runtime.Shortcut
use tevir.Runtime.Controller.{
  topology_eq, BackendKind, DesktopGeometry, CaptureCommand, NativeFailure, SessionFailure,
  RuntimeError, RuntimeEvent, Notice, Handler, send_event, send_focus, send_capture, set_pending,
  act, has_peer,
}

-- `Activated` has a floating-point position.
pub data CaptureServiceEvent (F64 : Type 0) : Type 0 where
  ready : (backend : BackendKind) → CaptureServiceEvent F64
  activated : (edge : Edge) (edge_position : Option F64) → CaptureServiceEvent F64
  desktop_changed : DesktopGeometry → CaptureServiceEvent F64
  input : InputEvent → CaptureServiceEvent F64
  released failed stopped : CaptureServiceEvent F64

unfoldable pub activate_controller : Edge → ℕ → Handler (Unit {0})
unfolding act send_focus
activate_controller edge offset = do act (activate edge offset); send_focus

-- `return_to_local`, its actions and the event of the focus.
unfoldable pub return_control : Handler (Unit {0})
unfolding act send_focus
return_control = do act return_to_local; send_focus

-- A changed topology is given to the session, and then taken.
unfoldable pub take_topology : Topology → Handler (Unit {0})
take_topology updated s = (record s { topology = updated }, ok tt)

unfoldable pub adopt_topology : Topology → Handler (Unit {0})
unfolding act take_topology send_focus
adopt_topology updated = do act (reconcile_topology updated); take_topology updated; send_focus

unfoldable pub adopt_if_changed : Topology → Handler (Unit {0})
unfolding adopt_topology
adopt_if_changed updated s = if updated == s.topology then (s, ok tt) else adopt_topology updated s

-- The activation under way is dropped, and the capture that it holds is released.
unfoldable pub drop_pending : Handler (Unit {0})
unfolding set_pending send_capture
drop_pending s =
    if is_some s.edge_state.pending_activation
    then send_capture CaptureCommand.release (set_pending none s)
    else (s, ok tt)

unfoldable pub resize_local : DesktopLayout → Handler Topology
resize_local layout s = elim (resize_topology_screen s.topology s.local_node layout) [
  | err e ↦ (s, err (RuntimeError.session (SessionFailure.resize e)))
  | ok updated ↦ (s, ok updated)
]

unfoldable pub change_desktop : DesktopGeometry → Handler (Unit {0})
unfolding drop_pending resize_local adopt_if_changed send_event
change_desktop geometry = do
  drop_pending
  updated ← resize_local geometry.layout
  adopt_if_changed updated
  send_event (RuntimeEvent.local_desktop_changed geometry)

-- The end of the arm of `Input`, for an event that goes to a remote focus.
unfoldable pub route_event : InputEvent → Handler (Unit {0})
unfolding act send_focus
route_event event s =
    (do
      act (route_input event)
      λ t. if t.session.focus == s.session.focus then (t, ok tt) else send_focus t)
      s

unfoldable pub observe_input : InputEvent → Handler (Unit {0})
unfolding set_pending return_control route_event
observe_input event s =
    let observed = Shortcut.observe s.edge_state.emergency_shortcut event in
    let t = record s { edge_state = record s.edge_state { emergency_shortcut = observed.0 } } in
    if observed.1
    then return_control (set_pending none t)
    else if is_some t.edge_state.pending_activation
    then (t, ok tt)
    else if t.session.focus == t.local_node
    then (t, ok tt)
    else route_event event t

unfoldable pub complete_pending_activation : ℕ → Handler (Unit {0})
unfolding set_pending activate_controller send_capture
complete_pending_activation now s = elim (s.edge_state.pending_activation) [
  | none ↦ (s, ok tt)
  | some pending ↦
      if ltb now pending.ready_at
      then (s, ok tt)
      else if has_peer pending.target s
      then activate_controller pending.edge pending.offset (set_pending none s)
      else send_capture CaptureCommand.release (set_pending none s)
]

-- The arm of `Activated` once the edge leads to a target.
unfoldable pub activate_target : ℕ → Edge → NodeId → ℕ → Handler (Unit {0})
unfolding send_capture send_event activate_controller set_pending
activate_target now edge target offset s =
    if not (has_peer target s)
    then (do
      send_capture CaptureCommand.release
      send_event (RuntimeEvent.error (Notice.not_connected target)))
        s
    else if eqb s.edge_state.behavior.switch_delay_ms 0
    then activate_controller edge offset s
    else (
      set_pending
          (some (record {
            edge = edge;
            offset = offset;
            target = target;
            ready_at = now + s.edge_state.behavior.switch_delay_ms * 1000;
          }))
          s,
      ok tt,
    )

-- Positions are floating-point numbers. `offset_at` is as in Runtime.Edges, and `within p start end` says
-- whether `p.unwrap_or(0.5).clamp(0.0, 1.0)` lies from start to end percent.
module _ {F64 : Type 0} (offset_at : F64 → ℕ → ℕ) (within : Option F64 → ℕ → ℕ → Bool) where
  -- `EdgeBehavior::allows`.
  unfoldable pub allows : EdgeBehavior → Edge → Option F64 → Bool
  allows behavior edge position = elim (active_interval behavior edge) [
    | none ↦ false
    | some (start, end) ↦ within position start end
  ]

  unfoldable pub start_activation : ℕ → Edge → Option F64 → Handler (Unit {0})
  unfolding allows send_capture activate_target
  start_activation now edge edge_position s =
      if not (allows s.edge_state.behavior edge edge_position)
      then send_capture CaptureCommand.release s
      else elim (activation_target offset_at s.topology s.local_node edge edge_position) [
        | none ↦ send_capture CaptureCommand.release s
        | some (target, offset) ↦ activate_target now edge target offset s
      ]

  -- One round of `drain_capture_events`.
  unfoldable pub capture_event : ℕ → CaptureServiceEvent F64 → Handler (Unit {0})
  unfolding send_event start_activation change_desktop observe_input set_pending
  capture_event now (CaptureServiceEvent.ready backend) s =
      send_event (RuntimeEvent.native_ready backend) s
  capture_event now (CaptureServiceEvent.activated edge edge_position) s =
      start_activation now edge edge_position s
  capture_event now (CaptureServiceEvent.desktop_changed geometry) s = change_desktop geometry s
  capture_event now (CaptureServiceEvent.input event) s = observe_input event s
  capture_event now CaptureServiceEvent.released s = (set_pending none s, ok tt)
  capture_event now CaptureServiceEvent.failed s =
      (s, err (RuntimeError.native NativeFailure.capture_failed))
  capture_event now CaptureServiceEvent.stopped s =
      (s, err (RuntimeError.native NativeFailure.capture_stopped))

  -- The events that are there, each with the time at which it is taken.
  unfoldable pub drain_capture_events : List (ℕ × CaptureServiceEvent F64) → Handler (Unit {0})
  drain_capture_events [] s = (s, ok tt)
  drain_capture_events ((now, event) ∷ events) s =
      let r = capture_event now event s in
      elim (r.1) [ ok _ ↦ drain_capture_events events r.0 | err e ↦ (r.0, err e) ]
