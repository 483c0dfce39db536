-- ===== src/Runtime/Controller/Sound/Capture.antt =====
-- crates/tevir/src/runtime.rs: the handlers of the native capture keep the state of the loop sound.
use tevir.Prelude.State.{Ends, bind-Ends, Then, bind-Then}
use tevir.Prelude.{
  ℕ, ◌≡◌, ◌≢◌, refl, sym, ap, subst, Bool, true, not, Option, List, [], ◌∷◌, Result, ok, err, ◌>>=◌,
  ◌>>◌, length, is_some, ltb, eqb, ◌==◌, if◌then◌else◌, Bool-cases, inl, inr, option-cases,
  if-cases, result-cases, arith,
}
use tevir.Domain.Identity.{NodeId, node_eq}
use tevir.Domain.Edge.{Edge}
use tevir.Domain.Input.{InputEvent}
use tevir.Domain.Display.{DesktopLayout}
use tevir.Domain.Topology.{Topology, screen}
use tevir.Domain.Topology.Accepted.{IsArrangement}
use tevir.Session.Controller.{ControllerSession, ControllerAction, ControllerError}
use tevir.Session.Controller.Invariant.{IsValid}
use tevir.Session.Routing.{activate, route_input, return_to_local, reconcile_topology}
use tevir.Session.Routing.Invariant.{activate-IsValid, route_input-IsValid, return_to_local-IsValid}
use tevir.Session.Routing.Calls.{reconcile_topology-IsValid}
use tevir.Session.Routing.Placed.{
  Placed, activate-Placed, route_input-Placed, return_to_local-Placed, reconcile_topology-Placed,
}
use tevir.Runtime.Edges.{activation_target}
use tevir.Runtime.Resize.{resize_topology_screen}
use tevir.Runtime.Resize.Kept.{resize_lem}
use tevir.Runtime.Shortcut
use tevir.Runtime.Controller.{
  topology_eq, ActivePeer, CaptureCommand, Controller, DesktopGeometry, Notice, RuntimeEvent,
  send_event, send_focus, send_capture, act, has_peer, set_pending,
}
use tevir.Runtime.Controller.Capture.{
  CaptureServiceEvent, activate_controller, return_control, take_topology, adopt_topology,
  adopt_if_changed, drop_pending, resize_local, change_desktop, route_event, observe_input,
  complete_pending_activation, activate_target, allows, start_activation, capture_event,
  drain_capture_events,
}
use tevir.Runtime.Controller.Sound.{
  Keeps, Known, Sound, Between, EndsLocated, act-Between, act-Keeps, then-Keeps, capture-Keeps,
  event-Keeps, focus-Keeps,
}

-- A name that differs from a given one.
another : NodeId → NodeId
another node = record { value = 0 ∷ node.value }

another-ne : (node : NodeId) → another node ≢ node
unfolding another
another-ne node e = absurd (omega (arith, ap (λ (n : NodeId). length n.value) e))

-- A resized desktop leaves the nodes of the topology in it.
pub resize-Known :
    (t after : Topology) (node : NodeId) (layout : DesktopLayout)
    (peers : List (NodeId × ActivePeer))
    → IsArrangement t.screens
    → resize_topology_screen t node layout ≡ ok after
    → Known t peers
    → IsArrangement after.screens × Known after peers
resize-Known t after node layout peers a e known =
    let (arranged, resized, _) =
      resize_lem t after node (another node) layout a (another-ne node) e in
    (
      arranged,
      λ peer there. elim (Bool-cases (peer == node)) [
        | inl same ↦
            subst (λ n. is_some (screen after n) ≡ true) (sym ((node_eq.eq_iff peer node).0 same))
              (ap is_some resized.found)
        | inr other ↦
            let apart : peer ≢ node = λ s. cc ((node_eq.eq_iff peer node).1 s) in
            let kept = (resize_lem t after node peer layout a apart e).2 in
            subst (λ o. is_some o ≡ true) (sym kept) (known peer there)
      ],
    )

pub reconcile-EndsLocated :
    (next : Topology) (node : NodeId) (session : ControllerSession)
    → IsValid session
    → session.local_node ≡ node
    → EndsLocated next node (reconcile_topology next session)
reconcile-EndsLocated next node session v e =
    both (reconcile_topology next session) (reconcile_topology-IsValid next session v)
      (reconcile_topology-Placed next node session e)
  where
    both :
        (o : ControllerSession × Result (List ControllerAction) ControllerError)
        → IsValid o.0
        → Ends (λ s. s.local_node ≡ node) (λ _. Placed next node) o
        → EndsLocated next node o
    both (t, ok b) w h = (w, h)
    both (t, err x) w h = tt

module _ (sha256 : List ℕ → List ℕ) where
  activate_controller-Keeps :
      (edge : Edge) (offset : ℕ) → Keeps (Sound sha256) (activate_controller edge offset)
  unfolding activate_controller
  activate_controller-Keeps edge offset =
      then-Keeps sha256 (act (activate edge offset)) (λ _. send_focus)
        (act-Keeps sha256 (activate edge offset)
          (activate-IsValid edge offset, λ t n. activate-Placed t n edge offset))
        (λ _. focus-Keeps sha256)

  pub return_control-Keeps : Keeps (Sound sha256) return_control
  unfolding return_control
  return_control-Keeps =
      then-Keeps sha256 (act return_to_local) (λ _. send_focus)
        (act-Keeps sha256 return_to_local (return_to_local-IsValid, return_to_local-Placed))
        (λ _. focus-Keeps sha256)

  pub adopt_topology-Keeps :
      (updated : Topology) (s : Controller)
      → IsArrangement updated.screens
      → Known updated s.peers
      → Sound sha256 s
      → Then (Sound sha256) (adopt_topology updated s)
  unfolding adopt_topology take_topology
  adopt_topology-Keeps updated s a known h =
      let old = s.topology in
      bind-Then (Between sha256 updated updated old) (Sound sha256)
        (act (reconcile_topology updated)) (λ _. take_topology updated >> send_focus) s
        (act-Between sha256 old updated updated old (reconcile_topology updated) s a
          (reconcile-EndsLocated updated s.local_node s.session h.valid (h.placed.1))
          (
            record {
              valid = h.valid;
              placed = h.placed;
              arranged = h.arranged;
              connected = known;
              held = h.held;
            },
            refl,
          ))
        (λ _ t k. focus-Keeps sha256 (record t { topology = updated }) k.0)

  pub adopt_if_changed-Keeps :
      (updated : Topology) (s : Controller)
      → IsArrangement updated.screens
      → Known updated s.peers
      → Sound sha256 s
      → Then (Sound sha256) (adopt_if_changed updated s)
  unfolding adopt_if_changed
  adopt_if_changed-Keeps updated s a known h =
      if-cases (Then (Sound sha256)) (updated == s.topology) _ _ (λ _. h)
        (λ _. adopt_topology-Keeps updated s a known h)

  drop_pending-Keeps : Keeps (Sound sha256) drop_pending
  unfolding drop_pending set_pending
  drop_pending-Keeps s h =
      if-cases (Then (Sound sha256)) (is_some s.edge_state.pending_activation) _ _
        (λ _. capture-Keeps sha256 CaptureCommand.release _ h) (λ _. h)

  -- A topology that may be taken.
  abbrev Fits : Topology → Controller → Type 0
  Fits updated s = Sound sha256 s × IsArrangement updated.screens × Known updated s.peers

  resize_local-Fits :
      (layout : DesktopLayout) (s : Controller)
      → Sound sha256 s
      → Ends (λ _. Unit {0}) Fits (resize_local layout s)
  unfolding resize_local
  resize_local-Fits layout s h =
      result-cases (Ends (λ _. Unit {0}) Fits)
        (resize_topology_screen s.topology s.local_node layout) _ _
        (λ updated e.
          let (a, known) =
            resize-Known s.topology updated s.local_node layout s.peers h.arranged e h.connected in
          (h, a, known))
        (λ _ _. tt)

  change_desktop-Keeps :
      (geometry : DesktopGeometry) → Keeps (Sound sha256) (change_desktop geometry)
  unfolding change_desktop
  change_desktop-Keeps geometry =
      then-Keeps sha256 drop_pending
        (λ _. resize_local geometry.layout >>= λ updated.
          adopt_if_changed updated >> send_event (RuntimeEvent.local_desktop_changed geometry))
        drop_pending-Keeps
        λ _ t k.
          bind-Ends (λ _. Unit {0}) Fits (λ _. Sound sha256) (resize_local geometry.layout)
            (λ updated.
              adopt_if_changed updated >> send_event (RuntimeEvent.local_desktop_changed geometry))
            t (resize_local-Fits geometry.layout t k)
            λ updated u f.
              bind-Then (Sound sha256) (Sound sha256) (adopt_if_changed updated)
                (λ _. send_event (RuntimeEvent.local_desktop_changed geometry)) u
                (adopt_if_changed-Keeps updated u f.1 f.2 f.0)
                (λ _. event-Keeps sha256 (RuntimeEvent.local_desktop_changed geometry))

  route_event-Keeps : (event : InputEvent) → Keeps (Sound sha256) (route_event event)
  unfolding route_event
  route_event-Keeps event s h =
      bind-Then (Sound sha256) (Sound sha256) (act (route_input event))
        (λ _ t. if t.session.focus == s.session.focus then (t, ok tt) else send_focus t) s
        (act-Keeps sha256 (route_input event)
          (route_input-IsValid event, λ t n. route_input-Placed t n event) s h)
        (λ _ t k.
          if-cases (Then (Sound sha256)) (t.session.focus == s.session.focus) _ _ (λ _. k)
            (λ _. focus-Keeps sha256 t k))

  observe_input-Keeps : (event : InputEvent) → Keeps (Sound sha256) (observe_input event)
  unfolding observe_input set_pending
  observe_input-Keeps event s h =
      let observed = Shortcut.observe s.edge_state.emergency_shortcut event in
      if-cases (Then (Sound sha256)) (observed.1) _ _ (λ _. return_control-Keeps _ h)
        λ _.
          if-cases (Then (Sound sha256)) (is_some s.edge_state.pending_activation) _ _ (λ _. h)
            λ _.
              if-cases (Then (Sound sha256)) (s.session.focus == s.local_node) _ _ (λ _. h)
                (λ _. route_event-Keeps event _ h)

  pub complete-Keeps : (now : ℕ) → Keeps (Sound sha256) (complete_pending_activation now)
  unfolding complete_pending_activation set_pending
  complete-Keeps now s h =
      option-cases (Then (Sound sha256)) (s.edge_state.pending_activation) _ _ (λ _. h)
        λ pending _.
          if-cases (Then (Sound sha256)) (ltb now pending.ready_at) _ _ (λ _. h)
            λ _.
              if-cases (Then (Sound sha256)) (has_peer pending.target s) _ _
                (λ _. activate_controller-Keeps pending.edge pending.offset _ h)
                (λ _. capture-Keeps sha256 CaptureCommand.release _ h)

  refuse-Keeps :
      (event : RuntimeEvent)
      → Keeps (Sound sha256) (send_capture CaptureCommand.release >> send_event event)
  refuse-Keeps event =
      then-Keeps sha256 (send_capture CaptureCommand.release) (λ _. send_event event)
        (capture-Keeps sha256 CaptureCommand.release) (λ _. event-Keeps sha256 event)

  activate_target-Keeps :
      (now : ℕ) (edge : Edge) (target : NodeId) (offset : ℕ)
      → Keeps (Sound sha256) (activate_target now edge target offset)
  unfolding activate_target set_pending
  activate_target-Keeps now edge target offset s h =
      if-cases (Then (Sound sha256)) (not (has_peer target s)) _ _
        (λ _. refuse-Keeps (RuntimeEvent.error (Notice.not_connected target)) s h)
        λ _.
          if-cases (Then (Sound sha256)) (eqb s.edge_state.behavior.switch_delay_ms 0) _ _
            (λ _. activate_controller-Keeps edge offset s h) (λ _. h)

  module _ {F64 : Type 0} (offset_at : F64 → ℕ → ℕ) (within : Option F64 → ℕ → ℕ → Bool) where
    start_activation-Keeps :
        (now : ℕ) (edge : Edge) (position : Option F64)
        → Keeps (Sound sha256) (start_activation offset_at within now edge position)
    unfolding start_activation
    start_activation-Keeps now edge position s h =
        if-cases (Then (Sound sha256))
          (not (allows offset_at within s.edge_state.behavior edge position)) _ _
          (λ _. capture-Keeps sha256 CaptureCommand.release s h)
          λ _.
            option-cases (Then (Sound sha256))
              (activation_target offset_at s.topology s.local_node edge position) _ _
              (λ _. capture-Keeps sha256 CaptureCommand.release s h)
              (λ t _. activate_target-Keeps now edge t.0 t.1 s h)

    capture_event-Keeps :
        (now : ℕ) (event : CaptureServiceEvent F64)
        → Keeps (Sound sha256) (capture_event offset_at within now event)
    unfolding capture_event set_pending
    capture_event-Keeps now (CaptureServiceEvent.ready backend) s h =
        event-Keeps sha256 (RuntimeEvent.native_ready backend) s h
    capture_event-Keeps now (CaptureServiceEvent.activated edge position) s h =
        start_activation-Keeps now edge position s h
    capture_event-Keeps now (CaptureServiceEvent.desktop_changed geometry) s h =
        change_desktop-Keeps geometry s h
    capture_event-Keeps now (CaptureServiceEvent.input event) s h = observe_input-Keeps event s h
    capture_event-Keeps now CaptureServiceEvent.released s h = h
    capture_event-Keeps now CaptureServiceEvent.failed s h = tt
    capture_event-Keeps now CaptureServiceEvent.stopped s h = tt

    pub drain_capture-Keeps :
        (events : List (ℕ × CaptureServiceEvent F64))
        → Keeps (Sound sha256) (drain_capture_events offset_at within events)
    unfolding drain_capture_events
    drain_capture-Keeps [] s h = h
    drain_capture-Keeps ((now, event) ∷ events) s h =
        bind-Then (Sound sha256) (Sound sha256) (capture_event offset_at within now event)
          (λ _. drain_capture_events offset_at within events) s (capture_event-Keeps now event s h)
          (λ _ t k. drain_capture-Keeps events t k)
