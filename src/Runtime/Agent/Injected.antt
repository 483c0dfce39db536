-- ===== src/Runtime/Agent/Injected.antt =====
-- crates/tevir/src/runtime.rs: what the native injection reports to the agent's loop.
use tevir.Prelude.{
  ℕ, false, List, [], ◌∷◌, ◌++◌, Result, ok, err, ◌>>=◌, ◌>>◌, eqb, ◌==◌, if◌then◌else◌,
}
use tevir.Protocol.Message.{Session}
use tevir.Session.Agent.{reconcile_display, confirm_applied}
use tevir.Runtime.Controller.{
  geometry_eq, DesktopGeometry, NativeFailure, RuntimeError, RuntimeEvent,
}
use tevir.Runtime.Agent.{
  AgentHandler, InjectionServiceEvent, send_agent_event, send_control, apply_agent_actions,
  on_agent, saturating_increment, emit_agent_diagnostics, set_controlled,
}

-- The display of the session, and what is under way is forgotten.
unfoldable pub reset_display : DesktopGeometry → AgentHandler (Unit {0})
reset_display geometry s =
    let r = reconcile_display s.agent geometry.layout.size in
    apply_agent_actions r.1
      (record s { display_geometry = geometry; application_pending = false; agent = r.0 })

-- The arm of `DesktopChanged` for another geometry.
unfoldable pub change_geometry : DesktopGeometry → AgentHandler (Unit {0})
unfolding reset_display send_control set_controlled send_agent_event
change_geometry geometry = do
  reset_display geometry
  send_control (Session.display_changed geometry.layout)
  set_controlled false
  send_agent_event (RuntimeEvent.local_desktop_changed geometry)

unfoldable pub count_acknowledged : AgentHandler (Unit {0})
count_acknowledged s = (
  record s { input_batches_acknowledged = saturating_increment s.input_batches_acknowledged },
  ok tt,
)

-- The arm of `Applied` of this connection's generation.
unfoldable pub batch_applied : ℕ → AgentHandler (Unit {0})
unfolding on_agent count_acknowledged emit_agent_diagnostics
batch_applied sequence s =
    (do
      actions ← on_agent (λ agent. confirm_applied agent sequence)
      apply_agent_actions actions
      count_acknowledged
      emit_agent_diagnostics false)
      (record s { application_pending = false })

-- One round of the loop over what the injection reports.
unfoldable pub injection_event : InjectionServiceEvent → AgentHandler (Unit {0})
unfolding send_agent_event change_geometry batch_applied
injection_event (InjectionServiceEvent.ready backend) s =
    send_agent_event (RuntimeEvent.native_ready backend) s
injection_event (InjectionServiceEvent.desktop_changed geometry) s =
    if geometry == s.display_geometry then (s, ok tt) else change_geometry geometry s
injection_event (InjectionServiceEvent.applied generation sequence) s =
    if eqb generation s.generation then batch_applied sequence s else (s, ok tt)
injection_event (InjectionServiceEvent.released generation) s = (s, ok tt)
injection_event InjectionServiceEvent.failed s =
    (s, err (RuntimeError.native NativeFailure.injection_failed))
injection_event InjectionServiceEvent.stopped s =
    (s, err (RuntimeError.native NativeFailure.injection_stopped))

unfoldable pub injection_events : List InjectionServiceEvent → AgentHandler (Unit {0})
injection_events [] s = (s, ok tt)
injection_events (event ∷ events) s =
    let r = injection_event event s in
    elim (r.1) [ ok _ ↦ injection_events events r.0 | err e ↦ (r.0, err e) ]

-- What was reported before a connection, of the events and the geometry.
unfoldable pub earlier_events :
    List InjectionServiceEvent
    → List RuntimeEvent
    → DesktopGeometry
    → Result (List RuntimeEvent × DesktopGeometry) RuntimeError
earlier_events [] sent geometry = ok (sent, geometry)
earlier_events (InjectionServiceEvent.ready backend ∷ events) sent geometry =
    earlier_events events (sent ++ (RuntimeEvent.native_ready backend ∷ [])) geometry
earlier_events (InjectionServiceEvent.desktop_changed changed ∷ events) sent geometry =
    earlier_events events sent changed
earlier_events (InjectionServiceEvent.applied generation sequence ∷ events) sent geometry =
    earlier_events events sent geometry
earlier_events (InjectionServiceEvent.released generation ∷ events) sent geometry =
    earlier_events events sent geometry
earlier_events (InjectionServiceEvent.failed ∷ events) sent geometry =
    err (RuntimeError.native NativeFailure.injection_failed)
earlier_events (InjectionServiceEvent.stopped ∷ events) sent geometry =
    err (RuntimeError.native NativeFailure.injection_stopped)
