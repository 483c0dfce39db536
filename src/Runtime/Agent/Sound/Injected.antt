-- ===== src/Runtime/Agent/Sound/Injected.antt =====
-- crates/tevir/src/runtime.rs: what the injection reports keeps the state of the agent's loop sound.
use tevir.Prelude.{
  ℕ, ◌≡◌, refl, sym, ap, ◌∙◌, false, none, List, [], ◌∷◌, ◌>>◌, is_some, eqb, ◌==◌, result-cases,
  if-cases,
}
use tevir.Prelude.State.{Then, bind-Then}
use tevir.Domain.Identity.{node_eq}
use tevir.Protocol.Message.{Session}
use tevir.Session.Agent.{confirm_applied, reconcile_display}
use tevir.Session.Agent.Invariant as AgentInvariant
use tevir.Runtime.Controller.{geometry_eq, DesktopGeometry, RuntimeEvent}
use tevir.Runtime.Agent.{
  InjectionServiceEvent, send_agent_event, send_control, apply_agent_actions, on_agent,
  emit_agent_diagnostics, set_controlled,
}
use tevir.Runtime.Agent.Injected.{
  reset_display, change_geometry, count_acknowledged, batch_applied, injection_event,
  injection_events,
}
use tevir.Runtime.Agent.Sound.{
  Part, On, KeepsOn, Calm, Sound, confirm-none, actions-KeepsOn, control-KeepsOn,
  set_controlled-Sound,
}

module _ (sha256 : List ℕ → List ℕ) where
  -- The display is reset: nothing is under application, and nobody has the focus.
  abbrev Reset : Part
  Reset agent pending controlled heartbeats clipboard =
      Calm sha256 agent pending controlled heartbeats clipboard × (agent.active_focus_epoch ≡ none)

  change_geometry-KeepsOn :
      (geometry : DesktopGeometry) → KeepsOn (Sound sha256) (change_geometry geometry)
  unfolding change_geometry reset_display reconcile_display send_agent_event
  change_geometry-KeepsOn geometry s h =
      let size = geometry.layout.size in
      let t = record s {
        display_geometry = geometry;
        application_pending = false;
        agent = (reconcile_display s.agent size).0;
      } in
      let k : On Reset t =
        ((AgentInvariant.reconcile_display-IsValid s.agent size h.0.0, refl, h.0.2, h.0.3), refl) in
      bind-Then (On Reset) (On (Sound sha256)) (reset_display geometry)
        (λ _. do
          send_control (Session.display_changed geometry.layout)
          set_controlled false
          send_agent_event (RuntimeEvent.local_desktop_changed geometry))
        s (actions-KeepsOn Reset (reconcile_display s.agent size).1 t k)
        λ _ u m.
          bind-Then (On Reset) (On (Sound sha256))
            (send_control (Session.display_changed geometry.layout))
            (λ _. do
              set_controlled false
              send_agent_event (RuntimeEvent.local_desktop_changed geometry))
            u (control-KeepsOn Reset (Session.display_changed geometry.layout) u m)
            λ _ v n.
              bind-Then (On (Sound sha256)) (On (Sound sha256)) (set_controlled false)
                (λ _. send_agent_event (RuntimeEvent.local_desktop_changed geometry)) v
                (set_controlled-Sound sha256 false v (sym (ap is_some n.1)) n.0) (λ _ _ r. r)

  batch_applied-KeepsOn : (sequence : ℕ) → KeepsOn (Sound sha256) (batch_applied sequence)
  unfolding batch_applied on_agent count_acknowledged emit_agent_diagnostics
  batch_applied-KeepsOn sequence s h =
      bind-Then (On (Sound sha256)) (On (Sound sha256))
        (on_agent (λ agent. confirm_applied agent sequence))
        (λ actions. do
          apply_agent_actions actions
          count_acknowledged
          emit_agent_diagnostics false)
        (record s { application_pending = false })
        (result-cases (Then (On (Sound sha256))) ((confirm_applied s.agent sequence).1) _ _
          (λ actions e.
            let (idle, same) =
              confirm-none s.agent (confirm_applied s.agent sequence).0 sequence actions
                (ap (λ r. ((confirm_applied s.agent sequence).0, r)) e) in
            (
              (
                AgentInvariant.confirm_applied-IsValid s.agent sequence h.0.0,
                sym (ap is_some idle),
                h.0.2,
                h.0.3,
              ),
              h.1 ∙ sym (ap is_some same),
            ))
          (λ _ _. tt))
        λ actions t k.
          bind-Then (On (Sound sha256)) (On (Sound sha256)) (apply_agent_actions actions)
            (λ _. do count_acknowledged; emit_agent_diagnostics false) t
            (actions-KeepsOn (Sound sha256) actions t k) (λ _ u m. m)

  injection_event-KeepsOn :
      (event : InjectionServiceEvent) → KeepsOn (Sound sha256) (injection_event event)
  unfolding injection_event send_agent_event
  injection_event-KeepsOn (InjectionServiceEvent.ready backend) s h = h
  injection_event-KeepsOn (InjectionServiceEvent.desktop_changed geometry) s h =
      if-cases (Then (On (Sound sha256))) (geometry == s.display_geometry) _ _ (λ _. h)
        (λ _. change_geometry-KeepsOn geometry s h)
  injection_event-KeepsOn (InjectionServiceEvent.applied generation sequence) s h =
      if-cases (Then (On (Sound sha256))) (eqb generation s.generation) _ _
        (λ _. batch_applied-KeepsOn sequence s h) (λ _. h)
  injection_event-KeepsOn (InjectionServiceEvent.released generation) s h = h
  injection_event-KeepsOn InjectionServiceEvent.failed s h = tt
  injection_event-KeepsOn InjectionServiceEvent.stopped s h = tt

  pub injections-KeepsOn :
      (events : List InjectionServiceEvent) → KeepsOn (Sound sha256) (injection_events events)
  unfolding injection_events
  injections-KeepsOn [] s h = h
  injections-KeepsOn (event ∷ events) s h =
      bind-Then (On (Sound sha256)) (On (Sound sha256)) (injection_event event)
        (λ _. injection_events events) s (injection_event-KeepsOn event s h)
        (λ _ t k. injections-KeepsOn events t k)
