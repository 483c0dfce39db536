-- ===== src/Runtime/Agent/Rounds.antt =====
-- crates/tevir/src/runtime.rs: a batch of input on its way through the agent's loop.
use tevir.Prelude.{
  ℕ, ◌≡◌, ◌≤◌, true, false, Option, none, some, List, [], ◌∷◌, ◌++◌, Result, ok, is_empty,
  Bool-cases, inl, inr, arith, any,
}
use tevir.Protocol.Message.{Session, InputBatch}
use tevir.Session.Agent.{
  AgentSession, AgentAction, confirm_applied, handle, dispatch, receive_input, receive_sequence,
  validate_batch,
}
use tevir.Runtime.Channel.{try_send}
use tevir.Runtime.Agent.{
  AgentConnectionOutcome, Connection, InjectionCommand, InjectionServiceEvent, inject, inject_batch,
  send_agent_event, send_control, apply_agent_action, apply_agent_actions, on_agent, set_controlled,
  emit_agent_diagnostics,
}
use tevir.Runtime.Controller.{RuntimeError}
use tevir.Runtime.Controller.Clipboards.{start_next}
use tevir.Runtime.Agent.Clipboards.{
  start_next_application, agent_clipboard_events, drain_agent_clipboard,
}
use tevir.Runtime.Agent.Sound.{On, Sound}
use tevir.Runtime.Agent.Injected.{
  batch_applied, count_acknowledged, injection_event, injection_events,
}
use tevir.Runtime.Agent.Loop.{
  AgentEvent, goes_on, receive_message, transfer_events, agent_tick, agent_step, handle_control,
  count_received, is_application, set_application_pending, report_control,
}

-- A session that accepts a batch is open, and has it under application.
accepted-pending :
    (s : AgentSession) (batch : InputBatch)
    → (handle s (Session.input batch)).1 ≡ ok (AgentAction.apply_input batch ∷ [])
    → (handle s (Session.input batch)
        ≡ (record s { pending_batch = some batch }, ok (AgentAction.apply_input batch ∷ [])))
      × (s.closed ≡ false)
      × (is_empty batch.events ≡ false)
unfolding handle dispatch receive_input receive_sequence validate_batch
accepted-pending s batch e = ground arith

-- The batch is handed to the injection, once, and is under application, and the loop goes on.
abbrev pub HandedOver :
    InputBatch
    → Connection
    → Connection × Result (Option AgentConnectionOutcome) RuntimeError
    → Type 0
HandedOver batch s (t, result) =
    (result ≡ ok none)
    × (t.application_pending ≡ true)
    × (t.agent.pending_batch ≡ some batch)
    × (t.generation ≡ s.generation)
    × (t.injection.sent
        ≡ s.injection.sent
          ++ (InjectionCommand.apply_batch s.generation batch.sequence batch.events ∷ []))

-- The batch is acknowledged, no batch is under application, and the loop goes on.
abbrev pub Acknowledged :
    InputBatch
    → Connection
    → Connection × Result (Option AgentConnectionOutcome) RuntimeError
    → Type 0
Acknowledged batch u (t, result) =
    (result ≡ ok none)
    × (t.application_pending ≡ false)
    × (t.agent.pending_batch ≡ none)
    × (t.agent.last_applied_sequence ≡ batch.sequence)
    × (t.sender.sent ≡ u.sender.sent ++ (Session.input_acknowledged batch.sequence ∷ []))

module _ (sha256 : List ℕ → List ℕ) where
  Sound-open :
      (batch : InputBatch) (u : Connection)
      → On (Sound sha256) u
      → u.agent.pending_batch ≡ some batch
      → u.agent.closed ≡ false
  Sound-open batch u h e = elim (Bool-cases u.agent.closed) [
    | inl shut ↦ absurd (ground (arith, (h.0.0.closed_idle shut).1))
    | inr open_ ↦ open_
  ]

  receipt-HandedOver :
      (now : ℕ) (batch : InputBatch) (s : Connection)
      → s.application_pending ≡ false
      → (handle s.agent (Session.input batch)).1 ≡ ok (AgentAction.apply_input batch ∷ [])
      → 1 ≤ s.injection.room
      → HandedOver batch s (agent_step sha256 (AgentEvent.received now (Session.input batch)) s)
  unfolding agent_step goes_on receive_message handle_control count_received on_agent
      set_application_pending is_application apply_agent_actions apply_agent_action inject_batch
      inject report_control set_controlled send_agent_event try_send any
  receipt-HandedOver now batch s free_ e room =
      let (h, open_, full) = accepted-pending s.agent batch e in ground (arith, h, open_, full)

  quiet_drain :
      (u : Connection)
      → u.clipboard_state.applications.queued ≡ []
      → drain_agent_clipboard sha256 [] u ≡ (u, ok tt)
  unfolding drain_agent_clipboard agent_clipboard_events start_next_application start_next
  quiet_drain u idle = ground arith

  report-Acknowledged :
      (batch : InputBatch) (u : Connection)
      → u.agent.closed ≡ false
      → u.agent.pending_batch ≡ some batch
      → u.clipboard_state.applications.queued ≡ []
      → 1 ≤ u.sender.room
      → Acknowledged batch u (
          agent_step sha256
            (AgentEvent.tick [] [] (InjectionServiceEvent.applied u.generation batch.sequence ∷ []))
            u)
  unfolding agent_step goes_on agent_tick transfer_events injection_events injection_event
      batch_applied on_agent confirm_applied apply_agent_actions apply_agent_action send_control
      send_agent_event count_acknowledged emit_agent_diagnostics try_send
  report-Acknowledged batch u live under idle space = ground (arith, quiet_drain u idle)

  -- If the session of an agent accepts a batch while the loop waits for no application, and there is room in
  -- the channel to the injection, then the loop goes on, and the batch is handed to the injection, once, and is
  -- under application. And in every sound state in which a batch is under application, nothing is queued for the
  -- native clipboard, and the connection takes a message, a tick that brings the report of that batch as applied
  -- and nothing else lets the loop go on, acknowledges that batch to the controller, and leaves none under
  -- application.
  pub input_round :
      (now : ℕ) (batch : InputBatch) (s u : Connection)
      → s.application_pending ≡ false
      → (handle s.agent (Session.input batch)).1 ≡ ok (AgentAction.apply_input batch ∷ [])
      → 1 ≤ s.injection.room
      → On (Sound sha256) u
      → u.agent.pending_batch ≡ some batch
      → u.clipboard_state.applications.queued ≡ []
      → 1 ≤ u.sender.room
      → HandedOver batch s (agent_step sha256 (AgentEvent.received now (Session.input batch)) s)
        × Acknowledged batch u (
            agent_step sha256
              (AgentEvent.tick [] []
                (InjectionServiceEvent.applied u.generation batch.sequence ∷ []))
              u)
  input_round now batch s u free_ e room sound under idle space = (
    receipt-HandedOver now batch s free_ e room,
    report-Acknowledged batch u (Sound-open batch u sound under) under idle space,
  )
