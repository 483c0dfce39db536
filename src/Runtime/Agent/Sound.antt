-- ===== src/Runtime/Agent/Sound.antt =====
-- What holds of the agent's loop between two of its branches, and the handlers of the session.
pub mod Clipboards
pub mod Injected
pub mod Steps
use tevir.Prelude.{
  ℕ, ◌+◌, ◌≤◌, ◌≡◌, refl, sym, ap, subst, ◌∙◌, Bool, true, false, Option, none, some, List, [], ◌∷◌,
  ◌++◌, drop, any, Result, ok, err, ◌>>=◌, ◌>>◌, M, length, is_empty, is_some, eqb, ◌==◌,
  if◌then◌else◌, option-cases, if-cases, result-cases, Bool-cases, Option-cases, inl, inr, arith,
}
use tevir.Prelude.State.{Ends, bind-Ends, Then, bind-Then, any-Then}
use tevir.Protocol.Message.{Session, InputBatch}
use tevir.Session.Agent as AgentSessions
use tevir.Session.Agent.{
  AgentSession, AgentAction, AgentError, Outcome, handle, dispatch, confirm_applied,
  reconcile_display, change_focus, receive_input,
}
use tevir.Session.Agent.Invariant as AgentInvariant
use tevir.Runtime.Channel.{try_send}
use tevir.Runtime.Controller.{
  ActiveClipboard, PendingHeartbeat, RuntimeError, RuntimeEvent, SessionFailure,
}
use tevir.Runtime.Controller.Network.{max_pending_heartbeats}
use tevir.Runtime.Controller.Sound.{ClipboardOk}
use tevir.Runtime.Agent.{
  Connection, AgentHandler, InjectionCommand, send_agent_event, inject, send_control, inject_batch,
  close_sender, apply_agent_action, apply_agent_actions, on_agent, set_controlled, differs,
  emit_agent_diagnostics,
}
use tevir.Runtime.Agent.Loop.{
  is_application, set_application_pending, report_control, handle_control, count_received, is_input,
}

-- What the invariant reads of the state.
abbrev pub Part : Type 1
Part = AgentSession → Bool → Bool → List PendingHeartbeat → Option ActiveClipboard → Type 0

abbrev pub On : Part → Connection → Type 0
On P s = P s.agent s.application_pending s.controlled s.pending_heartbeats s.active_clipboard

abbrev pub KeepsOn : {A : Type 0} → Part → AgentHandler A → Type 0
KeepsOn P handler = (s : Connection) → On P s → Then (On P) (handler s)

module _ (P : Part) where
  pub agent_event-KeepsOn : (event : RuntimeEvent) → KeepsOn P (send_agent_event event)
  unfolding send_agent_event
  agent_event-KeepsOn event s h = h

  inject-KeepsOn : (command : InjectionCommand) → KeepsOn P (inject command)
  unfolding inject
  inject-KeepsOn command s h =
      option-cases (Then (On P)) (try_send command s.injection) _ _ (λ _. tt) (λ _ _. h)

  pub control-KeepsOn : (message_ : Session) → KeepsOn P (send_control message_)
  unfolding send_control
  control-KeepsOn message_ s h =
      option-cases (Then (On P)) (try_send message_ s.sender) _ _ (λ _. tt) (λ _ _. h)

  action-KeepsOn : (action : AgentAction) → KeepsOn P (apply_agent_action action)
  unfolding apply_agent_action inject_batch
  action-KeepsOn (AgentAction.focus_entered position) s h =
      inject-KeepsOn (InjectionCommand.warp_cursor s.generation position) s h
  action-KeepsOn (AgentAction.apply_input batch) s h =
      if-cases (Then (On P)) (is_empty batch.events) _ _ (λ _. tt)
        (λ _.
          inject-KeepsOn (InjectionCommand.apply_batch s.generation batch.sequence batch.events) s
            h)
  action-KeepsOn AgentAction.release_all_input s h =
      inject-KeepsOn (InjectionCommand.release_all s.generation) s h
  action-KeepsOn (AgentAction.send message_) s h = control-KeepsOn message_ s h
  action-KeepsOn (AgentAction.clipboard control) s h = h
  action-KeepsOn AgentAction.close_connection s h = h

  pub actions-KeepsOn : (actions : List AgentAction) → KeepsOn P (apply_agent_actions actions)
  unfolding apply_agent_actions
  actions-KeepsOn [] s h = h
  actions-KeepsOn (action ∷ actions) s h =
      bind-Then (On P) (On P) (apply_agent_action action) (λ _. apply_agent_actions actions) s
        (action-KeepsOn action s h) (λ _ t k. actions-KeepsOn actions t k)

-- Whether a session's actions apply a batch, and the batch under application after them.
abbrev Applies : Outcome → Type 0
Applies (t, ok actions) = any is_application actions ≡ is_some t.pending_batch
Applies (t, err e) = Unit

handle-Applies : (s : AgentSession) (m : Session) → s.pending_batch ≡ none → Applies (handle s m)
unfolding handle is_application any
handle-Applies s (Session.display_changed layout) e = ground arith
handle-Applies s (Session.focus_changed epoch target position) e = ground arith
handle-Applies s (Session.input batch) e = ground arith
handle-Applies s (Session.input_acknowledged n) e = ground arith
handle-Applies s (Session.heartbeat nonce) e = ground arith
handle-Applies s (Session.heartbeat_acknowledged nonce) e = ground arith
handle-Applies s (Session.clipboard control) e = ground arith
handle-Applies s Session.disconnect e = ground arith

ok_injective :
    (actions more : List AgentAction)
    → ◌≡◌ {A = Result (List AgentAction) AgentError} (ok more) (ok actions)
    → actions ≡ more
ok_injective actions more e = cc

confirm-none :
    (s t : AgentSession) (n : ℕ) (actions : List AgentAction)
    → confirm_applied s n ≡ (t, ok actions)
    → (t.pending_batch ≡ none) × (t.active_focus_epoch ≡ s.active_focus_epoch)
unfolding confirm_applied
confirm-none s t n actions e = ground arith

module _ (sha256 : List ℕ → List ℕ) where
  -- The part that holds while the control is not yet reported: the session is valid, a batch is under
  -- application exactly while the loop waits for it, and heartbeats and clipboard are sound.
  abbrev pub Calm : Part
  Calm agent pending controlled heartbeats clipboard =
      AgentInvariant.IsValid agent
      × (pending ≡ is_some agent.pending_batch)
      × (length heartbeats ≤ max_pending_heartbeats)
      × ClipboardOk sha256 clipboard

  -- Between two branches what was reported of the control is what the session says, too.
  abbrev pub Sound : Part
  Sound agent pending controlled heartbeats clipboard =
      Calm agent pending controlled heartbeats clipboard
      × (controlled ≡ is_some agent.active_focus_epoch)

  pub set_controlled-Sound :
      (next : Bool) (s : Connection)
      → next ≡ is_some s.agent.active_focus_epoch
      → On Calm s
      → Then (On Sound) (set_controlled next s)
  unfolding set_controlled
  set_controlled-Sound next s e h =
      if-cases (Then (On Sound)) (differs next s.controlled) _ _ (λ _. (h, e))
        (λ same. (h, same_bools next s.controlled same ∙ e))
    where
      same_bools : (a b : Bool) → differs a b ≡ false → b ≡ a
      same_bools true true d = refl
      same_bools true false d = cc
      same_bools false true d = cc
      same_bools false false d = refl

  -- After a successful call of the session's `handle`, with its actions.
  abbrev Handled : List AgentAction → Connection → Type 0
  Handled actions s =
      AgentInvariant.IsValid s.agent
      × (any is_application actions ≡ is_some s.agent.pending_batch)
      × (length s.pending_heartbeats ≤ max_pending_heartbeats)
      × ClipboardOk sha256 s.active_clipboard

  on_agent-Handled :
      (message_ : Session) (s : Connection)
      → s.application_pending ≡ false
      → On Sound s
      → Ends (λ _. Unit {0}) Handled (on_agent (λ agent. handle agent message_) s)
  unfolding on_agent
  on_agent-Handled message_ s free_ h =
      let idle : s.agent.pending_batch ≡ none = ground (arith, h.0.1) in
      let applies = handle-Applies s.agent message_ idle in
      result-cases (Ends (λ _. Unit {0}) Handled) ((handle s.agent message_).1) _ _
        (λ actions e. (
          AgentInvariant.handle-IsValid s.agent message_ h.0.0,
          applies_ok (handle s.agent message_) actions e applies,
          h.0.2,
          h.0.3,
        ))
        (λ _ _. tt)
    where
      applies_ok :
          (o : Outcome) (actions : List AgentAction)
          → o.1 ≡ ok actions
          → Applies o
          → any is_application actions ≡ is_some o.0.pending_batch
      applies_ok (t, ok more) actions e a =
          ap (any is_application) (ok_injective actions more e) ∙ a
      applies_ok (t, err x) actions e a = absurd (ground arith)

  pub handle_control-Keeps :
      (message_ : Session) (s : Connection)
      → s.application_pending ≡ false
      → On Sound s
      → Then (On Sound) (handle_control message_ s)
  unfolding handle_control
  handle_control-Keeps message_ s free_ h =
      let start = count_received message_ s in
      bind-Ends (λ _. Unit {0}) Handled (λ _. On Sound) (on_agent (λ agent. handle agent message_))
        (λ actions. do set_application_pending actions; apply_agent_actions actions; report_control)
        start (counted message_ s free_ h)
        λ actions t k.
          let u = (set_application_pending actions t).0 in
          bind-Then (On Calm) (On Sound) (apply_agent_actions actions) (λ _. report_control) u
            (actions-KeepsOn Calm actions u k)
            (λ _ v m. set_controlled-Sound (is_some v.agent.active_focus_epoch) v refl m)
    where
      counted :
          (message_ : Session) (s : Connection)
          → s.application_pending ≡ false
          → On Sound s
          → Ends
              (λ _. Unit {0})
              Handled
              (on_agent (λ agent. handle agent message_) (count_received message_ s))
      counted message_ s free_ h =
          if-cases (λ t. Ends (λ _. Unit {0}) Handled (on_agent (λ agent. handle agent message_) t))
            (is_input message_) _ s (λ _. on_agent-Handled message_ _ free_ h)
            (λ _. on_agent-Handled message_ s free_ h)
