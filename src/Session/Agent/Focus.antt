-- ===== src/Session/Agent/Focus.antt =====
-- Focus epochs on the agent, and the release of held input when the focus leaves.
use tevir.Prelude.{
  ℕ, ◌≤◌, ◌<◌, ◌≡◌, ◌≢◌, refl, true, false, none, some, List, [], ◌∷◌, Result, ok, err, ◌⊎◌, inl,
  inr, if-cases, arith,
}
use tevir.Domain.Identity.{NodeId}
use tevir.Domain.Geometry.{Point}
use tevir.Protocol.Message.{Session, InputBatch}
use tevir.Session.Agent.Calls.{
  Call, handles, confirms, reconciles, loses, step, run, confirmed, applied,
}
use tevir.Session.Agent.{
  AgentSession, AgentAction, AgentError, Outcome, contains_local, handle, confirm_applied,
  reconcile_display, close, change_focus, receive_input, dispatch,
}

-- The actions begin with the release of all held input.
abbrev pub ReleasesFirst : Result (List AgentAction) AgentError → Type 0
ReleasesFirst (ok (AgentAction.release_all_input ∷ actions)) = Unit
ReleasesFirst _ = ⊥

-- The focus after a call: never an older epoch; a focus that stays is the same, and one that ends
-- or moves on is preceded by a release.
abbrev pub FocusStep : AgentSession → Outcome → Type 0
FocusStep s (t, r) =
    (s.highest_focus_epoch ≤ t.highest_focus_epoch)
    × ((t.active_focus_epoch ≡ s.active_focus_epoch)
        ⊎ (s.active_focus_epoch ≡ none)
        ⊎ ReleasesFirst r)

change_focus-FocusStep :
    (s : AgentSession) (epoch : ℕ) (target : NodeId) (p : Point)
    → FocusStep s (change_focus s epoch target p)
unfolding change_focus
change_focus-FocusStep s epoch target p = ground arith

receive_input-FocusStep : (s : AgentSession) (b : InputBatch) → FocusStep s (receive_input s b)
unfolding receive_input
receive_input-FocusStep s b = ground arith

confirm_applied-FocusStep : (s : AgentSession) (n : ℕ) → FocusStep s (confirm_applied s n)
unfolding confirm_applied
confirm_applied-FocusStep s n = ground arith

dispatch-FocusStep : (s : AgentSession) (m : Session) → FocusStep s (dispatch s m)
unfolding dispatch
dispatch-FocusStep s (Session.focus_changed epoch target p) =
    change_focus-FocusStep s epoch target p
dispatch-FocusStep s (Session.input b) = receive_input-FocusStep s b
dispatch-FocusStep s Session.disconnect = unfold close in ground arith
dispatch-FocusStep s _ = ground arith

-- Whatever the call, the highest focus epoch never falls, and the actions begin with the release of
-- all held input unless the active epoch stays as it was or there was none.
pub step-FocusStep : (s : AgentSession) (c : Call) → FocusStep s (step s c)
unfolding step handle reconcile_display close
step-FocusStep s (handles m) =
    if-cases (FocusStep s) s.closed (s, err AgentError.session_closed) (dispatch s m)
      (λ _. ground arith) (λ o. dispatch-FocusStep s m)
step-FocusStep s (confirms n) = confirm_applied-FocusStep s n
step-FocusStep s (reconciles size) = ground arith
step-FocusStep s loses = ground arith

-- A focus change to this node at a newer epoch, on an open session with no batch under application
-- and with the entry position in the display, makes the epoch active. Then a repeat of the message
-- changes nothing, a message of the same epoch for another node or position is refused, and a
-- message of an older epoch changes nothing.
pub focus_accepted_once :
    (s : AgentSession) (epoch older : ℕ) (target : NodeId) (p q : Point)
    → s.closed ≡ false
    → s.pending_batch ≡ none
    → s.highest_focus_epoch < epoch
    → contains_local s.display_size p ≡ true
    → (target ≢ s.local_node) ⊎ (q ≢ p)
    → older < epoch
    → let entered = (handle s (Session.focus_changed epoch s.local_node p)).0 in
      (entered.active_focus_epoch ≡ some epoch)
      × (handle entered (Session.focus_changed epoch s.local_node p) ≡ (entered, ok []))
      × (handle entered (Session.focus_changed epoch target q)
          ≡ (entered, err (AgentError.conflicting_focus_epoch epoch)))
      × (handle entered (Session.focus_changed older target q) ≡ (entered, ok []))
unfolding handle
focus_accepted_once s epoch older target p q open_ idle newer inside other old = ground arith

-- A closed session without focus and pending batch.
abbrev pub IsShut : AgentSession → Type 0
IsShut s = (s.closed ≡ true) × (s.active_focus_epoch ≡ none) × (s.pending_batch ≡ none)

step-IsShut :
    (s : AgentSession) (c : Call) → IsShut s → IsShut (step s c).0 × (confirmed c (step s c).1 ≡ [])
unfolding step handle confirm_applied reconcile_display close
step-IsShut s (handles m) h = ground arith
step-IsShut s (confirms n) h = ground arith
step-IsShut s (reconciles size) h = ground arith
step-IsShut s loses h = ground arith

run-IsShut :
    (s : AgentSession) (cs : List Call) → IsShut s → IsShut (run s cs) × (applied s cs ≡ [])
unfolding run applied
run-IsShut s [] h = (h, refl)
run-IsShut s (c ∷ cs) h =
    let now = step-IsShut s c h in
    let later = run-IsShut (step s c).0 cs now.0 in (later.0, rw (now.1) later.1)

closing-IsShut :
    (s : AgentSession) (c : Call)
    → s.closed ≡ false
    → (c ≡ handles Session.disconnect) ⊎ (c ≡ loses)
    → IsShut (step s c).0
unfolding step handle dispatch close
closing-IsShut s c o (inl e) = rw e (ground arith)
closing-IsShut s c o (inr e) = rw e (ground arith)

-- A disconnect, and a lost connection, close any open session, and no later call changes that: the
-- session stays closed without focus and pending batch, and confirms nothing more.
pub close_absorbs :
    (s : AgentSession) (c : Call) (cs : List Call)
    → s.closed ≡ false
    → (c ≡ handles Session.disconnect) ⊎ (c ≡ loses)
    → IsShut (run (step s c).0 cs) × (applied (step s c).0 cs ≡ [])
close_absorbs s c cs o h = run-IsShut (step s c).0 cs (closing-IsShut s c o h)
