-- ===== src/Session/Agent/Invariant.antt =====
-- What holds of an agent session between two calls, and that every call keeps it.
use tevir.Prelude.{
  ℕ, ◌+◌, ◌≤◌, ◌≡◌, true, false, Option, none, some, length, if-cases, u64_max, arith,
}
use tevir.Domain.Identity.{NodeId}
use tevir.Domain.Geometry.{Point, Size}
use tevir.Protocol.Message.{Session, InputBatch, max_input_events_per_batch}
use tevir.Session.Agent.Calls.{Call, handles, confirms, reconciles, loses, step}
use tevir.Session.Agent.{
  AgentSession, FocusState, new, contains_local, handle, confirm_applied, reconcile_display, close,
  change_focus, receive_input, dispatch,
}

-- A batch under application is the next one, and belongs to the active epoch.
abbrev pub PendingNext : ℕ → Option ℕ → Option InputBatch → Type 0
PendingNext last active none = Unit {0}
PendingNext last active (some b) =
    (b.sequence ≡ last + 1)
    × (b.sequence ≤ u64_max)
    × (active ≡ some b.focus_epoch)
    × (1 ≤ length b.events)
    × (length b.events ≤ max_input_events_per_batch)

-- The remembered focus is that of the highest epoch.
abbrev pub FocusLatest : ℕ → Option FocusState → Type 0
FocusLatest highest none = highest ≡ 0
FocusLatest highest (some f) = f.epoch ≡ highest

-- An active focus is the remembered one, on this node and inside its display.
abbrev pub ActiveHere : AgentSession → Option ℕ → Option FocusState → Type 0
ActiveHere s none f = Unit {0}
ActiveHere s (some e) none = ⊥
ActiveHere s (some e) (some f) =
    (e ≡ s.highest_focus_epoch)
    × (f.target ≡ s.local_node)
    × (contains_local s.display_size f.entry_position ≡ true)

pub record IsValid (s : AgentSession) : Type 0 where
  pub pending_next : PendingNext s.last_applied_sequence s.active_focus_epoch s.pending_batch
  pub focus_latest : FocusLatest s.highest_focus_epoch s.last_focus
  pub active_here : ActiveHere s s.active_focus_epoch s.last_focus
  pub closed_idle : s.closed ≡ true → (s.active_focus_epoch ≡ none) × (s.pending_batch ≡ none)
  pub sequence_fits : s.last_applied_sequence ≤ u64_max

pub new-IsValid : (node : NodeId) (size : Size) → IsValid (new node size)
unfolding new
new-IsValid node size = ground arith

change_focus-IsValid :
    (s : AgentSession) (epoch : ℕ) (target : NodeId) (p : Point)
    → s.closed ≡ false
    → IsValid s
    → IsValid (change_focus s epoch target p).0
unfolding change_focus
change_focus-IsValid s epoch target p o v = ground arith

receive_input-IsValid :
    (s : AgentSession) (b : InputBatch)
    → s.closed ≡ false
    → IsValid s
    → IsValid (receive_input s b).0
unfolding receive_input
receive_input-IsValid s b o v = ground arith

close-IsValid : (s : AgentSession) → IsValid s → IsValid (close s).0
unfolding close
close-IsValid s v = ground arith

dispatch-IsValid :
    (s : AgentSession) (m : Session) → s.closed ≡ false → IsValid s → IsValid (dispatch s m).0
unfolding dispatch
dispatch-IsValid s (Session.display_changed layout) o v = v
dispatch-IsValid s (Session.focus_changed epoch target p) o v =
    change_focus-IsValid s epoch target p o v
dispatch-IsValid s (Session.input b) o v = receive_input-IsValid s b o v
dispatch-IsValid s (Session.input_acknowledged n) o v = v
dispatch-IsValid s (Session.heartbeat nonce) o v = v
dispatch-IsValid s (Session.heartbeat_acknowledged nonce) o v = v
dispatch-IsValid s (Session.clipboard control) o v = v
dispatch-IsValid s Session.disconnect o v = close-IsValid s v

pub handle-IsValid : (s : AgentSession) (m : Session) → IsValid s → IsValid (handle s m).0
unfolding handle
handle-IsValid s m v =
    if-cases (λ r. IsValid r.0) s.closed _ (dispatch s m) (λ _. v) (λ o. dispatch-IsValid s m o v)

pub confirm_applied-IsValid :
    (s : AgentSession) (n : ℕ) → IsValid s → IsValid (confirm_applied s n).0
unfolding confirm_applied
confirm_applied-IsValid s n v = ground arith

pub reconcile_display-IsValid :
    (s : AgentSession) (size : Size) → IsValid s → IsValid (reconcile_display s size).0
unfolding reconcile_display
reconcile_display-IsValid s size v = ground arith

-- Every call, with a failing call too, keeps the invariant.
pub step-IsValid : (s : AgentSession) (c : Call) → IsValid s → IsValid (step s c).0
unfolding step
step-IsValid s (handles m) v = handle-IsValid s m v
step-IsValid s (confirms n) v = confirm_applied-IsValid s n v
step-IsValid s (reconciles size) v = reconcile_display-IsValid s size v
step-IsValid s loses v = close-IsValid s v
