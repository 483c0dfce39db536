-- ===== src/Session/Agent/Delivery.antt =====
-- Input batches are applied in order, one at a time and at most once confirmed.
use tevir.Prelude.{
  ℕ, ◌+◌, ◌≤◌, ◌≡◌, refl, ap, false, none, some, List, [], ◌∷◌, ◌++◌, ok, err, length, ◌⊎◌, subst,
  range_from, All, inl, inr, if-cases, u64_max, arith,
}
use tevir.Domain.Identity.{NodeId}
use tevir.Domain.Geometry.{Point}
use tevir.Protocol.Message.{Session, InputBatch, max_input_events_per_batch}
use tevir.Session.Agent.Calls.{
  Call, handles, confirms, reconciles, loses, step, run, confirmed, applied,
}
use tevir.Session.Agent.Invariant.{IsValid, step-IsValid}
use tevir.Session.Agent.{
  AgentSession, AgentAction, AgentError, Outcome, handle, confirm_applied, reconcile_display, close,
  change_focus, receive_input, dispatch,
}

-- What an emitted action says of the state before it (`s`) and after it (`t`).
abbrev pub ActionSound : AgentSession → AgentSession → AgentAction → Type 0
ActionSound s t (AgentAction.apply_input b) =
    (b.sequence ≡ s.last_applied_sequence + 1)
    × (s.active_focus_epoch ≡ some b.focus_epoch)
    × (b.focus_epoch ≡ s.highest_focus_epoch)
    × (s.pending_batch ≡ none)
    × (t.pending_batch ≡ some b)
    × (s.closed ≡ false)
ActionSound s t (AgentAction.send (Session.input_acknowledged n)) = n ≡ t.last_applied_sequence
ActionSound s t _ = Unit

abbrev pub ActionsSound : AgentSession → Outcome → Type 0
ActionsSound s (t, ok actions) = All (ActionSound s t) actions
ActionsSound s (t, err e) = t ≡ s

change_focus-ActionsSound :
    (s : AgentSession) (epoch : ℕ) (target : NodeId) (p : Point)
    → ActionsSound s (change_focus s epoch target p)
unfolding change_focus
change_focus-ActionsSound s epoch target p = ground arith

receive_input-ActionsSound :
    (s : AgentSession) (b : InputBatch)
    → s.closed ≡ false
    → IsValid s
    → ActionsSound s (receive_input s b)
unfolding receive_input
receive_input-ActionsSound s b o v = ground arith

confirm_applied-ActionsSound : (s : AgentSession) (n : ℕ) → ActionsSound s (confirm_applied s n)
unfolding confirm_applied
confirm_applied-ActionsSound s n = ground arith

dispatch-ActionsSound :
    (s : AgentSession) (m : Session) → s.closed ≡ false → IsValid s → ActionsSound s (dispatch s m)
unfolding dispatch
dispatch-ActionsSound s (Session.display_changed layout) o v = refl
dispatch-ActionsSound s (Session.focus_changed epoch target p) o v =
    change_focus-ActionsSound s epoch target p
dispatch-ActionsSound s (Session.input b) o v = receive_input-ActionsSound s b o v
dispatch-ActionsSound s (Session.input_acknowledged n) o v = refl
dispatch-ActionsSound s (Session.heartbeat nonce) o v = omega arith
dispatch-ActionsSound s (Session.heartbeat_acknowledged nonce) o v = tt
dispatch-ActionsSound s (Session.clipboard control) o v = omega arith
dispatch-ActionsSound s Session.disconnect o v = omega arith

-- Of a valid session, whatever the call: an emitted `ApplyInput` carries the sequence right after
-- the last applied one, belongs to the active epoch, which is the highest seen, is emitted only
-- while no batch is pending and the session is open, and is pending afterwards; an emitted input
-- acknowledgement names the last applied sequence; a call that fails leaves the session unchanged.
pub step-ActionsSound : (s : AgentSession) (c : Call) → IsValid s → ActionsSound s (step s c)
unfolding step handle reconcile_display close
step-ActionsSound s (handles m) v =
    if-cases (ActionsSound s) s.closed (s, err AgentError.session_closed) (dispatch s m) (λ _. refl)
      (λ o. dispatch-ActionsSound s m o v)
step-ActionsSound s (confirms n) v = confirm_applied-ActionsSound s n
step-ActionsSound s (reconciles size) v = ground arith
step-ActionsSound s loses v = ground arith

change_focus-last_applied :
    (s : AgentSession) (epoch : ℕ) (target : NodeId) (p : Point)
    → (change_focus s epoch target p).0.last_applied_sequence ≡ s.last_applied_sequence
unfolding change_focus
change_focus-last_applied s epoch target p = ground arith

receive_input-last_applied :
    (s : AgentSession) (b : InputBatch)
    → (receive_input s b).0.last_applied_sequence ≡ s.last_applied_sequence
unfolding receive_input
receive_input-last_applied s b = ground arith

dispatch-last_applied :
    (s : AgentSession) (m : Session)
    → (dispatch s m).0.last_applied_sequence ≡ s.last_applied_sequence
unfolding dispatch
dispatch-last_applied s (Session.focus_changed epoch target p) =
    change_focus-last_applied s epoch target p
dispatch-last_applied s (Session.input b) = receive_input-last_applied s b
dispatch-last_applied s _ = refl

handle-last_applied :
    (s : AgentSession) (m : Session)
    → (handle s m).0.last_applied_sequence ≡ s.last_applied_sequence
unfolding handle
handle-last_applied s m = ground (arith, dispatch-last_applied s m)

-- What one call confirms: nothing, or the sequence after the last applied one, which it then is.
abbrev Confirms : AgentSession → Call → Outcome → Type 0
Confirms s c (t, r) =
    ((confirmed c r ≡ []) × (t.last_applied_sequence ≡ s.last_applied_sequence))
    ⊎ ((confirmed c r ≡ (s.last_applied_sequence + 1) ∷ [])
        × (t.last_applied_sequence ≡ s.last_applied_sequence + 1))

step-Confirms : (s : AgentSession) (c : Call) → IsValid s → Confirms s c (step s c)
unfolding step
step-Confirms s (handles m) v = inl (refl, handle-last_applied s m)
step-Confirms s (confirms n) v = unfold confirm_applied in ground arith
step-Confirms s (reconciles size) v = unfold reconcile_display in inl (refl, refl)
step-Confirms s loses v = unfold close in inl (refl, refl)

-- `xs` counts on from `last`, and `next` is where it ends.
abbrev Consecutive : ℕ → List ℕ → ℕ → Type 0
Consecutive last xs next = (xs ≡ range_from (last + 1) (length xs)) × (next ≡ last + length xs)

Consecutive-cons :
    (last : ℕ) (xs : List ℕ) (next : ℕ)
    → Consecutive (last + 1) xs next
    → Consecutive last ((last + 1) ∷ xs) next
Consecutive-cons last xs next h = (ap (◌∷◌ (last + 1)) h.0, omega arith)

Consecutive-step :
    (s : AgentSession) (c : Call) (o : Outcome) (xs : List ℕ) (next : ℕ)
    → Confirms s c o
    → Consecutive o.0.last_applied_sequence xs next
    → Consecutive s.last_applied_sequence (confirmed c o.1 ++ xs) next
Consecutive-step s c o xs next (inl (none_, same)) h =
    rw none_ (subst (λ k. Consecutive k xs next) same h)
Consecutive-step s c o xs next (inr (one, moved)) h =
    rw one (Consecutive-cons _ xs next (subst (λ k. Consecutive k xs next) moved h))

-- Over any sequence of calls on a valid session the confirmed sequences are consecutive, in order
-- and without repetition, and start right after the last applied sequence, which counts them.
pub applied-consecutive :
    (s : AgentSession) (cs : List Call)
    → IsValid s
    → (applied s cs ≡ range_from (s.last_applied_sequence + 1) (length (applied s cs)))
      × ((run s cs).last_applied_sequence ≡ s.last_applied_sequence + length (applied s cs))
unfolding applied run
applied-consecutive s [] v = (refl, omega arith)
applied-consecutive s (c ∷ cs) v =
    Consecutive-step s c (step s c) _ _ (step-Confirms s c v)
      (applied-consecutive (step s c).0 cs (step-IsValid s c v))

-- An open, valid session that is idle in the batch's epoch applies the next batch, confirms it, and
-- then answers the same batch with its acknowledgement alone: nothing is applied a second time.
pub redelivery_acknowledged :
    (s : AgentSession) (b : InputBatch)
    → IsValid s
    → s.closed ≡ false
    → s.active_focus_epoch ≡ some b.focus_epoch
    → s.pending_batch ≡ none
    → b.sequence ≡ s.last_applied_sequence + 1
    → b.sequence ≤ u64_max
    → 1 ≤ length b.events
    → length b.events ≤ max_input_events_per_batch
    → let received = handle s (Session.input b) in
      let done = confirm_applied received.0 b.sequence in
      let acknowledgement = ok (AgentAction.send (Session.input_acknowledged b.sequence) ∷ []) in
      (received.1 ≡ ok (AgentAction.apply_input b ∷ []))
      × (done.1 ≡ acknowledgement)
      × (handle done.0 (Session.input b) ≡ (done.0, acknowledgement))
unfolding handle confirm_applied
redelivery_acknowledged s b v open_ active idle next fits some_ few = ground arith
