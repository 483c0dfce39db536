-- ===== src/Runtime/Controller/Sending.antt =====
-- crates/tevir/src/runtime.rs: what `apply_controller_actions` hands to the channels.
use mathlib.Core.List.{append_assoc, append-nil}
use tevir.Prelude.{
  ℕ, ◌+◌, ◌-◌, ◌≤◌, ◌≡◌, refl, sym, ap, subst, ◌∙◌, Option, none, some, List, [], ◌∷◌, ◌++◌, Result,
  ok, err, length, ◌==◌, if◌then◌else◌, Bool-cases, Option-cases, option-cases, inl, inr, arith,
}
use tevir.Prelude.Assoc
use tevir.Domain.Identity.{NodeId, node_eq}
use tevir.Protocol.Message.{Session}
use tevir.Session.Controller.{ControllerAction}
use tevir.Runtime.Channel.{Sender, try_send}
use tevir.Prelude.State.{Then, Then-map, ok-Then, bind-Then}
use tevir.Runtime.Controller.{
  ActivePeer, Handler, RuntimeError, CaptureCommand, Controller, send_event, send_to, send_capture,
  apply_action, apply_controller_actions,
}

-- The messages for a peer among some actions, and the releases.
abbrev pub messages_to : NodeId → List ControllerAction → List Session
messages_to peer [] = []
messages_to peer (ControllerAction.send other message_ ∷ actions) =
    if other == peer then message_ ∷ messages_to peer actions else messages_to peer actions
messages_to peer (ControllerAction.release_capture ∷ actions) = messages_to peer actions

abbrev pub releases : List ControllerAction → List CaptureCommand
releases [] = []
releases (ControllerAction.send other message_ ∷ actions) = releases actions
releases (ControllerAction.release_capture ∷ actions) = CaptureCommand.release ∷ releases actions

-- A channel after it took some messages.
abbrev pub pushed : {A : Type 0} → List A → Sender A → Sender A
pushed ms o = record { sent = o.sent ++ ms; room = o.room - length ms }

abbrev pub all_pushed : {A : Type 0} → List A → Option (Sender A) → Option (Sender A)
all_pushed ms none = none
all_pushed ms (some o) = some (pushed ms o)

-- The channel of a connected peer.
abbrev pub outbox : NodeId → Controller → Option (Sender Session)
outbox peer s = elim (Assoc.lookup peer s.peers) [
  | none ↦ none
  | some active ↦ some active.outbound
]

pushed-nil : {A : Type 0} (o : Sender A) → pushed [] o ≡ o
pushed-nil o = ground (arith, append-nil o.sent)

all_pushed-nil : {A : Type 0} (o : Option (Sender A)) → all_pushed [] o ≡ o
all_pushed-nil none = refl
all_pushed-nil (some o) = ap some (pushed-nil o)

pushed-cons :
    {A : Type 0} (m : A) (ms : List A) (o : Sender A)
    → pushed (m ∷ ms) o ≡ pushed ms (pushed (m ∷ []) o)
pushed-cons m ms o = ground (arith, append_assoc o.sent (m ∷ []) ms)

all_pushed-cons :
    {A : Type 0} (m : A) (ms : List A) (o : Option (Sender A))
    → all_pushed (m ∷ ms) o ≡ all_pushed ms (all_pushed (m ∷ []) o)
all_pushed-cons m ms none = refl
all_pushed-cons m ms (some o) = ap some (pushed-cons m ms o)

sent-pushed :
    {A : Type 0} (m : A) (o next : Sender A) → try_send m o ≡ some next → next ≡ pushed (m ∷ []) o
unfolding try_send
sent-pushed m o next e = ground arith

-- The parts that the handlers of actions leave alone.
abbrev pub Same : Controller → Controller → Type 0
Same s t =
    (t.session ≡ s.session)
    × (t.topology ≡ s.topology)
    × (t.local_node ≡ s.local_node)
    × (t.edge_state ≡ s.edge_state)
    × (t.clipboard_state ≡ s.clipboard_state)

-- What was handed on between two states.
abbrev pub Handed : List ControllerAction → Controller → Controller → Type 0
Handed actions s t =
    (t.capture ≡ pushed (releases actions) s.capture)
    × ((peer : NodeId) → outbox peer t ≡ all_pushed (messages_to peer actions) (outbox peer s))
    × Same s t

outbox-insert :
    (peer other : NodeId) (active : ActivePeer) (s : Controller)
    → outbox other (record s { peers = Assoc.insert peer active s.peers })
      ≡ (if peer == other then some active.outbound else outbox other s)
outbox-insert peer other active s = ground (arith, Assoc.lookup-insert peer other active s.peers)

-- What `send` hands on, where the peer is not connected and where it is.
unconnected :
    (peer other : NodeId) (message_ : Session) (s : Controller)
    → Assoc.lookup peer s.peers ≡ none
    → outbox other s
      ≡ all_pushed (messages_to other (ControllerAction.send peer message_ ∷ [])) (outbox other s)
unconnected peer other message_ s e = elim (Bool-cases (peer == other)) [
  | inl same ↦
      let here : outbox other s ≡ none =
        subst (λ n. outbox n s ≡ none) ((node_eq.eq_iff peer other).0 same) (rw (e, outbox)) in
      rw (same, here)
  | inr apart ↦ rw apart (sym (all_pushed-nil (outbox other s)))
]

connected :
    (peer other : NodeId) (active : ActivePeer) (message_ : Session) (outbound : Sender Session)
    (s : Controller)
    → Assoc.lookup peer s.peers ≡ some active
    → try_send message_ active.outbound ≡ some outbound
    → outbox other
        (record s { peers = Assoc.insert peer (record active { outbound = outbound }) s.peers })
      ≡ all_pushed (messages_to other (ControllerAction.send peer message_ ∷ [])) (outbox other s)
connected peer other active message_ outbound s e sent = elim (Bool-cases (peer == other)) [
  | inl same ↦
      let there : outbox other s ≡ some active.outbound =
        subst (λ n. outbox n s ≡ some active.outbound) ((node_eq.eq_iff peer other).0 same)
          (rw (e, outbox)) in
      outbox-insert peer other (record active { outbound = outbound }) s
      ∙ rw (same, there) (ap some (sent-pushed message_ active.outbound outbound sent))
  | inr apart ↦
      outbox-insert peer other (record active { outbound = outbound }) s
      ∙ rw apart (sym (all_pushed-nil (outbox other s)))
]

action-Handed :
    (action : ControllerAction) (s : Controller)
    → Then (Handed (action ∷ []) s) (apply_action action s)
unfolding apply_action send_to send_capture send_event
action-Handed ControllerAction.release_capture s =
    option-cases (Then (Handed (ControllerAction.release_capture ∷ []) s))
      (try_send CaptureCommand.release s.capture) _ _ (λ _. tt)
      λ capture e. (
        sent-pushed CaptureCommand.release s.capture capture e,
        λ peer. sym (all_pushed-nil (outbox peer s)),
        (refl, refl, refl, refl, refl),
      )
action-Handed (ControllerAction.send peer message_) s =
    let actions = ControllerAction.send peer message_ ∷ [] in
    option-cases (Then (Handed actions s)) (Assoc.lookup peer s.peers) _ _
      (λ e. (
        sym (pushed-nil s.capture),
        λ other. unconnected peer other message_ s e,
        (refl, refl, refl, refl, refl),
      ))
      λ active e.
        option-cases (Then (Handed actions s)) (try_send message_ active.outbound) _ _ (λ _. tt)
          λ outbound sent. (
            sym (pushed-nil s.capture),
            λ other. connected peer other active message_ outbound s e sent,
            (refl, refl, refl, refl, refl),
          )

messages_to-cons :
    (peer : NodeId) (action : ControllerAction) (actions : List ControllerAction)
    (o : Option (Sender Session))
    → all_pushed (messages_to peer (action ∷ actions)) o
      ≡ all_pushed (messages_to peer actions) (all_pushed (messages_to peer (action ∷ [])) o)
messages_to-cons peer ControllerAction.release_capture actions o =
    ap (all_pushed (messages_to peer actions)) (sym (all_pushed-nil o))
messages_to-cons peer (ControllerAction.send other message_) actions o =
    elim (Bool-cases (other == peer)) [
      | inl same ↦ rw same (all_pushed-cons message_ (messages_to peer actions) o)
      | inr apart ↦ rw apart (ap (all_pushed (messages_to peer actions)) (sym (all_pushed-nil o)))
    ]

releases-cons :
    (action : ControllerAction) (actions : List ControllerAction) (o : Sender CaptureCommand)
    → pushed (releases (action ∷ actions)) o
      ≡ pushed (releases actions) (pushed (releases (action ∷ [])) o)
releases-cons ControllerAction.release_capture actions o =
    pushed-cons CaptureCommand.release (releases actions) o
releases-cons (ControllerAction.send other message_) actions o =
    ap (pushed (releases actions)) (sym (pushed-nil o))

Handed-then :
    (action : ControllerAction) (actions : List ControllerAction) (s t u : Controller)
    → Handed (action ∷ []) s t
    → Handed actions t u
    → Handed (action ∷ actions) s u
Handed-then action actions s t u h k = (
  k.0 ∙ ap (pushed (releases actions)) h.0 ∙ sym (releases-cons action actions s.capture),
  λ peer.
      k.1 peer
      ∙ ap (all_pushed (messages_to peer actions)) (h.1 peer)
      ∙ sym (messages_to-cons peer action actions (outbox peer s)),
  let a = k.2 in let b = h.2 in (a.0 ∙ b.0, a.1 ∙ b.1, a.2 ∙ b.2, a.3 ∙ b.3, a.4 ∙ b.4),
)

-- If the actions of a session are carried out, then the channel of each connected peer took exactly the
-- messages for that peer, in their order, behind what it held, and that of the native capture exactly the
-- releases; the session, the topology and what is under way at the edges and the clipboard stay.
pub apply_controller_actions-Handed :
    (actions : List ControllerAction) (s : Controller)
    → Then (Handed actions s) (apply_controller_actions actions s)
unfolding apply_controller_actions
apply_controller_actions-Handed [] s = (
  sym (pushed-nil s.capture),
  λ peer. sym (all_pushed-nil (outbox peer s)),
  (refl, refl, refl, refl, refl),
)
apply_controller_actions-Handed (action ∷ actions) s =
    bind-Then (Handed (action ∷ []) s) (Handed (action ∷ actions) s) (apply_action action)
      (λ _. apply_controller_actions actions) s (action-Handed action s)
      λ _ t h.
        Then-map (Handed actions t) (Handed (action ∷ actions) s)
          (apply_controller_actions actions t) (λ u k. Handed-then action actions s t u h k)
          (apply_controller_actions-Handed actions t)

-- Room for what some actions hand on.
abbrev pub Room : List ControllerAction → Controller → Type 0
Room actions s =
    (length (releases actions) ≤ s.capture.room)
    × ((peer : NodeId) (o : Sender Session)
        → outbox peer s ≡ some o
        → length (messages_to peer actions) ≤ o.room)

try_send-some :
    {A : Type 0} (m : A) (o : Sender A)
    → 1 ≤ o.room
    → (next : Sender A) × (try_send m o ≡ some next)
unfolding try_send
try_send-some m o h = (record { sent = o.sent ++ m ∷ []; room = o.room - 1 }, ground arith)

action_succeeds :
    (action : ControllerAction) (s : Controller)
    → Room (action ∷ []) s
    → (apply_action action s).1 ≡ ok tt
unfolding apply_action send_to send_capture send_event
action_succeeds ControllerAction.release_capture s h =
    let (next, e) = try_send-some CaptureCommand.release s.capture h.0 in ground arith
action_succeeds (ControllerAction.send peer message_) s h =
    elim (Option-cases (Assoc.lookup peer s.peers)) [
      | inl e ↦ ground arith
      | inr (active, e) ↦
          let room = h.1 peer active.outbound (rw (e, outbox) refl) in
          let (next, sent) =
            try_send-some message_ active.outbound (ground (arith, node_eq.eq_iff peer peer)) in
          ground arith
    ]

first-Room :
    (action : ControllerAction) (actions : List ControllerAction) (s : Controller)
    → Room (action ∷ actions) s
    → Room (action ∷ []) s
first-Room ControllerAction.release_capture actions s h =
    (omega (arith, h.0), λ peer o e. omega arith)
first-Room (ControllerAction.send other message_) actions s h =
    (omega arith, λ peer o e. ground (arith, h.1 peer o e))

abbrev room_of : Option (Sender Session) → ℕ
room_of none = 0
room_of (some o) = o.room

length-releases :
    (action : ControllerAction) (actions : List ControllerAction)
    → length (releases (action ∷ actions))
      ≡ length (releases (action ∷ [])) + length (releases actions)
length-releases ControllerAction.release_capture actions = omega arith
length-releases (ControllerAction.send peer message_) actions = omega arith

length-messages_to :
    (peer : NodeId) (action : ControllerAction) (actions : List ControllerAction)
    → length (messages_to peer (action ∷ actions))
      ≡ length (messages_to peer (action ∷ [])) + length (messages_to peer actions)
length-messages_to peer ControllerAction.release_capture actions = omega arith
length-messages_to peer (ControllerAction.send other message_) actions = ground arith

rest-Room :
    (action : ControllerAction) (actions : List ControllerAction) (s t : Controller)
    → Handed (action ∷ []) s t
    → Room (action ∷ actions) s
    → Room actions t
rest-Room action actions s t handed h = (
  omega (
    arith,
    ap (λ (c : Sender CaptureCommand). c.room) handed.0,
    h.0,
    length-releases action actions,
  ),
  λ peer o e. elim (Option-cases (outbox peer s)) [
    | inl absent ↦ absurd (ground (arith, handed.1 peer))
    | inr (before, there) ↦
        let after : some o ≡ some (pushed (messages_to peer (action ∷ [])) before) =
          sym e ∙ handed.1 peer ∙ ap (all_pushed (messages_to peer (action ∷ []))) there in
        let room = ap (λ c. room_of c) after in
        omega (arith, room, h.1 peer before there, length-messages_to peer action actions)
  ],
)

after_ok :
    (r : Controller × Result (Unit {0}) RuntimeError) (next : Handler (Unit {0}))
    → r.1 ≡ ok tt
    → (next r.0).1 ≡ ok tt
    → ◌≡◌ {A = Result (Unit {0}) RuntimeError}
        ((elim (r.1) as (λ _. Controller × Result (Unit {0}) RuntimeError) [
          | ok _ ↦ next r.0
          | err e ↦ (r.0, err e)
        ]).1)
        (ok tt)
after_ok (t, ok a) next done h = h
after_ok (t, err e) next done h = done

-- The actions of a session are carried out if there is room in the channels for what they hand on.
pub apply_controller_actions_succeeds :
    (actions : List ControllerAction) (s : Controller)
    → Room actions s
    → (apply_controller_actions actions s).1 ≡ ok tt
unfolding apply_controller_actions
apply_controller_actions_succeeds [] s h = refl
apply_controller_actions_succeeds (action ∷ actions) s h =
    let done = action_succeeds action s (first-Room action actions s h) in
    let handed =
      ok-Then (Handed (action ∷ []) s) (apply_action action s) done (action-Handed action s) in
    after_ok (apply_action action s) (apply_controller_actions actions) done (
      apply_controller_actions_succeeds actions (apply_action action s).0
        (rest-Room action actions s (apply_action action s).0 handed h))
