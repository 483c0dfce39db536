-- ===== src/Runtime/Controller/Sound.antt =====
-- What holds of the controller's loop between two of its branches, and the handlers that the others share.
pub mod Capture
pub mod Clipboards
pub mod Heartbeats
pub mod Network
pub mod Rooms
pub mod Steps
use tevir.Prelude.{
  ℕ, ◌≤◌, ◌≡◌, refl, sym, ap, subst, ◌∙◌, Bool, true, false, Option, none, some, List, [], ◌∷◌,
  Result, ok, err, ◌>>=◌, ◌>>◌, M, length, is_some, is_none, ◌==◌, if◌then◌else◌, Bool-cases,
  Option-cases, inl, inr, option-cases, if-cases, result-cases, arith,
}
use tevir.Prelude.Assoc
use tevir.Prelude.State.{Then, Then-map, any-Then, ok-Then, bind-Then, Ends, bind-Ends, Preserves}
use tevir.Domain.Identity.{NodeId, node_eq}
use tevir.Domain.Topology.{Topology, screen}
use tevir.Domain.Topology.Accepted.{IsArrangement}
use tevir.Protocol.Message.{Session}
use tevir.Session.Controller.{ControllerSession, ControllerAction, ControllerError}
use tevir.Session.Controller.Invariant.{IsValid}
use tevir.Session.Routing.Placed.{Placed}
use tevir.Session.Clipboard.Invariant as ClipboardInvariant
use tevir.Runtime.Channel.{Sender, try_send}
use tevir.Runtime.Controller.{
  ActivePeer, ActiveClipboard, CaptureCommand, Controller, Handler, RuntimeError, RuntimeEvent,
  send_capture, send_event, send_focus, send_to, on_session, apply_action, apply_controller_actions,
  act,
}
use tevir.Runtime.Controller.Network.{max_pending_heartbeats}

abbrev pub Keeps : {A : Type 0} → (Controller → Type 0) → Handler A → Type 0
Keeps P handler = (s : Controller) → P s → Then P (handler s)

-- A valid session of a node on a topology.
abbrev pub Located : Topology → NodeId → ControllerSession → Type 0
Located on node session = IsValid session × Placed on node session

abbrev pub EndsLocated :
    {A : Type 0} → Topology → NodeId → ControllerSession × Result A ControllerError → Type 0
EndsLocated on node o = Ends (λ _. Unit {0}) (λ _. Located on node) o

ends_ok :
    {A : Type 0} (on : Topology) (node : NodeId) (o : ControllerSession × Result A ControllerError)
    (a : A)
    → o.1 ≡ ok a
    → EndsLocated on node o
    → Located on node o.0
ends_ok on node (t, ok b) a e h = h
ends_ok on node (t, err x) a e h = absurd (ground arith)

both_ends :
    {A : Type 0} (on : Topology) (node : NodeId) (o : ControllerSession × Result A ControllerError)
    → Located on node o.0
    → EndsLocated on node o
both_ends on node (t, ok b) h = h
both_ends on node (t, err x) h = tt

-- A screen of the topology for each connected peer.
abbrev pub Known : Topology → List (NodeId × ActivePeer) → Type 0
Known topology peers =
    (peer : NodeId)
    → is_some (Assoc.lookup peer peers) ≡ true
    → is_some (screen topology peer) ≡ true

pub Known-insert :
    (topology : Topology) (peer : NodeId) (active : ActivePeer) (peers : List (NodeId × ActivePeer))
    → is_some (screen topology peer) ≡ true
    → Known topology peers
    → Known topology (Assoc.insert peer active peers)
Known-insert topology peer active peers here h other e = ground (
  arith,
  Assoc.lookup-insert peer other active peers,
  node_eq.eq_iff peer other,
  h other,
  ap (λ p. is_some (screen topology p)) {x = peer} {y = other},
)

module _ (sha256 : List ℕ → List ℕ) where
  abbrev pub ClipboardOk : Option ActiveClipboard → Type 0
  ClipboardOk none = Unit
  ClipboardOk (some clipboard) = ClipboardInvariant.IsValid sha256 clipboard.session

  -- Few heartbeats without an answer, and a valid clipboard session.
  abbrev pub ConnectionOk : ActivePeer → Type 0
  ConnectionOk active =
      (length active.pending_heartbeats ≤ max_pending_heartbeats) × ClipboardOk active.clipboard

  -- A session on one topology, and connections of the nodes of another.
  pub record SoundOn (on known : Topology) (node : NodeId) (session : ControllerSession)
      (peers : List (NodeId × ActivePeer)) : Type 0 where
    pub valid : IsValid session
    pub placed : Placed on node session
    pub arranged : IsArrangement on.screens
    pub connected : Known known peers
    pub held : Assoc.AllValues ConnectionOk peers

  -- Between two branches the session is valid, and on the topology and the node of the loop; the topology
  -- is an arrangement; each connected peer has a screen in it, and a sound connection.
  abbrev pub Sound : Controller → Type 0
  Sound s = SoundOn s.topology s.topology s.local_node s.session s.peers

  -- While the topology changes.
  abbrev pub Between : (on known own : Topology) → Controller → Type 0
  Between on known own s = SoundOn on known s.local_node s.session s.peers × (s.topology ≡ own)

  pub Between-Sound : (on : Topology) (s : Controller) → Between on on on s → Sound s
  Between-Sound on s h = subst (λ t. SoundOn t t s.local_node s.session s.peers) (sym h.1) h.0

  -- A connection that is there is replaced by a sound one.
  pub SoundOn-insert :
      (on known : Topology) (node : NodeId) (session : ControllerSession)
      (peers : List (NodeId × ActivePeer)) (peer : NodeId) (active : ActivePeer)
      → is_some (screen known peer) ≡ true
      → ConnectionOk active
      → SoundOn on known node session peers
      → SoundOn on known node session (Assoc.insert peer active peers)
  SoundOn-insert on known node session peers peer active here c h = record {
    valid = h.valid;
    placed = h.placed;
    arranged = h.arranged;
    connected = Known-insert known peer active peers here h.connected;
    held = Assoc.AllValues-insert ConnectionOk peer active peers c h.held;
  }

  pub send_capture-Keeps :
      (on known own : Topology) (command : CaptureCommand)
      → Keeps (Between on known own) (send_capture command)
  unfolding send_capture
  send_capture-Keeps on known own command s h =
      option-cases (Then (Between on known own)) (try_send command s.capture) _ _ (λ _. tt)
        (λ capture _. h)

  pub send_to-Keeps :
      (on known own : Topology) (peer : NodeId) (active : ActivePeer) (message_ : Session)
      (s : Controller)
      → Assoc.lookup peer s.peers ≡ some active
      → Between on known own s
      → Then (Between on known own) (send_to peer active message_ s)
  unfolding send_to
  send_to-Keeps on known own peer active message_ s found h =
      option-cases (Then (Between on known own)) (try_send message_ active.outbound) _ _ (λ _. tt)
        λ outbound _.
          let c : ConnectionOk active =
            Assoc.AllValues-lookup ConnectionOk peer s.peers active h.0.held found in
          (
            SoundOn-insert on known s.local_node s.session s.peers peer
                (record active { outbound = outbound }) (h.0.connected peer (ap is_some found)) c
                h.0,
            h.1,
          )

  pub send_to-Sound :
      (peer : NodeId) (active : ActivePeer) (message_ : Session) (s : Controller)
      → Assoc.lookup peer s.peers ≡ some active
      → Sound s
      → Then Sound (send_to peer active message_ s)
  send_to-Sound peer active message_ s found h =
      let on = s.topology in
      Then-map (Between on on on) Sound (send_to peer active message_ s) (Between-Sound on)
        (send_to-Keeps on on on peer active message_ s found (h, refl))

  apply_action-Keeps :
      (on known own : Topology) (action : ControllerAction)
      → Keeps (Between on known own) (apply_action action)
  unfolding apply_action send_event
  apply_action-Keeps on known own (ControllerAction.send peer message_) s h =
      option-cases (Then (Between on known own)) (Assoc.lookup peer s.peers) _ _ (λ _. h)
        (λ active found. send_to-Keeps on known own peer active message_ s found h)
  apply_action-Keeps on known own ControllerAction.release_capture s h =
      send_capture-Keeps on known own CaptureCommand.release s h

  pub apply_actions-Keeps :
      (on known own : Topology) (actions : List ControllerAction)
      → Keeps (Between on known own) (apply_controller_actions actions)
  unfolding apply_controller_actions
  apply_actions-Keeps on known own [] s h = h
  apply_actions-Keeps on known own (action ∷ actions) s h =
      bind-Then (Between on known own) (Between on known own) (apply_action action)
        (λ _. apply_controller_actions actions) s (apply_action-Keeps on known own action s h)
        (λ _ t k. apply_actions-Keeps on known own actions t k)

  -- A method that keeps a session on its topology valid.
  abbrev pub KeepsSession : {A : Type 0} → M ControllerSession ControllerError A → Type 0
  KeepsSession method =
      Preserves IsValid method
      × ((topology : Topology) (node : NodeId) → Preserves (Placed topology node) method)

  -- A method whose success leaves a valid session on `next`.
  pub on_session-Between :
      {A : Type 0} (before next known own : Topology)
      (method : M ControllerSession ControllerError A) (s : Controller)
      → IsArrangement next.screens
      → EndsLocated next s.local_node (method s.session)
      → Between before known own s
      → Then (Between next known own) (on_session method s)
  unfolding on_session
  on_session-Between before next known own method s a e h =
      result-cases (Then (Between next known own)) ((method s.session).1) _ _
        (λ x same.
          let (v, q) = ends_ok next s.local_node (method s.session) x same e in
          (
            record {
              valid = v;
              placed = q;
              arranged = a;
              connected = h.0.connected;
              held = h.0.held;
            },
            h.1,
          ))
        (λ x _. tt)

  pub act-Between :
      (before next known own : Topology)
      (method : M ControllerSession ControllerError (List ControllerAction)) (s : Controller)
      → IsArrangement next.screens
      → EndsLocated next s.local_node (method s.session)
      → Between before known own s
      → Then (Between next known own) (act method s)
  unfolding act
  act-Between before next known own method s a e h =
      bind-Then (Between next known own) (Between next known own) (on_session method)
        apply_controller_actions s (on_session-Between before next known own method s a e h)
        (λ actions t k. apply_actions-Keeps next known own actions t k)

  pub KeepsSession-Ends :
      {A : Type 0} (method : M ControllerSession ControllerError A) (on : Topology) (node : NodeId)
      (session : ControllerSession)
      → KeepsSession method
      → IsValid session
      → Placed on node session
      → EndsLocated on node (method session)
  KeepsSession-Ends method on node session k v q =
      both_ends on node (method session) (k.0 session v, k.1 on node session q)

  pub on_session-Keeps :
      {A : Type 0} (method : M ControllerSession ControllerError A)
      → KeepsSession method
      → Keeps Sound (on_session method)
  on_session-Keeps method k s h =
      let on = s.topology in
      Then-map (Between on on on) Sound (on_session method s) (Between-Sound on) (
        on_session-Between on on on on method s h.arranged
          (KeepsSession-Ends method on s.local_node s.session k h.valid h.placed) (h, refl))

  pub act-Keeps :
      (method : M ControllerSession ControllerError (List ControllerAction))
      → KeepsSession method
      → Keeps Sound (act method)
  act-Keeps method k s h =
      let on = s.topology in
      Then-map (Between on on on) Sound (act method s) (Between-Sound on) (
        act-Between on on on on method s h.arranged
          (KeepsSession-Ends method on s.local_node s.session k h.valid h.placed) (h, refl))

  pub capture-Keeps : (command : CaptureCommand) → Keeps Sound (send_capture command)
  unfolding send_capture
  capture-Keeps command s h =
      option-cases (Then Sound) (try_send command s.capture) _ _ (λ _. tt) (λ capture _. h)

  pub event-Keeps : (event : RuntimeEvent) → Keeps Sound (send_event event)
  unfolding send_event
  event-Keeps event s h = h

  pub focus-Keeps : Keeps Sound send_focus
  unfolding send_focus send_event
  focus-Keeps s h = h

  pub then-Keeps :
      {A B : Type 0} (m : Handler A) (f : A → Handler B)
      → Keeps Sound m
      → ((a : A) → Keeps Sound (f a))
      → Keeps Sound (m >>= f)
  then-Keeps m f p q s h = bind-Then Sound Sound m f s (p s h) q
