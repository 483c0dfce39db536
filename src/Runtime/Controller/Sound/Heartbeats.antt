-- ===== src/Runtime/Controller/Sound/Heartbeats.antt =====
-- crates/tevir/src/runtime.rs: heartbeats and their answers keep the state of the loop sound.
use tevir.Prelude.{
  ℕ, ◌-◌, ◌≤◌, ◌≡◌, refl, sym, ◌∙◌, ap, Bool, some, List, [], ◌∷◌, ◌++◌, drop, length,
  length-append, is_some, eqb, if◌then◌else◌, option-cases, Option-cases, Bool-cases, inl, inr,
  arith,
}
use tevir.Prelude.Assoc
use tevir.Domain.Identity.{NodeId, node_eq}
use tevir.Protocol.Message.{Session}
use tevir.Session.Routing.{delivery_progress}
use tevir.Runtime.Channel.{try_send}
use tevir.Runtime.Controller.{topology_eq, ActivePeer, PendingHeartbeat, Controller, send_event}
use tevir.Runtime.Controller.Network.{
  max_pending_heartbeats, emit_controller_diagnostics, take_heartbeat, finish_heartbeat,
  offer_message, answer_heartbeat, send_heartbeat, send_heartbeats, send_controller_heartbeats,
}
use tevir.Prelude.State.{Then}
use tevir.Runtime.Controller.Sound.{Keeps, Sound, SoundOn-insert, ConnectionOk}

pub take_heartbeat-length :
    (nonce : ℕ) (hs rest : List PendingHeartbeat) (found : PendingHeartbeat)
    → take_heartbeat nonce hs ≡ some (found, rest)
    → length rest ≤ length hs
unfolding take_heartbeat
take_heartbeat-length nonce [] rest found e = absurd (ground arith)
take_heartbeat-length nonce (h ∷ hs) rest found e = elim (Bool-cases (eqb h.nonce nonce)) [
  | inl hit ↦ ground arith
  | inr miss ↦ elim (Option-cases (take_heartbeat nonce hs)) [
    | inl lost ↦ absurd (ground arith)
    | inr (p, ep) ↦ ground (arith, take_heartbeat-length nonce hs p.1 p.0)
  ]
]

lookup-heartbeats :
    (now nonce : ℕ) (test : Bool) (peer : NodeId) (peers : List (NodeId × ActivePeer))
    → is_some (Assoc.lookup peer (send_heartbeats now nonce test peers))
      ≡ is_some (Assoc.lookup peer peers)
unfolding send_heartbeats Assoc.lookup
lookup-heartbeats now nonce test peer [] = refl
lookup-heartbeats now nonce test peer ((other, active) ∷ peers) =
    ground (arith, lookup-heartbeats now nonce test peer peers)

-- Room for one more heartbeat.
pub kept-le :
    (hs : List PendingHeartbeat) (h : PendingHeartbeat)
    → length hs ≤ max_pending_heartbeats
    → length ((if eqb (length hs) max_pending_heartbeats then drop 1 hs else hs) ++ (h ∷ []))
      ≤ max_pending_heartbeats
kept-le [] h e = omega arith
kept-le (first ∷ hs) h e =
    ground (arith, length-append hs (h ∷ []), length-append (first ∷ hs) (h ∷ []))

module _ (sha256 : List ℕ → List ℕ) where
  pub replace-Sound :
      (peer : NodeId) (active next : ActivePeer) (s : Controller)
      → Assoc.lookup peer s.peers ≡ some active
      → (ConnectionOk sha256 active → ConnectionOk sha256 next)
      → Sound sha256 s
      → Sound sha256 (record s { peers = Assoc.insert peer next s.peers })
  replace-Sound peer active next s found f h =
      SoundOn-insert sha256 s.topology s.topology s.local_node s.session s.peers peer next
        (h.connected peer (ap is_some found))
        (f (Assoc.AllValues-lookup (ConnectionOk sha256) peer s.peers active h.held found)) h

  pub diagnostics-Keeps :
      (peer : NodeId) (test : Bool) → Keeps (Sound sha256) (emit_controller_diagnostics peer test)
  unfolding emit_controller_diagnostics send_event
  diagnostics-Keeps peer test s h =
      option-cases (Then (Sound sha256)) (Assoc.lookup peer s.peers) _ _ (λ _. h)
        λ active _.
          option-cases (Then (Sound sha256)) (delivery_progress s.session peer) _ _ (λ _. h)
            (λ progress _. h)

  pub acknowledged-Keeps :
      (now : ℕ) (peer : NodeId) (nonce : ℕ) → Keeps (Sound sha256) (finish_heartbeat now peer nonce)
  unfolding finish_heartbeat
  acknowledged-Keeps now peer nonce s h =
      option-cases (Then (Sound sha256)) (Assoc.lookup peer s.peers) _ _ (λ _. h)
        λ active found.
          option-cases (Then (Sound sha256)) (take_heartbeat nonce active.pending_heartbeats) _ _
            (λ _. h)
            λ o e.
              let next = record active {
                pending_heartbeats = o.1;
                round_trip = some (now - (o.0).sent_at);
              } in
              diagnostics-Keeps peer ((o.0).test)
                (record s { peers = Assoc.insert peer next s.peers })
                (replace-Sound peer active next s found
                  (λ c. (
                    omega (
                      arith,
                      take_heartbeat-length nonce active.pending_heartbeats o.1 o.0 e,
                      c.0,
                    ),
                    c.1,
                  ))
                  h)

  offer_message-Ok :
      (reply : Session) (active : ActivePeer)
      → ConnectionOk sha256 active
      → ConnectionOk sha256 (offer_message reply active)
  unfolding offer_message
  offer_message-Ok reply active c =
      option-cases (ConnectionOk sha256) (try_send reply active.outbound) _ _ (λ _. c) (λ _ _. c)

  pub answer-Sound :
      (peer : NodeId) (nonce : ℕ) (s : Controller)
      → Sound sha256 s
      → Sound sha256 (answer_heartbeat peer nonce s)
  unfolding answer_heartbeat
  answer-Sound peer nonce s h =
      option-cases (Sound sha256) (Assoc.lookup peer s.peers) _ _ (λ _. h)
        λ active found.
          replace-Sound peer active (offer_message (Session.heartbeat_acknowledged nonce) active) s
            found (offer_message-Ok (Session.heartbeat_acknowledged nonce) active) h

  send_heartbeat-Ok :
      (now nonce : ℕ) (test : Bool) (active : ActivePeer)
      → ConnectionOk sha256 active
      → ConnectionOk sha256 (send_heartbeat now nonce test active)
  unfolding send_heartbeat
  send_heartbeat-Ok now nonce test active c =
      option-cases (ConnectionOk sha256) (try_send (Session.heartbeat nonce) active.outbound) _ _
        (λ _. c) (λ _ _. (kept-le active.pending_heartbeats _ c.0, c.1))

  AllValues-heartbeats :
      (now nonce : ℕ) (test : Bool) (peers : List (NodeId × ActivePeer))
      → Assoc.AllValues (ConnectionOk sha256) peers
      → Assoc.AllValues (ConnectionOk sha256) (send_heartbeats now nonce test peers)
  unfolding send_heartbeats
  AllValues-heartbeats now nonce test [] h = tt
  AllValues-heartbeats now nonce test ((peer, active) ∷ peers) h =
      (send_heartbeat-Ok now nonce test active h.0, AllValues-heartbeats now nonce test peers h.1)

  pub heartbeats-Sound :
      (now : ℕ) (test : Bool) (s : Controller)
      → Sound sha256 s
      → Sound sha256 (send_controller_heartbeats now test s)
  unfolding send_controller_heartbeats
  heartbeats-Sound now test s h = record {
    valid = h.valid;
    placed = h.placed;
    arranged = h.arranged;
    connected = λ peer e. h.connected peer (sym (lookup-heartbeats now _ test peer s.peers) ∙ e);
    held = AllValues-heartbeats now _ test s.peers h.held;
  }
