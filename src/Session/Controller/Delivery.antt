-- ===== src/Session/Controller/Delivery.antt =====
-- The deliveries to peers: a window of one batch, consecutive sequences, and acknowledgements that
-- never run ahead of what was sent.
use tevir.Prelude.{
  ℕ, ◌+◌, ◌≤◌, ◌<◌, ◌≡◌, refl, ◌⊎◌, true, some, List, [], ◌∷◌, is_some, Result, ok, err, All, leb,
  ltb, ◌==◌, option-cases, if-cases, u64_max, arith,
}
use tevir.Prelude.Assoc
use tevir.Prelude.Assoc.{AllValues}
use tevir.Domain.Identity.{NodeId, node_eq}
use tevir.Session.Controller.Flush.{
  Flushed, nothing, dropped, unknown, blocked, exhausted, sent, flush-Flushed, sent_delivery,
}
use tevir.Session.Controller.{
  ControllerSession, ControllerError, PeerDelivery, Actions, new_delivery, flush, pop_through,
  acknowledge, reset_peer,
}

-- Either everything sent is acknowledged, or exactly the last batch is under way.
pub record DeliveryOk (d : PeerDelivery) : Type 0 where
  pub window :
      ((d.pending ≡ []) × (d.last_sent ≡ d.last_acknowledged))
      ⊎ ((d.pending ≡ d.last_sent ∷ []) × (d.last_sent ≡ d.last_acknowledged + 1))
  pub sent_fits : d.last_sent ≤ u64_max

pub new_delivery-DeliveryOk : DeliveryOk new_delivery
new_delivery-DeliveryOk = ground arith

sent_delivery-DeliveryOk :
    (d : PeerDelivery)
    → DeliveryOk d
    → d.pending ≡ []
    → d.last_sent < u64_max
    → DeliveryOk (sent_delivery d)
sent_delivery-DeliveryOk d k idle room = ground arith

-- The deliveries of every peer are sound, and each peer of a list has one.
pub record Delivers (peers : List NodeId) (m : List (NodeId × PeerDelivery)) : Type 0 where
  pub all_ok : AllValues DeliveryOk m
  pub known : All (λ p. is_some (Assoc.lookup p m) ≡ true) peers

known-insert :
    (peers : List NodeId) (k : NodeId) (d : PeerDelivery) (m : List (NodeId × PeerDelivery))
    → All (λ p. is_some (Assoc.lookup p m) ≡ true) peers
    → All (λ p. is_some (Assoc.lookup p (Assoc.insert k d m)) ≡ true) peers
known-insert [] k d m h = tt
known-insert (p ∷ ps) k d m h = (
  rw (Assoc.lookup-insert k p d m)
      (if-cases (λ o. is_some o ≡ true) (k == p) _ (Assoc.lookup p m) (λ _. refl) (λ _. h.0)),
  known-insert ps k d m h.1,
)

pub insert-Delivers :
    (peers : List NodeId) (k : NodeId) (d : PeerDelivery) (m : List (NodeId × PeerDelivery))
    → DeliveryOk d
    → Delivers peers m
    → Delivers peers (Assoc.insert k d m)
insert-Delivers peers k d m o v = record {
  all_ok = Assoc.AllValues-insert DeliveryOk k d m o v.all_ok;
  known = known-insert peers k d m v.known;
}

lookup-DeliveryOk :
    (peers : List NodeId) (k : NodeId) (d : PeerDelivery) (m : List (NodeId × PeerDelivery))
    → Delivers peers m
    → Assoc.lookup k m ≡ some d
    → DeliveryOk d
lookup-DeliveryOk peers k d m v e = Assoc.AllValues-lookup DeliveryOk k m d v.all_ok e

pub Flushed-Delivers :
    (peers : List NodeId) {s : ControllerSession}
    {o : ControllerSession × Result Actions ControllerError}
    → Flushed s o
    → Delivers peers s.deliveries
    → Delivers peers o.0.deliveries
Flushed-Delivers peers (nothing e) v = v
Flushed-Delivers peers (dropped e) v = v
Flushed-Delivers peers (unknown far e) v = v
Flushed-Delivers peers (blocked far d e k) v = v
Flushed-Delivers peers (exhausted d e k) v = v
Flushed-Delivers peers {s} (sent far d e idle room full) v =
    insert-Delivers peers s.focus (sent_delivery d) s.deliveries
      (sent_delivery-DeliveryOk d (lookup-DeliveryOk peers s.focus d s.deliveries v e) idle room) v

pub flush-Delivers :
    (peers : List NodeId) (s : ControllerSession)
    → Delivers peers s.deliveries
    → Delivers peers (flush s).0.deliveries
flush-Delivers peers s v = Flushed-Delivers peers (flush-Flushed s) v

acknowledged-DeliveryOk :
    (n : ℕ) (d : PeerDelivery)
    → n ≤ d.last_sent
    → d.last_acknowledged < n
    → DeliveryOk d
    → DeliveryOk (record d { last_acknowledged = n; pending = pop_through n d.pending })
unfolding pop_through
acknowledged-DeliveryOk n d known_ new_ v = ground arith

pub acknowledge-Delivers :
    (peers : List NodeId) (peer : NodeId) (n : ℕ) (s : ControllerSession)
    → Delivers peers s.deliveries
    → Delivers peers (acknowledge peer n s).0.deliveries
unfolding acknowledge
acknowledge-Delivers peers peer n s v =
    option-cases
      (λ (o : ControllerSession × Result ℕ ControllerError). Delivers peers o.0.deliveries)
      (Assoc.lookup peer s.deliveries) _ _ (λ _. v)
      λ d found.
        if-cases
          (λ (o : ControllerSession × Result ℕ ControllerError). Delivers peers o.0.deliveries)
          (ltb d.last_sent n) _ _ (λ _. v)
          λ sent_.
            if-cases
              (λ (o : ControllerSession × Result ℕ ControllerError). Delivers peers o.0.deliveries)
              (leb n d.last_acknowledged) _ _ (λ _. v)
              λ fresh.
                insert-Delivers peers peer _ s.deliveries
                  (acknowledged-DeliveryOk n d (ground arith) (ground arith)
                    (lookup-DeliveryOk peers peer d s.deliveries v found))
                  v

pub reset_peer-Delivers :
    (peers : List NodeId) (peer : NodeId) (s : ControllerSession)
    → Delivers peers s.deliveries
    → Delivers peers (reset_peer peer s).0.deliveries
unfolding reset_peer
reset_peer-Delivers peers peer s v =
    option-cases
      (λ (o : ControllerSession × Result (Unit {0}) ControllerError). Delivers peers o.0.deliveries)
      (Assoc.lookup peer s.deliveries) _ _ (λ _. v)
      (λ d found. insert-Delivers peers peer new_delivery s.deliveries new_delivery-DeliveryOk v)

-- On sound deliveries an acknowledgement of a peer up to a sequence that was sent is answered by
-- the number of batches that it completes: one, and the window opens, if it is the sequence under
-- way, and none, and nothing changes, if it was acknowledged before. One beyond what was sent is
-- refused and changes nothing.
pub acknowledge_lem :
    (peers : List NodeId) (peer : NodeId) (n : ℕ) (s : ControllerSession) (d : PeerDelivery)
    → Delivers peers s.deliveries
    → Assoc.lookup peer s.deliveries ≡ some d
    → let (t, r) = acknowledge peer n s in
      ((d.last_sent < n)
        × (t ≡ s)
        × (r ≡ err (ControllerError.acknowledgement_beyond_sent peer n d.last_sent)))
      ⊎ ((n ≤ d.last_acknowledged) × (t ≡ s) × (r ≡ ok 0))
      ⊎ ((d.pending ≡ n ∷ [])
          × (n ≡ d.last_sent)
          × (Assoc.lookup peer t.deliveries
              ≡ some (record { last_sent = n; last_acknowledged = n; pending = [] }))
          × (r ≡ ok 1))
unfolding acknowledge
acknowledge_lem peers peer n s d v found = ground (
  arith,
  lookup-DeliveryOk peers peer d s.deliveries v found,
  node_eq.eq_iff peer peer,
  Assoc.lookup-insert peer peer
      (record { last_sent = d.last_sent; last_acknowledged = n; pending = pop_through n d.pending })
      s.deliveries,
)
