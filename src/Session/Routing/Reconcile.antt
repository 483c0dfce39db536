-- ===== src/Session/Routing/Reconcile.antt =====
-- The deliveries after a change of topology: exactly the new peers have one, and a peer that stays
-- keeps its own.
use tevir.Prelude.{
  ◌≡◌, refl, true, List, [], ◌∷◌, All, any, is_some, is_none, ◌==◌, none, some, if-cases, arith,
  if◌then◌else◌,
}
use tevir.Prelude.Assoc
use tevir.Prelude.Assoc.{AllValues}
use tevir.Domain.Identity.{NodeId, node_eq}
use tevir.Domain.NodeSet
use tevir.Domain.NodeSet.Membership.{has, has-collect}
use tevir.Session.Controller.Delivery.{
  DeliveryOk, Delivers, insert-Delivers, new_delivery-DeliveryOk,
}
use tevir.Session.Controller.{PeerDelivery, new_delivery, default_deliveries}
use tevir.Session.Routing.{add_defaults, reconcile_deliveries}

-- What `add_defaults` leaves under a key: the old delivery, or a new one for a listed node.
pub lookup-add_defaults :
    (nodes : List NodeId) (k : NodeId) (m : List (NodeId × PeerDelivery))
    → Assoc.lookup k (add_defaults nodes m) ≡ (
        if is_some (Assoc.lookup k m)
        then Assoc.lookup k m
        else if has nodes k
        then some new_delivery
        else none)
unfolding add_defaults any
lookup-add_defaults [] k m = elim (Assoc.lookup k m) as (λ o. o ≡ (if is_some o then o else none)) [
  | none ↦ refl
  | some d ↦ refl
]
lookup-add_defaults (n ∷ ns) k m = ground (
  arith,
  lookup-add_defaults ns k m,
  lookup-add_defaults ns k (Assoc.insert n new_delivery m),
  Assoc.lookup-insert n k new_delivery m,
  node_eq.eq_iff n k,
)

add_defaults-Delivers :
    (nodes : List NodeId) (m : List (NodeId × PeerDelivery))
    → Delivers [] m
    → Delivers [] (add_defaults nodes m)
unfolding add_defaults
add_defaults-Delivers [] m v = v
add_defaults-Delivers (n ∷ ns) m v = add_defaults-Delivers ns _ (
    if-cases (Delivers []) (is_none (Assoc.lookup n m)) (Assoc.insert n new_delivery m) m
      (λ _. insert-Delivers [] n new_delivery m new_delivery-DeliveryOk v) (λ _. v))

-- Of a change to the peers `collect peers`: a node has a delivery afterwards exactly if it is one of
-- the new peers, and it is the delivery that it had before, or a new one if it had none.
pub lookup-reconcile :
    (peers : List NodeId) (k : NodeId) (m : List (NodeId × PeerDelivery))
    → Assoc.lookup k (reconcile_deliveries (NodeSet.collect peers) m) ≡ (
        if has peers k
        then (if is_some (Assoc.lookup k m) then Assoc.lookup k m else some new_delivery)
        else none)
unfolding reconcile_deliveries
lookup-reconcile peers k m = ground (
  arith,
  lookup-add_defaults (NodeSet.collect peers) k
      (Assoc.retain (λ node. any (λ p. p == node) (NodeSet.collect peers)) m),
  Assoc.lookup-retain (λ node. any (λ p. p == node) (NodeSet.collect peers)) k m,
  has-collect peers k,
)

has_self : (k : NodeId) (rest : List NodeId) → has (k ∷ rest) k ≡ true
unfolding any
has_self k rest = ground (arith, node_eq.eq_iff k k)

has_later : (n k : NodeId) (rest : List NodeId) → has rest k ≡ true → has (n ∷ rest) k ≡ true
unfolding any
has_later n k rest h = ground arith

known-reconcile :
    (peers : List NodeId) (m : List (NodeId × PeerDelivery)) (k : NodeId)
    → has peers k ≡ true
    → is_some (Assoc.lookup k (reconcile_deliveries (NodeSet.collect peers) m)) ≡ true
known-reconcile peers m k h = ground (arith, lookup-reconcile peers k m)

-- A predicate of all that a list has holds of all its elements.
pub All-has {ℓ} :
    (peers : List NodeId) (P : NodeId → Type ℓ)
    → ((k : NodeId) → has peers k ≡ true → P k)
    → All P peers
All-has peers P f = go peers (λ k h. h)
  where
    go : (rest : List NodeId) → ((k : NodeId) → has rest k ≡ true → has peers k ≡ true) → All P rest
    go [] sub = tt
    go (k ∷ ks) sub = (f k (sub k (has_self k ks)), go ks (λ n h. sub n (has_later k n ks h)))

pub reconcile-Delivers :
    (peers old : List NodeId) (m : List (NodeId × PeerDelivery))
    → Delivers old m
    → Delivers peers (reconcile_deliveries (NodeSet.collect peers) m)
unfolding reconcile_deliveries
reconcile-Delivers peers old m v = record {
  all_ok =
      (add_defaults-Delivers (NodeSet.collect peers) _
        (record { all_ok = Assoc.AllValues-retain DeliveryOk _ m v.all_ok; known = tt })).all_ok;
  known = All-has peers _ (known-reconcile peers m);
}

lookup-default_deliveries :
    (peers : List NodeId) (k : NodeId)
    → Assoc.lookup k (default_deliveries peers) ≡ (if has peers k then some new_delivery else none)
unfolding default_deliveries Assoc.lookup any
lookup-default_deliveries [] k = refl
lookup-default_deliveries (n ∷ ns) k = ground (arith, lookup-default_deliveries ns k)

default-AllValues : (peers : List NodeId) → AllValues DeliveryOk (default_deliveries peers)
unfolding default_deliveries
default-AllValues [] = tt
default-AllValues (n ∷ ns) = (new_delivery-DeliveryOk, default-AllValues ns)

pub default-Delivers : (peers : List NodeId) → Delivers peers (default_deliveries peers)
default-Delivers peers = record {
  all_ok = default-AllValues peers;
  known = All-has peers _ (λ k h. ground (arith, lookup-default_deliveries peers k));
}
