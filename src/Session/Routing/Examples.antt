-- ===== src/Session/Routing/Examples.antt =====
-- The theorems on the controller's session at states of a capture.
use tevir.Prelude.{◌≡◌, ◌<◌, ◌≤◌, ◌⊎◌, refl, none, some, List, [], ◌∷◌, ok, err, arith, find}
use tevir.Prelude.Assoc
use tevir.Domain.Identity.{NodeId-discrete, node_eq}
use tevir.Domain.Edge.{Edge}
use tevir.Domain.Placement.{single}
use tevir.Domain.Topology.{screen}
use tevir.Session.Scenario.{
  controller, agent, desk, alone, left_screen, event, motion, opened, opened_reached, captured,
  nodes_differ,
}
use tevir.Session.Controller.{ControllerSession, ControllerError, PeerDelivery, flush, acknowledge}
use tevir.Session.Controller.Delivery.{Delivers, acknowledge_lem}
use tevir.Session.Controller.Invariant.{IsValid}
use tevir.Session.Routing.{reconcile_topology}
use tevir.Session.Routing.Calls.{
  Call, activates, routes, flushes, acknowledges, returns, reconciles, run, opened-IsValid,
}
use tevir.Session.Routing.Stranding.{reconcile_strands_input}

-- One batch is under way.
abbrev busy : PeerDelivery
busy = record { last_sent = 1; last_acknowledged = 0; pending = 1 ∷ [] }

-- A batch is under way to the agent while a further event is in the buffer.
abbrev waiting : ControllerSession
waiting = record captured { deliveries = (agent, busy) ∷ [] }

busy_known : Assoc.lookup agent waiting.deliveries ≡ some busy
unfolding Assoc.lookup NodeId-discrete
busy_known = refl

waiting-Delivers : Delivers (agent ∷ []) waiting.deliveries
unfolding Assoc.lookup NodeId-discrete
waiting-Delivers = record { all_ok = (ground arith, tt); known = (refl, tt) }

acknowledge_lem_example :
    let (t, r) = acknowledge agent 1 waiting in
    ((1 < 1) × (t ≡ waiting) × (r ≡ err (ControllerError.acknowledgement_beyond_sent agent 1 1)))
    ⊎ ((1 ≤ 0) × (t ≡ waiting) × (r ≡ ok 0))
    ⊎ ((busy.pending ≡ 1 ∷ [])
        × (1 ≡ busy.last_sent)
        × (Assoc.lookup agent t.deliveries
            ≡ some (record { last_sent = 1; last_acknowledged = 1; pending = [] }))
        × (r ≡ ok 1))
acknowledge_lem_example =
    acknowledge_lem (agent ∷ []) agent 1 waiting busy waiting-Delivers busy_known

abbrev calls : List Call
calls =
    activates Edge.right 100
    ∷ routes event
    ∷ flushes
    ∷ routes (motion 2)
    ∷ acknowledges agent 1
    ∷ reconciles alone
    ∷ returns
    ∷ []

opened-IsValid_example : IsValid (run opened calls)
opened-IsValid_example = opened-IsValid desk controller opened calls opened_reached

local_stays : screen alone controller ≡ some left_screen
unfolding screen find single NodeId-discrete
local_stays = refl

agent_gone : screen alone agent ≡ none
unfolding screen find single NodeId-discrete
agent_gone = refl

reconcile_strands_input_example :
    let t = (reconcile_topology alone waiting).0 in
    (t.focus ≡ controller)
    × (t.buffer ≡ waiting.buffer)
    × ((flush t).1 ≡ err ControllerError.input_while_local)
reconcile_strands_input_example =
    reconcile_strands_input waiting busy alone left_screen nodes_differ busy_known (ground arith)
      (ground arith) local_stays agent_gone
