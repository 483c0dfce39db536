-- ===== src/Session/Exchange/Examples.antt =====
-- The theorems on a controller and an agent at the first batch of a capture.
use tevir.Prelude.{◌≡◌, refl, none, some, [], ◌∷◌, ok, false, pos, arith}
use tevir.Prelude.Assoc
use tevir.Domain.Identity.{NodeId-discrete, node_eq}
use tevir.Domain.Geometry.{Point}
use tevir.Protocol.Message.{Session}
use tevir.Session.Agent.{AgentSession, AgentAction, contains_local, handle, confirm_applied}
use tevir.Session.Agent.Invariant.{IsValid as AgentValid}
use tevir.Session.Controller.{PeerDelivery, ControllerAction, new_delivery, flush, acknowledge}
use tevir.Session.Controller.Flush.{next_batch}
use tevir.Session.Scenario.{agent, full_hd, captured, captured-IsValid, nodes_differ}
use tevir.Session.Exchange.{FlushResult, InStep, flush_lem, round_trip}

abbrev entry : Point
entry = record { x = pos 0; y = pos 100 }

-- The agent after the message of the controller's new focus.
abbrev focused : AgentSession
focused = record {
  local_node = agent;
  display_size = full_hd;
  highest_focus_epoch = 2;
  active_focus_epoch = some 2;
  last_focus = some (record { epoch = 2; target = agent; entry_position = entry });
  last_applied_sequence = 0;
  pending_batch = none;
  closed = false;
}

focused-IsValid : AgentValid focused
unfolding contains_local
focused-IsValid = ground arith

idle_known : Assoc.lookup agent captured.deliveries ≡ some new_delivery
unfolding Assoc.lookup NodeId-discrete
idle_known = refl

in_step : InStep captured focused new_delivery
in_step = record {
  controller_valid = captured-IsValid;
  agent_valid = focused-IsValid;
  remote = nodes_differ;
  delivery = idle_known;
  window_open = refl;
  agreed = refl;
  agent_open = refl;
  epoch = refl;
  agent_idle = refl;
}

flush_lem_example :
    (d : PeerDelivery) × (Assoc.lookup agent captured.deliveries ≡ some d)
    × FlushResult captured d (flush captured)
flush_lem_example = flush_lem captured captured-IsValid nodes_differ

round_trip_example :
    let batch = next_batch captured new_delivery in
    let flushed = flush captured in
    let received = handle focused (Session.input batch) in
    let confirmed = confirm_applied received.0 batch.sequence in
    let acknowledged = acknowledge agent batch.sequence flushed.0 in
    (flushed.1 ≡ ok (ControllerAction.send agent (Session.input batch) ∷ []))
    × (received.1 ≡ ok (AgentAction.apply_input batch ∷ []))
    × (confirmed.1 ≡ ok (AgentAction.send (Session.input_acknowledged batch.sequence) ∷ []))
    × (acknowledged.1 ≡ ok 1)
    × (acknowledged.0.buffer.events ≡ [])
    × InStep acknowledged.0 confirmed.0
        (record { last_sent = batch.sequence; last_acknowledged = batch.sequence; pending = [] })
round_trip_example = round_trip captured focused new_delivery in_step (ground arith) (omega arith)
