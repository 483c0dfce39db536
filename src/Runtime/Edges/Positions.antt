-- ===== src/Runtime/Edges/Positions.antt =====
-- Where an edge leads, with or without a position on it.
use tevir.Prelude.{ℕ, ◌-◌, ◌≡◌, All, Option, some, none, Option-cases, inl, inr, arith}
use tevir.Domain.Identity.{NodeId}
use tevir.Domain.Edge.{Edge}
use tevir.Domain.Topology.{Topology, Transition, screen, transition}
use tevir.Domain.Topology.Accepted.{IsArrangement}
use tevir.Domain.Topology.Crossing.{HasArea}
use tevir.Runtime.Edges.{activation_target, edge_size}
use tevir.Runtime.Edges.Reaching.{adjacent_crosses}

-- In a topology of screens that are an arrangement without empty sides: if an edge of a node's desktop
-- leads to a target, with or without a position on the edge and however a position is rounded, then the
-- offset that it gives is one at which the topology has a transition over that edge, and the transition
-- leads to that target.
pub activation_crosses :
    {F64 : Type 0} (offset_at : F64 → ℕ → ℕ) (t : Topology) (local_node : NodeId) (edge : Edge)
    (edge_position : Option F64) (target : NodeId) (offset : ℕ)
    → All HasArea t.screens
    → IsArrangement t.screens
    → activation_target offset_at t local_node edge edge_position ≡ some (target, offset)
    → (r : Transition) × (transition t local_node edge offset ≡ some r) × (r.target ≡ target)
unfolding activation_target
activation_crosses offset_at t local_node edge none target offset area a h =
    adjacent_crosses t local_node edge target offset area a h
activation_crosses offset_at t local_node edge (some p) target offset area a h =
    elim (Option-cases (screen t local_node)) [
      | inl absent ↦ absurd (ground arith)
      | inr (source, here) ↦
          elim (Option-cases
            (transition t local_node edge (offset_at p (edge_size edge source - 1)))) [
              | inl missed ↦ absurd (ground arith)
              | inr (r, e) ↦ (r, ground arith, ground arith)
            ]
    ]
