-- ===== src/Runtime/Agent/Retrying.antt =====
-- crates/tevir/src/runtime.rs: the loop of `run_agent`, which connects again and again. A round of it is what
-- the environment chooses: how connecting went, how the connection ended, and whether a command stopped the
-- wait.
use tevir.Prelude.{
  ℕ, ◌+◌, ◌≤◌, ◌≡◌, Bool, false, none, some, List, [], ◌∷◌, Result, ok, err, All, min, leb, u32_max,
  if◌then◌else◌, arith,
}
use tevir.Domain.Identity.{NodeId}
use tevir.Transport.Reconnect.{ReconnectPolicy, delay_before}
use tevir.Runtime.Controller.{RuntimeError}
use tevir.Runtime.Agent.{AgentConnectionOutcome}

pub data Round : Type 0 where
  stopped other_command : Round
  refused : (stops : Bool) → Round
  served : Result AgentConnectionOutcome RuntimeError → (stops : Bool) → Round

-- Where the loop is after a round: before another attempt, or ended.
pub data Progress : Type 0 where
  retries : (attempt : ℕ) → Progress
  ends : Result (Unit {0}) RuntimeError → Progress

-- The wait before the next attempt.
unfoldable pub wait : NodeId → ReconnectPolicy → ℕ → Bool → Progress
unfolding delay_before
wait controller_node reconnect attempt stops = elim (delay_before reconnect attempt) [
  | none ↦ Progress.ends (err (RuntimeError.reconnect_exhausted controller_node))
  | some delay ↦
      if stops then Progress.ends (ok tt) else Progress.retries (min (attempt + 1) u32_max)
]

unfoldable pub round : NodeId → ReconnectPolicy → ℕ → Round → Progress
unfolding wait
round controller_node reconnect attempt Round.stopped = Progress.ends (ok tt)
round controller_node reconnect attempt Round.other_command = Progress.retries attempt
round controller_node reconnect attempt (Round.refused stops) =
    wait controller_node reconnect attempt stops
round controller_node reconnect attempt (Round.served (err e) stops) = Progress.ends (err e)
round controller_node reconnect attempt (Round.served (ok AgentConnectionOutcome.stopped) stops) =
    Progress.ends (ok tt)
round controller_node reconnect attempt
      (Round.served (ok AgentConnectionOutcome.disconnected) stops) =
    wait controller_node reconnect 0 stops

unfoldable pub run_agent : NodeId → ReconnectPolicy → ℕ → List Round → Progress
run_agent controller_node reconnect attempt [] = Progress.retries attempt
run_agent controller_node reconnect attempt (next ∷ rounds) =
    elim (round controller_node reconnect attempt next) [
      | Progress.retries a ↦ run_agent controller_node reconnect a rounds
      | Progress.ends result ↦ Progress.ends result
    ]

-- Rounds in which the controller cannot be reached, and nobody stops the agent.
abbrev pub IsUnreachable : Round → Type 0
IsUnreachable Round.stopped = ⊥
IsUnreachable Round.other_command = Unit
IsUnreachable (Round.refused stops) = stops ≡ false
IsUnreachable (Round.served outcome stops) = ⊥

unfoldable pub count_refused : List Round → ℕ
count_refused [] = 0
count_refused (Round.stopped ∷ rounds) = count_refused rounds
count_refused (Round.other_command ∷ rounds) = count_refused rounds
count_refused (Round.refused stops ∷ rounds) = 1 + count_refused rounds
count_refused (Round.served outcome stops ∷ rounds) = count_refused rounds

-- While the controller cannot be reached and nobody stops the agent, the agent goes on through as many failed
-- attempts as the policy has left, and one more ends it with the error that they are exhausted.
pub unreachable_ends :
    (controller_node : NodeId) (reconnect : ReconnectPolicy) (attempt : ℕ) (rounds : List Round)
    → attempt ≤ reconnect.maximum_attempts
    → reconnect.maximum_attempts ≤ u32_max
    → All IsUnreachable rounds
    → run_agent controller_node reconnect attempt rounds ≡ (
        if leb (attempt + count_refused rounds) reconnect.maximum_attempts
        then Progress.retries (attempt + count_refused rounds)
        else Progress.ends (err (RuntimeError.reconnect_exhausted controller_node)))
unfolding run_agent round wait delay_before count_refused
unreachable_ends controller_node reconnect attempt [] fits small h = ground arith
unreachable_ends controller_node reconnect attempt (Round.stopped ∷ rounds) fits small h =
    absurd h.0
unreachable_ends controller_node reconnect attempt (Round.other_command ∷ rounds) fits small h =
    unreachable_ends controller_node reconnect attempt rounds fits small h.1
unreachable_ends controller_node reconnect attempt (Round.refused stops ∷ rounds) fits small h =
    ground (arith, unreachable_ends controller_node reconnect (attempt + 1) rounds)
unreachable_ends controller_node reconnect attempt (Round.served outcome stops ∷ rounds) fits small
      h =
    absurd h.0
