-- ===== src/Session/Agent/Calls.antt =====
-- The calls that the runtime makes on an agent session, as data, and sequences of them.
use tevir.Prelude.{ℕ, List, [], ◌∷◌, ◌++◌, Result, ok}
use tevir.Domain.Geometry.{Size}
use tevir.Protocol.Message.{Session}
use tevir.Session.Agent.{
  AgentSession, AgentAction, AgentError, Outcome, handle, confirm_applied, reconcile_display,
  connection_lost,
}

pub data Call : Type 0 where
  handles : Session → Call
  confirms : (sequence : ℕ) → Call
  reconciles : (display_size : Size) → Call
  loses : Call

unfoldable pub step : AgentSession → Call → Outcome
unfolding connection_lost
step s (handles message) = handle s message
step s (confirms sequence) = confirm_applied s sequence
step s (reconciles size) = let (s', actions) = reconcile_display s size in (s', ok actions)
step s loses = let (s', actions) = connection_lost s in (s', ok actions)

unfoldable pub run : AgentSession → List Call → AgentSession
run s [] = s
run s (c ∷ cs) = run (step s c).0 cs

-- The batches that a call confirms as applied.
abbrev pub confirmed : Call → Result (List AgentAction) AgentError → List ℕ
confirmed (confirms sequence) (ok actions) = sequence ∷ []
confirmed _ _ = []

unfoldable pub applied : AgentSession → List Call → List ℕ
applied s [] = []
applied s (c ∷ cs) = confirmed c (step s c).1 ++ applied (step s c).0 cs
