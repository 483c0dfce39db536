-- ===== src/Runtime/Channel.antt =====
-- What the code relies on of a bounded channel of its asynchronous runtime, from the sender's side: the
-- messages that it took, and how many more it takes. `try_send` takes a message while there is room and
-- fails otherwise. The receiver makes room, or closes the channel, which then has none: that is the
-- environment's, and `with_room` is what it leaves.
use tevir.Prelude.{ℕ, zero, suc, Option, none, some, List, [], ◌∷◌, ◌++◌}

pub record Sender (A : Type 0) : Type 0 where
  pub sent : List A
  pub room : ℕ

abbrev pub channel : {A : Type 0} → ℕ → Sender A
channel capacity = record { sent = []; room = capacity }

unfoldable pub try_send : {A : Type 0} → A → Sender A → Option (Sender A)
try_send message s = elim (s.room) [
  | zero ↦ none
  | suc room ↦ some (record { sent = s.sent ++ (message ∷ []); room = room })
]

-- What the receiver leaves: it has taken messages, or is gone. The room counts what it takes until its next turn.
abbrev pub with_room : {A : Type 0} → ℕ → Sender A → Sender A
with_room room s = record s { room = room }
