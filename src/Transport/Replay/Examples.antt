-- ===== src/Transport/Replay/Examples.antt =====
-- The guard's test, and its theorem after two attempts.
use tevir.Prelude.{ℕ, any, ◌≡◌, refl, false, not, List, [], ◌∷◌}
use tevir.Transport.Replay.{
  ReplayEntry, ReplayEntry-discrete, default_replay_capacity, has_entry, new, admit,
}
use tevir.Transport.Replay.Queue.{recent}
use tevir.Transport.Replay.Window.{run, admitted, admit_lem}

abbrev attempt : ℕ → ReplayEntry
attempt n = record { node = record { value = b'r' ∷ [] }; nonce = n ∷ [] }

abbrev attempts : List ReplayEntry
attempts = attempt 3 ∷ attempt 3 ∷ attempt 4 ∷ []

replay_refused : (admit (run new attempts) (attempt 3).node (attempt 3).nonce).1 ≡ false
unfolding run admit new ReplayEntry-discrete any
replay_refused = refl

admit_lem_example :
    (admit (run new attempts) (attempt 3).node (attempt 3).nonce).1
    ≡ not (has_entry (recent default_replay_capacity (admitted new attempts)) (attempt 3))
admit_lem_example = admit_lem attempts (attempt 3)
