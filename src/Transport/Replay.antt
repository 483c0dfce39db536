-- ===== src/Transport/Replay.antt =====
-- crates/transport/src/replay.rs. The `HashSet` is a list that no order is read of.
mod Queue
pub mod Window
mod Examples
use tevir.Prelude.{
  ℕ, Bool, true, false, not, List, [], ◌∷◌, ◌++◌, length, any, filter, ltb, ◌==◌, PartialEq,
  derived_eq, ℕ_discrete, if◌then◌else◌,
}
use tevir.Domain.Identity.{NodeId}

abbrev pub default_replay_capacity : ℕ
default_replay_capacity = 1024

-- The pair of a node and a nonce.
pub record ReplayEntry : Type 0 where
  pub node : NodeId
  pub nonce : List ℕ

unfoldable pub ReplayEntry-discrete : Discrete ReplayEntry
unfolding ℕ_discrete
ReplayEntry-discrete = hlevel ℕ_discrete

instance abbrev pub replay_entry_eq : PartialEq ReplayEntry
replay_entry_eq = derived_eq ReplayEntry-discrete

pub record ReplayGuard : Type 0 where
  pub capacity : ℕ
  pub order : List ReplayEntry
  pub entries : List ReplayEntry

-- `HashSet::contains` and `remove`.
unfoldable pub has_entry : List ReplayEntry → ReplayEntry → Bool
has_entry entries entry = any (λ e. e == entry) entries

unfoldable pub remove_entry : ReplayEntry → List ReplayEntry → List ReplayEntry
remove_entry entry entries = filter (λ e. not (e == entry)) entries

unfoldable pub new : ReplayGuard
new = record { capacity = default_replay_capacity; order = []; entries = [] }

-- The `if` with `pop_front` behind `push_back`.
unfoldable pub expire : ReplayGuard → ReplayGuard
unfolding remove_entry
expire g =
    if ltb g.capacity (length g.order)
    then elim (g.order) [
      | [] ↦ g
      | expired ∷ rest ↦ record g { order = rest; entries = remove_entry expired g.entries }
    ]
    else g

unfoldable pub admit : ReplayGuard → NodeId → List ℕ → ReplayGuard × Bool
unfolding has_entry expire
admit g node nonce =
    let entry : ReplayEntry = record { node = node; nonce = nonce } in
    if has_entry g.entries entry
    then (g, false)
    else (expire (record g { order = g.order ++ entry ∷ []; entries = entry ∷ g.entries }), true)
