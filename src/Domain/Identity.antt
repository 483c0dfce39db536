-- ===== src/Domain/Identity.antt =====
-- crates/domain/src/identity.rs. A Rust `String` is a list of bytes.
pub mod Syntax
use tevir.Prelude.{ℕ, List, PartialEq, derived_eq, ℕ_discrete}

pub record NodeId : Type 0 where
  pub value : List ℕ

unfoldable pub NodeId-discrete : Discrete NodeId
unfolding ℕ_discrete
NodeId-discrete = hlevel ℕ_discrete

instance abbrev pub node_eq : PartialEq NodeId
node_eq = derived_eq NodeId-discrete
