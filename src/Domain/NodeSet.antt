-- ===== src/Domain/NodeSet.antt =====
-- `BTreeSet<NodeId>`: the derived order of node identifiers compares their bytes, and a set is the
-- sorted list of its elements, which is the order of its iteration.
pub mod Membership
pub mod Counting
use Prim.Native.Nat.{compare, Ordering}
use tevir.Prelude.{ℕ, List, [], ◌∷◌, map}
use tevir.Domain.Identity.{NodeId}

unfoldable pub compare_bytes : List ℕ → List ℕ → Ordering
compare_bytes [] [] = Ordering.eq
compare_bytes [] (b ∷ bs) = Ordering.lt
compare_bytes (a ∷ as_) [] = Ordering.gt
compare_bytes (a ∷ as_) (b ∷ bs) = elim (compare a b) [
  | Ordering.lt ↦ Ordering.lt
  | Ordering.eq ↦ compare_bytes as_ bs
  | Ordering.gt ↦ Ordering.gt
]

unfoldable pub insert : NodeId → List NodeId → List NodeId
unfolding compare_bytes
insert node [] = node ∷ []
insert node (n ∷ ns) = elim (compare_bytes node.value n.value) [
  | Ordering.lt ↦ node ∷ n ∷ ns
  | Ordering.eq ↦ n ∷ ns
  | Ordering.gt ↦ n ∷ insert node ns
]

-- `collect` into a set, and `union`.
unfoldable pub collect : List NodeId → List NodeId
unfolding insert
collect [] = []
collect (n ∷ ns) = insert n (collect ns)

unfoldable pub union : List NodeId → List NodeId → List NodeId
unfolding insert
union [] ms = ms
union (n ∷ ns) ms = insert n (union ns ms)
