-- ===== src/Domain/NodeSet/Membership.antt =====
-- The elements of the sets that `insert`, `collect` and `union` make.
use Prim.Native.Nat.{Ordering}
use tevir.Prelude.{ℕ, ◌≡◌, refl, Bool, ◌||◌, List, [], ◌∷◌, any, ◌==◌, arith}
use tevir.Domain.Identity.{NodeId, node_eq}
use tevir.Domain.NodeSet.{compare_bytes, insert, collect, union}

abbrev pub has : List NodeId → NodeId → Bool
has set node = any (λ n. n == node) set

compare_bytes-eq : (as_ bs : List ℕ) → compare_bytes as_ bs ≡ Ordering.eq → as_ ≡ bs
unfolding compare_bytes
compare_bytes-eq [] [] h = refl
compare_bytes-eq [] (b ∷ bs) h = ground arith
compare_bytes-eq (a ∷ as_) [] h = ground arith
compare_bytes-eq (a ∷ as_) (b ∷ bs) h = ground (arith, compare_bytes-eq as_ bs)

pub has-insert :
    (node k : NodeId) (set : List NodeId) → has (insert node set) k ≡ ((node == k) || has set k)
unfolding insert any
has-insert node k [] = ground arith
has-insert node k (n ∷ ns) =
    ground (arith, compare_bytes-eq node.value n.value, has-insert node k ns)

pub has-collect : (ns : List NodeId) (k : NodeId) → has (collect ns) k ≡ has ns k
unfolding collect any
has-collect [] k = refl
has-collect (n ∷ ns) k = ground (arith, has-insert n k (collect ns), has-collect ns k)

pub has-union : (ns ms : List NodeId) (k : NodeId) → has (union ns ms) k ≡ (has ns k || has ms k)
unfolding union any
has-union [] ms k = refl
has-union (n ∷ ns) ms k = ground (arith, has-insert n k (union ns ms), has-union ns ms k)
