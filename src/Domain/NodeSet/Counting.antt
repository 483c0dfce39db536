-- ===== src/Domain/NodeSet/Counting.antt =====
-- How often a node stands in a list, and that a set holds it no more often.
use tevir.Prelude.{
  ℕ, ◌+◌, ◌≤◌, ◌≡◌, ◌≢◌, refl, Bool, List, [], ◌∷◌, map, filter, All, Bool-cases, inl, inr, subst,
  ◌==◌, if◌then◌else◌, arith,
}
use tevir.Domain.Identity.{NodeId, node_eq}
use tevir.Domain.Placement.{ScreenPlacement}
use tevir.Domain.Topology.Checks.{DistinctNodes}
use tevir.Domain.NodeSet.{insert, collect}

abbrev pub count : NodeId → List NodeId → ℕ
count node [] = 0
count node (n ∷ ns) = (if n == node then 1 else 0) + count node ns

count-insert : (node n : NodeId) (ns : List NodeId) → count node (insert n ns) ≤ count node (n ∷ ns)
unfolding insert
count-insert node n [] = omega arith
count-insert node n (m ∷ ns) = ground (arith, count-insert node n ns)

pub count-collect : (node : NodeId) (ns : List NodeId) → count node (collect ns) ≤ count node ns
unfolding collect
count-collect node [] = omega arith
count-collect node (n ∷ ns) =
    ground (arith, count-insert node n (collect ns), count-collect node ns)

count-none :
    (node : NodeId) (keep : ScreenPlacement → Bool) (ss : List ScreenPlacement)
    → All (λ c. c.node ≢ node) ss
    → count node (map (λ s. s.node) (filter keep ss)) ≡ 0
unfolding filter
count-none node keep [] h = refl
count-none node keep (s ∷ ss) h =
    ground (arith, count-none node keep ss h.1, node_eq.eq_iff s.node node, h.0)

-- Of screens of distinct nodes a node has one at most.
pub count-Distinct :
    (node : NodeId) (keep : ScreenPlacement → Bool) (ss : List ScreenPlacement)
    → DistinctNodes ss
    → count node (map (λ s. s.node) (filter keep ss)) ≤ 1
unfolding filter
count-Distinct node keep [] h = omega arith
count-Distinct node keep (s ∷ ss) h = elim (Bool-cases (s.node == node)) [
  | inl same ↦
      let none_ = count-none s.node keep ss h.0 in
      let here = (node_eq.eq_iff s.node node).0 same in
      let moved = subst (λ n. count n (map (λ c. c.node) (filter keep ss)) ≡ 0) here none_ in
      ground (arith, moved)
  | inr apart ↦ ground (arith, count-Distinct node keep ss h.1)
]
