-- ===== src/Runtime/Edges/Captured.antt =====
-- Which edges the pointer is captured at.
use mathlib.Core.List.{Memᴰ}
use tevir.Prelude.{
  ℕ, ◌≡◌, ◌↔◌, refl, sym, subst, Bool, Bool-cases, true, false, List, [], ◌∷◌, filter, All,
  Option-cases, inl, inr, arith, is_some, some,
}
use tevir.Domain.Identity.{NodeId}
use tevir.Domain.Edge.{Edge}
use tevir.Domain.Topology.{Topology, Transition, transition}
use tevir.Domain.Topology.Accepted.{IsArrangement}
use tevir.Domain.Topology.Crossing.{HasArea}
use tevir.Runtime.Config.{EdgeBehavior, active_interval}
use tevir.Runtime.Edges.{adjacent_target, activation_target, capture_edges}
use tevir.Runtime.Edges.Reaching.{adjacent_crosses, crosses_active}

kept :
    (p : Edge → Bool) (e : Edge) (es : List Edge) → p e ≡ true → e ∷ filter p es ≡ filter p (e ∷ es)
unfolding filter
kept p e es h = ground arith

dropped :
    (p : Edge → Bool) (e : Edge) (es : List Edge) → p e ≡ false → filter p es ≡ filter p (e ∷ es)
unfolding filter
dropped p e es h = ground arith

-- An edge is in the filtered list exactly if it is in the list and passes the test.
Memᴰ-filter :
    (p : Edge → Bool) (edge : Edge) (edges : List Edge)
    → Memᴰ edge edges
    → p edge ≡ true
    → Memᴰ edge (filter p edges)
Memᴰ-filter p edge [] m h = elim m [ ]
Memᴰ-filter p edge (e ∷ es) (Memᴰ.head same) h =
    subst (Memᴰ edge) (kept p e es (subst (λ x. p x ≡ true) same h)) (Memᴰ.head same)
Memᴰ-filter p edge (e ∷ es) (Memᴰ.tail m) h =
    let rest = Memᴰ-filter p edge es m h in
    elim (Bool-cases (p e)) [
      | inl met ↦ subst (Memᴰ edge) (kept p e es met) (Memᴰ.tail rest)
      | inr unmet ↦ subst (Memᴰ edge) (dropped p e es unmet) rest
    ]

none_there : (p : Edge → Bool) (edge : Edge) → Memᴰ edge (filter p []) → ⊥
unfolding filter
none_there p edge m = elim m [ ]

filtered_tail :
    (p : Edge → Bool) (edge e : Edge) (es : List Edge)
    → p e ≡ true
    → (Memᴰ edge (filter p es) → p edge ≡ true)
    → Memᴰ edge (e ∷ filter p es)
    → p edge ≡ true
filtered_tail p edge e es met k (Memᴰ.head same) = subst (λ x. p x ≡ true) (sym same) met
filtered_tail p edge e es met k (Memᴰ.tail m) = k m

filter-Memᴰ :
    (p : Edge → Bool) (edge : Edge) (edges : List Edge) → Memᴰ edge (filter p edges) → p edge ≡ true
filter-Memᴰ p edge [] m = absurd (none_there p edge m)
filter-Memᴰ p edge (e ∷ es) m = elim (Bool-cases (p e)) [
  | inl met ↦
      filtered_tail p edge e es met (filter-Memᴰ p edge es)
        (subst (Memᴰ edge) (sym (kept p e es met)) m)
  | inr unmet ↦ filter-Memᴰ p edge es (subst (Memᴰ edge) (sym (dropped p e es unmet)) m)
]

every_edge : (edge : Edge) → Memᴰ edge (Edge.left ∷ Edge.right ∷ Edge.top ∷ Edge.bottom ∷ [])
every_edge Edge.left = Memᴰ.head refl
every_edge Edge.right = Memᴰ.tail (Memᴰ.head refl)
every_edge Edge.top = Memᴰ.tail (Memᴰ.tail (Memᴰ.head refl))
every_edge Edge.bottom = Memᴰ.tail (Memᴰ.tail (Memᴰ.tail (Memᴰ.head refl)))

crossing_of :
    (t : Topology) (local_node : NodeId) (edge : Edge)
    → All HasArea t.screens
    → IsArrangement t.screens
    → is_some (adjacent_target t local_node edge) ≡ true
    → (offset : ℕ) × (r : Transition) × (transition t local_node edge offset ≡ some r)
crossing_of t local_node edge area a h = elim (Option-cases (adjacent_target t local_node edge)) [
  | inl nowhere ↦ absurd (ground arith)
  | inr ((target, offset), e) ↦
      let (r, went, _) = adjacent_crosses t local_node edge target offset area a e in
      (offset, r, went)
]

-- In a topology of screens that are an arrangement without empty sides, the pointer is captured at
-- exactly those edges of a node's desktop that have an active interval in the settings and over which
-- the topology has a transition, at whatever offset.
pub capture_edges_lem :
    {F64 : Type 0} (offset_at : F64 → ℕ → ℕ) (t : Topology) (local_node : NodeId)
    (edge_behavior : EdgeBehavior) (edge : Edge)
    → All HasArea t.screens
    → IsArrangement t.screens
    → Memᴰ edge (capture_edges offset_at t local_node edge_behavior) ↔ (
        (is_some (active_interval edge_behavior edge) ≡ true)
        × ((offset : ℕ) × (r : Transition) × (transition t local_node edge offset ≡ some r)))
unfolding capture_edges activation_target
capture_edges_lem offset_at t local_node edge_behavior edge area a = (
  λ m.
      let passed = filter-Memᴰ _ edge _ m in
      (ground arith, crossing_of t local_node edge area a (ground arith)),
  λ (active, (offset, r, went)).
      Memᴰ-filter _ edge _ (every_edge edge)
        (ground (arith, active, crosses_active t local_node edge offset r a went)),
)
