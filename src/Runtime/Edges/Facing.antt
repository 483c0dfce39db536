-- ===== src/Runtime/Edges/Facing.antt =====
-- The offset that two screens share on an edge, if they share one.
use tevir.Prelude.{
  All-pair, ℕ, ◌≤◌, ◌≡◌, pos, ◌+ℤ◌, ◌-ℤ◌, true, any, find_map, find_map-elim, find_map-none,
  find_map-any, any-elim, u32_max, some, none, arith,
}
use tevir.Domain.Placement.{ScreenPlacement}
use tevir.Domain.Edge.{Edge}
use tevir.Domain.Display.{edge_segments}
use tevir.Runtime.Edges.{edges_touch, opposite, start_of, shared_midpoint, shared_edge_offset}
use tevir.Runtime.Edges.Segments.{within, segments_end}
use tevir.Runtime.Edges.Midpoint.{
  Shared-within, within-Shared, midpoint_Shared, none-Shared, other_offset,
}

-- An offset is exposed on an edge of one screen and, as `j`, on the edge of the other across from it.
pub record Facing (source candidate : ScreenPlacement) (edge : Edge) (offset j : ℕ) : Type 0 where
  pub same_pixel :
      pos j ≡ start_of edge source.bounds +ℤ pos offset -ℤ start_of edge candidate.bounds
  pub exit : any (within offset) (edge_segments source.layout edge) ≡ true
  pub entry : any (within j) (edge_segments candidate.layout (opposite edge)) ≡ true

segment_entry :
    (source candidate : ScreenPlacement) (edge : Edge) (offset : ℕ) (a : ℕ × ℕ)
    → find_map
        (shared_midpoint (start_of edge source.bounds) (start_of edge candidate.bounds) a)
        (edge_segments candidate.layout (opposite edge))
      ≡ some offset
    → (within offset a ≡ true)
      × ((j : ℕ) × (pos j
            ≡ start_of edge source.bounds +ℤ pos offset -ℤ start_of edge candidate.bounds)
          × (any (within j) (edge_segments candidate.layout (opposite edge)) ≡ true))
segment_entry source candidate edge offset a h =
    let s = start_of edge source.bounds in
    let c = start_of edge candidate.bounds in
    let entries = edge_segments candidate.layout (opposite edge) in
    find_map-elim (λ b. b.1 ≤ u32_max) (shared_midpoint s c a) entries offset h
      (segments_end candidate.layout (opposite edge))
      (λ b _ hit.
        let shared = midpoint_Shared s c a b offset hit in
        let (j, e) = other_offset s c a b offset shared in
        (
          (Shared-within s c a b offset j e shared).0,
          (
            j,
            e,
            find_map-any (shared_midpoint s c a) (within j) entries offset h (λ b' hit'.
                (Shared-within s c a b' offset j e (midpoint_Shared s c a b' offset hit')).1),
          ),
        ))

-- Two screens with a shared offset on an edge touch there, and the offset is exposed on both.
pub shared-Facing :
    (source candidate : ScreenPlacement) (edge : Edge) (offset : ℕ)
    → shared_edge_offset source candidate edge ≡ some offset
    → (edges_touch edge source.bounds candidate.bounds ≡ true)
      × ((j : ℕ) × Facing source candidate edge offset j)
unfolding shared_edge_offset
shared-Facing source candidate edge offset h =
    let s = start_of edge source.bounds in
    let c = start_of edge candidate.bounds in
    let exits = edge_segments source.layout edge in
    let found : find_map
          (λ a. find_map (shared_midpoint s c a) (edge_segments candidate.layout (opposite edge)))
          exits
        ≡ some offset =
      ground arith in
    (
      ground arith,
      find_map-elim (λ a. a.1 ≤ u32_max) _ exits offset found (segments_end source.layout edge)
          (λ a _ hit.
            let (_, (j, e, entry)) = segment_entry source candidate edge offset a hit in
            (
              j,
              record {
                same_pixel = e;
                exit =
                    find_map-any _ (within offset) exits offset found
                      (λ a' hit'. (segment_entry source candidate edge offset a' hit').0);
                entry = entry;
              },
            )),
    )

-- Two screens that touch at an edge without a shared offset do not face each other there.
pub none-Facing :
    (source candidate : ScreenPlacement) (edge : Edge) (offset j : ℕ)
    → edges_touch edge source.bounds candidate.bounds ≡ true
    → shared_edge_offset source candidate edge ≡ none
    → Facing source candidate edge offset j
    → ⊥
unfolding shared_edge_offset
none-Facing source candidate edge offset j touching h f =
    let s = start_of edge source.bounds in
    let c = start_of edge candidate.bounds in
    let exits = edge_segments source.layout edge in
    let entries = edge_segments candidate.layout (opposite edge) in
    let missed =
      find_map-none (λ a. find_map (shared_midpoint s c a) entries) exits (ground arith) in
    any-elim (λ a. (a.1 ≤ u32_max) × (find_map (shared_midpoint s c a) entries ≡ none))
      (within offset) exits f.exit (All-pair _ _ exits (segments_end source.layout edge) missed)
      (λ a known in_a.
        any-elim (λ b. shared_midpoint s c a b ≡ none) (within j) entries f.entry
          (find_map-none (shared_midpoint s c a) entries known.1)
          (λ b apart in_b.
            none-Shared s c a b (s +ℤ pos offset) known.0 apart
              (within-Shared s c a b offset j f.same_pixel (ground arith))))
