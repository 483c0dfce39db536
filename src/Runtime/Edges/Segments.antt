-- ===== src/Runtime/Edges/Segments.antt =====
-- The exposed segments of a valid desktop's edge.
use tevir.Prelude.{
  ℕ, ◌+◌, ◌≤◌, ◌<◌, ◌≡◌, refl, pos, ◌≤ℤ◌, Bool, true, false, ◌&&◌, List, [], ◌∷◌, All, any,
  filter_map, ltb, leb, u32_max, ok, arith, any-elim, filter_map-All, to_u32, some, none,
  if◌then◌else◌,
}
use tevir.Prelude.Optional.{◌>>=◌}
use tevir.Domain.Geometry.{Size}
use tevir.Domain.Rect
use tevir.Domain.Edge.{Edge, contains_axis}
use tevir.Domain.Display
use tevir.Domain.Display.{
  Monitor, DesktopLayout, Reaches, no_reach, reach, outside, validate, validate_monitors,
  contains_edge_offset, edge_segments, span_start, span_end,
}

-- The number of pixels along an edge.
abbrev pub edge_length : Edge → Size → ℕ
edge_length Edge.left size = size.height
edge_length Edge.right size = size.height
edge_length Edge.top size = size.width
edge_length Edge.bottom size = size.width

abbrev pub within : ℕ → ℕ × ℕ → Bool
within offset a = leb (a.0) offset && ltb offset (a.1)

-- A monitor that lies inside its desktop, along each edge.
abbrev Inside : Size → Monitor → Type 0
Inside size m =
    (edge : Edge)
    → (pos 0 ≤ℤ span_start edge m.bounds) × (span_end edge m.bounds ≤ℤ pos (edge_length edge size))

outside-Inside : (size : Size) (m : Monitor) → outside size m.bounds ≡ false → Inside size m
unfolding outside span_start span_end Rect.left Rect.top
outside-Inside size m h edge = ground arith

monitors-Inside :
    (size : Size) (index : ℕ) (f : Reaches) (ms : List Monitor)
    → validate_monitors size index f ms ≡ ok tt
    → All (Inside size) ms
unfolding validate_monitors
monitors-Inside size index f [] h = tt
monitors-Inside size index f (m ∷ ms) h = (
  outside-Inside size m (ground arith),
  monitors-Inside size (index + 1) (reach size m.bounds f) ms (ground arith),
)

listed-Inside :
    (layout : DesktopLayout) (ms : List Monitor)
    → layout.monitors ≡ ms
    → validate layout ≡ ok tt
    → All (Inside layout.size) ms
unfolding validate
listed-Inside layout [] e h = tt
listed-Inside layout (m ∷ ms) e h = monitors-Inside layout.size 0 no_reach (m ∷ ms) (ground arith)

layout-Inside :
    (layout : DesktopLayout) → validate layout ≡ ok tt → All (Inside layout.size) layout.monitors
layout-Inside layout h = listed-Inside layout layout.monitors refl h

-- An offset on an edge of a valid desktop lies before the edge's end.
pub exposed_below :
    (layout : DesktopLayout) (edge : Edge) (offset : ℕ)
    → validate layout ≡ ok tt
    → contains_edge_offset layout edge offset ≡ true
    → offset < edge_length edge layout.size
unfolding contains_edge_offset contains_axis
exposed_below layout edge offset h k =
    any-elim (Inside layout.size) _ layout.monitors k (layout-Inside layout h)
      (λ m inside hit. ground (arith, inside edge))

-- On a valid desktop the offsets of an edge are those in its segments.
segments_of :
    (size : Size) (edge : Edge) (offset : ℕ) (ms : List Monitor)
    → edge_length edge size ≤ u32_max
    → All (Inside size) ms
    → any
        (λ m.
          Display.touches size edge m.bounds
          && contains_axis (span_start edge m.bounds) (span_end edge m.bounds) (pos offset))
        ms
      ≡ any (within offset) (
          filter_map
            (λ m.
              if Display.touches size edge m.bounds
              then (do
                start ← to_u32 (span_start edge m.bounds)
                end ← to_u32 (span_end edge m.bounds)
                some (start, end))
              else none)
            ms)
unfolding any filter_map contains_axis
segments_of size edge offset [] bound h = refl
segments_of size edge offset (m ∷ ms) bound h =
    ground (arith, segments_of size edge offset ms bound h.1, h.0 edge)

pub exposed_segments :
    (layout : DesktopLayout) (edge : Edge) (offset : ℕ)
    → validate layout ≡ ok tt
    → edge_length edge layout.size ≤ u32_max
    → contains_edge_offset layout edge offset ≡ any (within offset) (edge_segments layout edge)
unfolding contains_edge_offset edge_segments
exposed_segments layout edge offset h bound =
    segments_of layout.size edge offset layout.monitors bound (layout-Inside layout h)

-- Every segment ends within a `u32`.
pub segments_end :
    (layout : DesktopLayout) (edge : Edge) → All (λ a. a.1 ≤ u32_max) (edge_segments layout edge)
unfolding edge_segments
segments_end layout edge =
    filter_map-All (λ a. a.1 ≤ u32_max) _ layout.monitors (λ m a e. ground arith)
