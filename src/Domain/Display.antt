-- ===== src/Domain/Display.antt =====
-- crates/domain/src/display.rs. Byte strings are lists of bytes; `usize` counts do not wrap.
use tevir.Prelude.{
  ℕ, ◌+◌, ℤ, pos, Bool, false, ◌&&◌, ◌||◌, not, Option, none, some, List, [], ◌∷◌, Result, ok, err,
  length, any, filter_map, ltb, ltb_ℤ, eqb_ℤ, to_u32, if◌then◌else◌,
}
use tevir.Prelude.Optional.{◌>>=◌}
use tevir.Domain.Geometry.{Point, Size, Rect}
use tevir.Domain.Rect
use tevir.Domain.Edge.{Edge, contains_axis}

abbrev pub max_monitors_per_desktop : ℕ
max_monitors_per_desktop = 32

abbrev pub max_monitor_name_bytes : ℕ
max_monitor_name_bytes = 128

pub data DisplayRotation : Type 0 where
  normal clockwise_90 clockwise_180 clockwise_270 : DisplayRotation

pub record Monitor : Type 0 where
  pub name : Option (List ℕ)
  pub bounds : Rect
  pub scale_milli : ℕ
  pub rotation : DisplayRotation

pub record DesktopLayout : Type 0 where
  pub size : Size
  pub monitors : List Monitor

pub data DesktopLayoutError : Type 0 where
  empty : DesktopLayoutError
  too_many_monitors : (actual maximum : ℕ) → DesktopLayoutError
  monitor_name_too_long : (index maximum : ℕ) → DesktopLayoutError
  monitor_outside_desktop : (index : ℕ) → DesktopLayoutError
  does_not_span_desktop : DesktopLayoutError

-- `Monitor::new` and `DesktopLayout::single`.
unfoldable pub new_monitor : Option (List ℕ) → Rect → Monitor
new_monitor name bounds = record {
  name = name;
  bounds = bounds;
  scale_milli = 1000;
  rotation = DisplayRotation.normal;
}

unfoldable pub single : Size → DesktopLayout
unfolding new_monitor
single size = record {
  size = size;
  monitors =
      new_monitor none (record { origin = record { x = pos 0; y = pos 0 }; size = size }) ∷ [];
}

-- The four flags of `validate`.
pub record Reaches : Type 0 where
  pub reaches_left : Bool
  pub reaches_right : Bool
  pub reaches_top : Bool
  pub reaches_bottom : Bool

unfoldable pub name_too_long : Monitor → Bool
name_too_long m = elim (m.name) [
  | none ↦ false
  | some name ↦ ltb max_monitor_name_bytes (length name)
]

unfoldable pub outside : Size → Rect → Bool
outside size b =
    ltb_ℤ b.origin.x (pos 0)
    || ltb_ℤ b.origin.y (pos 0)
    || ltb_ℤ (pos size.width) (Rect.right b)
    || ltb_ℤ (pos size.height) (Rect.bottom b)

unfoldable pub reach : Size → Rect → Reaches → Reaches
reach size b f = record {
  reaches_left = f.reaches_left || eqb_ℤ (Rect.left b) (pos 0);
  reaches_right = f.reaches_right || eqb_ℤ (Rect.right b) (pos size.width);
  reaches_top = f.reaches_top || eqb_ℤ (Rect.top b) (pos 0);
  reaches_bottom = f.reaches_bottom || eqb_ℤ (Rect.bottom b) (pos size.height);
}

-- The loop of `validate` over the monitors from `index` on, and the test behind it.
unfoldable pub validate_monitors :
    Size → ℕ → Reaches → List Monitor → Result (Unit {0}) DesktopLayoutError
unfolding name_too_long outside reach
validate_monitors size index f [] =
    if not (f.reaches_left && f.reaches_right && f.reaches_top && f.reaches_bottom)
    then err DesktopLayoutError.does_not_span_desktop
    else ok tt
validate_monitors size index f (m ∷ ms) =
    let rest = validate_monitors size (index + 1) (reach size m.bounds f) ms in
    if name_too_long m
    then err (DesktopLayoutError.monitor_name_too_long index max_monitor_name_bytes)
    else if outside size m.bounds
    then err (DesktopLayoutError.monitor_outside_desktop index)
    else rest

abbrev pub no_reach : Reaches
no_reach = record {
  reaches_left = false;
  reaches_right = false;
  reaches_top = false;
  reaches_bottom = false;
}

unfoldable pub validate : DesktopLayout → Result (Unit {0}) DesktopLayoutError
validate layout = elim (layout.monitors) [
  | [] ↦ err DesktopLayoutError.empty
  | m ∷ ms ↦
      if ltb max_monitors_per_desktop (length (m ∷ ms))
      then err (DesktopLayoutError.too_many_monitors (length (m ∷ ms)) max_monitors_per_desktop)
      else validate_monitors layout.size 0 no_reach (m ∷ ms)
]

unfoldable pub contains : DesktopLayout → Point → Bool
contains layout p = any (λ m. Rect.contains m.bounds p) layout.monitors

-- One monitor touches an edge of the desktop.
unfoldable pub touches : Size → Edge → Rect → Bool
touches size Edge.left b = eqb_ℤ (Rect.left b) (pos 0)
touches size Edge.right b = eqb_ℤ (Rect.right b) (pos size.width)
touches size Edge.top b = eqb_ℤ (Rect.top b) (pos 0)
touches size Edge.bottom b = eqb_ℤ (Rect.bottom b) (pos size.height)

-- The ends of a monitor along an edge.
unfoldable pub span_start : Edge → Rect → ℤ
span_start Edge.left b = Rect.top b
span_start Edge.right b = Rect.top b
span_start Edge.top b = Rect.left b
span_start Edge.bottom b = Rect.left b

unfoldable pub span_end : Edge → Rect → ℤ
span_end Edge.left b = Rect.bottom b
span_end Edge.right b = Rect.bottom b
span_end Edge.top b = Rect.right b
span_end Edge.bottom b = Rect.right b

unfoldable pub contains_edge_offset : DesktopLayout → Edge → ℕ → Bool
contains_edge_offset layout edge offset =
    any
      (λ m.
        touches layout.size edge m.bounds
        && contains_axis (span_start edge m.bounds) (span_end edge m.bounds) (pos offset))
      layout.monitors

unfoldable pub edge_segments : DesktopLayout → Edge → List (ℕ × ℕ)
edge_segments layout edge =
    filter_map
      (λ m.
        if touches layout.size edge m.bounds
        then (do
          start ← to_u32 (span_start edge m.bounds)
          end ← to_u32 (span_end edge m.bounds)
          some (start, end))
        else none)
      layout.monitors
