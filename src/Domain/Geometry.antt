-- ===== src/Domain/Geometry.antt =====
-- crates/domain/src/geometry.rs, the types. An `i32` is an integer in the range `IsI32`, a
-- `NonZeroU32` a number in the range `IsNonZeroU32`.
use tevir.Prelude.{ℕ, ℤ, PartialEq, derived_eq, ℕ_discrete, IsI32, IsNonZeroU32}

pub record Point : Type 0 where
  pub x : ℤ
  pub y : ℤ

pub record Size : Type 0 where
  pub width : ℕ
  pub height : ℕ

pub record Rect : Type 0 where
  pub origin : Point
  pub size : Size

unfoldable pub Point-discrete : Discrete Point
unfolding ℕ_discrete
Point-discrete = hlevel ℕ_discrete

instance abbrev pub point_eq : PartialEq Point
point_eq = derived_eq Point-discrete

unfoldable pub Size-discrete : Discrete Size
unfolding ℕ_discrete
Size-discrete = hlevel ℕ_discrete

instance abbrev pub size_eq : PartialEq Size
size_eq = derived_eq Size-discrete

-- The values that the machine types admit.
pub record IsSize (s : Size) : Type 0 where
  pub width_range : IsNonZeroU32 s.width
  pub height_range : IsNonZeroU32 s.height

pub record IsPoint (p : Point) : Type 0 where
  pub x_range : IsI32 p.x
  pub y_range : IsI32 p.y

pub record IsRect (r : Rect) : Type 0 where
  pub origin_range : IsPoint r.origin
  pub size_range : IsSize r.size
