-- ===== src/Domain/Rect.antt =====
-- crates/domain/src/geometry.rs, the methods of `Rect`. Their sums are exact: an `i32` and a `u32`
-- widened to `i64` cannot overflow it.
pub mod Pixels
use tevir.Prelude.{ℤ, pos, ◌+ℤ◌, ltb_ℤ, leb_ℤ, eqb_ℤ, Bool, ◌&&◌, ◌||◌}
use tevir.Domain.Geometry.{Point, Rect}

unfoldable pub left : Rect → ℤ
left r = r.origin.x

unfoldable pub top : Rect → ℤ
top r = r.origin.y

unfoldable pub right : Rect → ℤ
unfolding left
right r = left r +ℤ pos r.size.width

unfoldable pub bottom : Rect → ℤ
unfolding top
bottom r = top r +ℤ pos r.size.height

unfoldable pub overlaps : Rect → Rect → Bool
overlaps r s =
    ltb_ℤ (left r) (right s)
    && ltb_ℤ (left s) (right r)
    && ltb_ℤ (top r) (bottom s)
    && ltb_ℤ (top s) (bottom r)

unfoldable pub shares_edge : Rect → Rect → Bool
shares_edge r s =
    let vertical_overlap = ltb_ℤ (top r) (bottom s) && ltb_ℤ (top s) (bottom r) in
    let horizontal_overlap = ltb_ℤ (left r) (right s) && ltb_ℤ (left s) (right r) in
    ((eqb_ℤ (left r) (right s) || eqb_ℤ (right r) (left s)) && vertical_overlap)
    || ((eqb_ℤ (top r) (bottom s) || eqb_ℤ (bottom r) (top s)) && horizontal_overlap)

unfoldable pub contains_coordinates : Rect → ℤ → ℤ → Bool
contains_coordinates r x y =
    leb_ℤ (left r) x && ltb_ℤ x (right r) && leb_ℤ (top r) y && ltb_ℤ y (bottom r)

unfoldable pub contains : Rect → Point → Bool
unfolding contains_coordinates
contains r p = contains_coordinates r p.x p.y
