-- ===== src/Session/Pointer.antt =====
-- crates/session/src/controller.rs: the arithmetic of pointer positions, in pixels (`i32`) and in
-- micropixels (`i64`). A desktop is at most 2^32 pixels wide, so the products stay far inside `i64`
-- and `saturating_mul` is the product.
use tevir.Prelude.{
  ℕ, suc, ◌-◌, ◌*◌, ◌/◌, ℤ, pos, negsuc, Option, none, some, clamp_ℤ, i32_max, ltb_ℤ, leb_ℤ, to_i32,
  to_u32, saturating_add, saturating_sub, if◌then◌else◌,
}
use tevir.Domain.Geometry.{Point, Size}
use tevir.Domain.Edge.{Edge}

abbrev pub micropixels_per_pixel : ℕ
micropixels_per_pixel = 1000000

-- `i64::from(x) * MICROPIXELS_PER_PIXEL`.
unfoldable pub micropixels : ℤ → ℤ
micropixels (pos n) = pos (n * micropixels_per_pixel)
micropixels (negsuc n) = negsuc (suc n * micropixels_per_pixel - 1)

-- `div_euclid(MICROPIXELS_PER_PIXEL)`, which rounds down.
unfoldable pub pixels : ℤ → ℤ
pixels (pos n) = pos (n / micropixels_per_pixel)
pixels (negsuc n) = negsuc (n / micropixels_per_pixel)

-- `i32::try_from(x).unwrap_or(i32::MAX)`.
unfoldable pub i32_or_max : ℤ → ℤ
i32_or_max x = elim (to_i32 x) [ none ↦ pos i32_max | some y ↦ y ]

unfoldable pub local_point : ℤ → ℤ → Point
unfolding i32_or_max pixels
local_point x_micropixels y_micropixels = record {
  x = i32_or_max (pixels x_micropixels);
  y = i32_or_max (pixels y_micropixels);
}

unfoldable pub screen_center : Size → Point
unfolding i32_or_max
screen_center size = record {
  x = i32_or_max (pos (size.width / 2));
  y = i32_or_max (pos (size.height / 2));
}

unfoldable pub clamp_local_position : Size → Point → Point
unfolding i32_or_max
clamp_local_position size position = record {
  x = clamp_ℤ position.x (pos 0) (i32_or_max (pos (size.width - 1)));
  y = clamp_ℤ position.y (pos 0) (i32_or_max (pos (size.height - 1)));
}

-- The extent of a side, and its last position, in micropixels; a side has at least one pixel.
unfoldable pub extent : ℕ → ℤ
extent side = pos (side * micropixels_per_pixel)

unfoldable pub maximum : ℕ → ℤ
maximum side = pos (side * micropixels_per_pixel - 1)

-- The edge by which a position outside the desktop leaves it.
unfoldable pub exit_edge : Size → ℤ → ℤ → Edge
exit_edge size destination_x destination_y =
    if ltb_ℤ destination_x (pos 0)
    then Edge.left
    else if leb_ℤ (extent size.width) destination_x
    then Edge.right
    else if ltb_ℤ destination_y (pos 0)
    then Edge.top
    else Edge.bottom

-- The pixel along that edge, `None` if it is no `u32`.
unfoldable pub exit_offset : Edge → Size → ℤ → ℤ → Option ℕ
exit_offset Edge.left size x y = to_u32 (pixels (clamp_ℤ y (pos 0) (maximum size.height)))
exit_offset Edge.right size x y = to_u32 (pixels (clamp_ℤ y (pos 0) (maximum size.height)))
exit_offset Edge.top size x y = to_u32 (pixels (clamp_ℤ x (pos 0) (maximum size.width)))
exit_offset Edge.bottom size x y = to_u32 (pixels (clamp_ℤ x (pos 0) (maximum size.width)))

-- The motion left beyond the edge, added to the entry position.
unfoldable pub carried_x : Edge → Size → ℤ → ℤ → ℤ
carried_x Edge.left size target_x x = saturating_add target_x x
carried_x Edge.right size target_x x =
    saturating_add target_x (saturating_sub x (extent size.width))
carried_x Edge.top size target_x x = target_x
carried_x Edge.bottom size target_x x = target_x

unfoldable pub carried_y : Edge → Size → ℤ → ℤ → ℤ
carried_y Edge.left size target_y y = target_y
carried_y Edge.right size target_y y = target_y
carried_y Edge.top size target_y y = saturating_add target_y y
carried_y Edge.bottom size target_y y =
    saturating_add target_y (saturating_sub y (extent size.height))
