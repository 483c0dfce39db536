-- ===== src/Domain/Edge.antt =====
-- crates/domain/src/topology.rs, the enumeration `Edge`, and the test that the layouts share.
use tevir.Prelude.{ℤ, ltb_ℤ, leb_ℤ, Bool, ◌&&◌}

pub data Edge : Type 0 where
  left right top bottom : Edge

-- `contains_axis`, of display.rs and of topology.rs.
unfoldable pub contains_axis : ℤ → ℤ → ℤ → Bool
contains_axis start end value = leb_ℤ start value && ltb_ℤ value end
