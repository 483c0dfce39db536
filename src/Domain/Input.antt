-- ===== src/Domain/Input.antt =====
-- crates/domain/src/input.rs.
use tevir.Prelude.{ℕ, ℤ, PartialEq, derived_eq, ℕ_discrete}
use tevir.Domain.Geometry.{Point}

pub record PhysicalKey : Type 0 where
  pub usage_page : ℕ
  pub usage_id : ℕ

pub data KeyAction : Type 0 where
  press : KeyAction
  repeat : ℕ → KeyAction
  release : KeyAction

pub data ButtonAction : Type 0 where
  press release : ButtonAction

pub data MouseButton : Type 0 where
  primary secondary middle back forward : MouseButton
  other : ℕ → MouseButton

pub data ScrollDelta : Type 0 where
  discrete : (horizontal_120 vertical_120 : ℤ) → ScrollDelta
  continuous : (horizontal_micropixels vertical_micropixels : ℤ) → ScrollDelta

pub data InputKind : Type 0 where
  key : PhysicalKey → KeyAction → InputKind
  pointer_button : MouseButton → ButtonAction → InputKind
  pointer_relative : (dx_micropixels dy_micropixels : ℤ) → InputKind
  pointer_absolute : Point → InputKind
  scroll : ScrollDelta → InputKind

pub record InputEvent : Type 0 where
  pub elapsed_micros : ℕ
  pub kind : InputKind

unfoldable pub PhysicalKey-discrete : Discrete PhysicalKey
unfolding ℕ_discrete
PhysicalKey-discrete = hlevel ℕ_discrete

unfoldable pub MouseButton-discrete : Discrete MouseButton
unfolding ℕ_discrete
MouseButton-discrete = hlevel ℕ_discrete

instance abbrev pub physical_key_eq : PartialEq PhysicalKey
physical_key_eq = derived_eq PhysicalKey-discrete

instance abbrev pub mouse_button_eq : PartialEq MouseButton
mouse_button_eq = derived_eq MouseButton-discrete
