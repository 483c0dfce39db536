-- ===== src/Prelude/Int.antt =====
-- Signed integers over the native numbers, under the library's names (its ℤ stands on the unary ℕ).
-- Sums and orders go through the two parts of an integer, which are numbers that `omega` reads.
use Prim.Native.Nat.{ℕ, suc, ◌+◌, ◌-◌, ◌*◌, ◌≤◌, ◌<◌}
use mathlib.Core.Path.{◌≡◌}
use mathlib.Core.Logic.{◌↔◌}
use mathlib.Core.Bool.{Bool, true}
use mathlib.Core.Option.{Option, none, some}
use native.Mathlib.Omega.{arith}
use tevir.Prelude.Tests.{ltb, leb, eqb, PartialEq, if◌then◌else◌}

-- `negsuc n` is -(n + 1).
pub data ℤ : Type 0 where
  pos : ℕ → ℤ
  negsuc : ℕ → ℤ

abbrev pub pos_part : ℤ → ℕ
pos_part (pos n) = n
pos_part (negsuc n) = 0

abbrev pub neg_part : ℤ → ℕ
neg_part (pos n) = 0
neg_part (negsuc n) = suc n

-- a - b, as an integer.
abbrev pub sub_ℕ : ℕ → ℕ → ℤ
sub_ℕ a b = if leb b a then pos (a - b) else negsuc (b - a - 1)

infixl 65 ◌+ℤ◌ ◌-ℤ◌
infixl 70 ◌*ℤ◌
infix 50 ◌≤ℤ◌
unfoldable pub ◌+ℤ◌ : ℤ → ℤ → ℤ
a +ℤ b = sub_ℕ (pos_part a + pos_part b) (neg_part a + neg_part b)

unfoldable pub ◌-ℤ◌ : ℤ → ℤ → ℤ
a -ℤ b = sub_ℕ (pos_part a + neg_part b) (neg_part a + pos_part b)

unfoldable pub ◌*ℤ◌ : ℤ → ℤ → ℤ
a *ℤ b =
    sub_ℕ (pos_part a * pos_part b + neg_part a * neg_part b)
      (pos_part a * neg_part b + neg_part a * pos_part b)

abbrev pub ◌≤ℤ◌ : ℤ → ℤ → Type 0
a ≤ℤ b = pos_part a + neg_part b ≤ pos_part b + neg_part a

abbrev pub ltb_ℤ : ℤ → ℤ → Bool
ltb_ℤ a b = ltb (pos_part a + neg_part b) (pos_part b + neg_part a)

abbrev pub leb_ℤ : ℤ → ℤ → Bool
leb_ℤ a b = leb (pos_part a + neg_part b) (pos_part b + neg_part a)

abbrev pub eqb_ℤ : ℤ → ℤ → Bool
eqb_ℤ a b = eqb (pos_part a + neg_part b) (pos_part b + neg_part a)

infix 50 ◌<ℤ◌
abbrev pub ◌<ℤ◌ : ℤ → ℤ → Type 0
a <ℤ b = pos_part a + neg_part b < pos_part b + neg_part a

-- One lemma for each operation lets `omega` work with the operations shut, at any depth.
pub +ℤ_parts :
    (a b : ℤ)
    → pos_part (a +ℤ b) + neg_part a + neg_part b ≡ neg_part (a +ℤ b) + pos_part a + pos_part b
unfolding ◌+ℤ◌
+ℤ_parts a b = ground arith

pub -ℤ_parts :
    (a b : ℤ)
    → pos_part (a -ℤ b) + neg_part a + pos_part b ≡ neg_part (a -ℤ b) + pos_part a + neg_part b
unfolding ◌-ℤ◌
-ℤ_parts a b = ground arith

pub eq_of_parts : (a b : ℤ) → pos_part a + neg_part b ≡ pos_part b + neg_part a → a ≡ b
eq_of_parts a b h = ground arith

pub eqb_ℤ_iff : (a b : ℤ) → (eqb_ℤ a b ≡ true) ↔ (a ≡ b)
eqb_ℤ_iff a b = ground arith

instance abbrev pub int_eq : PartialEq ℤ
int_eq = record { eq = eqb_ℤ; eq_iff = eqb_ℤ_iff }

pub ruleset int_laws = (arith, +ℤ_parts, -ℤ_parts, eq_of_parts)

-- `i64::clamp` with bounds in order, and the machine ranges.
abbrev pub clamp_ℤ : ℤ → ℤ → ℤ → ℤ
clamp_ℤ x lo hi = if ltb_ℤ x lo then lo else if ltb_ℤ hi x then hi else x

abbrev pub i32_max : ℕ
i32_max = 2147483647

abbrev pub i64_max : ℕ
i64_max = 9223372036854775807

abbrev pub u32_max : ℕ
u32_max = 4294967295

abbrev pub u64_max : ℕ
u64_max = 18446744073709551615

-- `i64::saturating_add` and `saturating_sub`, from the exact sum.
abbrev pub saturate_i64 : ℤ → ℤ
saturate_i64 x = clamp_ℤ x (negsuc i64_max) (pos i64_max)

-- `i32::try_from` and `u32::try_from` on a wider integer, as options.
abbrev pub to_i32 : ℤ → Option ℤ
to_i32 x =
    if leb_ℤ (negsuc i32_max) x then (if leb_ℤ x (pos i32_max) then some x else none) else none

abbrev pub to_u32 : ℤ → Option ℕ
to_u32 (pos n) = if leb n u32_max then some n else none
to_u32 (negsuc n) = none

-- The values of an `i32`, and of a `NonZeroU32`.
abbrev pub IsI32 : ℤ → Type 0
IsI32 x = (negsuc i32_max ≤ℤ x) × (x ≤ℤ pos i32_max)

abbrev pub IsNonZeroU32 : ℕ → Type 0
IsNonZeroU32 n = (1 ≤ n) × (n ≤ u32_max)

-- `i64::saturating_add` and `saturating_sub`.
unfoldable pub saturating_add : ℤ → ℤ → ℤ
saturating_add a b = saturate_i64 (a +ℤ b)

unfoldable pub saturating_sub : ℤ → ℤ → ℤ
saturating_sub a b = saturate_i64 (a -ℤ b)

abbrev pub IsI64 : ℤ → Type 0
IsI64 x = (negsuc i64_max ≤ℤ x) × (x ≤ℤ pos i64_max)

pub +ℤ-zero : (a : ℤ) → a +ℤ pos 0 ≡ a
unfolding ◌+ℤ◌
+ℤ-zero a = ground arith

pub zero-+ℤ : (a : ℤ) → pos 0 +ℤ a ≡ a
unfolding ◌+ℤ◌
zero-+ℤ a = ground arith

pub +ℤ_assoc : (a b c : ℤ) → a +ℤ b +ℤ c ≡ a +ℤ (b +ℤ c)
+ℤ_assoc a b c = omega int_laws

pub saturating_add-eq : (a b : ℤ) → IsI64 (a +ℤ b) → saturating_add a b ≡ a +ℤ b
unfolding saturating_add
saturating_add-eq a b h = ground arith
