-- ===== src/Common/Int.antt =====
-- Signed numbers, over the native naturals, and their sum and order with naturals.
use Prim.Native.Nat.{ℕ, suc, ◌+◌, ◌-◌, ◌%◌, ◌^◌}
use mathlib.Core.Path.{◌≡◌}
use mathlib.Core.Bool.{Bool}
use native.Mathlib.Omega.{arith}
use mammut.Common.Tests.{leb, if◌then◌else◌}

-- `negsuc n` is -(n + 1).
pub data ℤ : Type 0 where
  pos : ℕ → ℤ
  negsuc : ℕ → ℤ

abbrev pub pos_part : ℤ → ℕ
pos_part (pos n) = n
pos_part (negsuc n) = 0

abbrev pub neg_part : ℤ → ℕ
neg_part (pos n) = 0
neg_part (negsuc n) = suc n

-- a - b
abbrev pub sub_ℕ : ℕ → ℕ → ℤ
sub_ℕ a b = if leb b a then pos (a - b) else negsuc (b - a - 1)

abbrev pub add_nat : ℤ → ℕ → ℤ
add_nat a n = sub_ℕ (pos_part a + n) (neg_part a)

abbrev pub sub_nat : ℤ → ℕ → ℤ
sub_nat a n = sub_ℕ (pos_part a) (neg_part a + n)

-- a - b of signed numbers
abbrev pub sub_ℤ : ℤ → ℤ → ℤ
sub_ℤ a b = sub_ℕ (pos_part a + neg_part b) (neg_part a + pos_part b)

-- a + b of signed numbers
infixl 20 ◌+ℤ◌
abbrev pub ◌+ℤ◌ : ℤ → ℤ → ℤ
a +ℤ b = sub_ℕ (pos_part a + pos_part b) (neg_part a + neg_part b)

-- An `int` converted to a `uint`.
abbrev pub to_uint : ℤ → ℕ
to_uint (pos n) = n % 2 ^ 32
to_uint (negsuc n) = 2 ^ 32 - 1 - n % 2 ^ 32

-- a ≤ n
abbrev pub le_nat : ℤ → ℕ → Bool
le_nat a n = leb (pos_part a) n

pub sub_nat-add_nat : (a : ℤ) (n : ℕ) → sub_nat (add_nat a n) n ≡ a
sub_nat-add_nat (pos m) n = ground arith
sub_nat-add_nat (negsuc m) n = ground arith
