-- ===== src/Common/Bits/Steps.antt =====
-- The native bitwise operations, one binary digit at a time.
use Prim.Native.Nat.{
  ℕ, zero, suc, ◌+◌, ◌*◌, ◌/◌, ◌%◌, ◌≤◌, min, max, digits, bitwise, bit_and, bit_or,
}
use Prim.Native.Nat.{bit_and-bitwise, bit_or-bitwise}
use mathlib.Core.Path.{◌≡◌, refl, sym, ap, ◌∙◌}
use native.Mathlib.Nat.{le_refl}
use native.Mathlib.Omega.{arith}

module _ (end : ℕ → ℕ) (op : ℕ → ℕ → ℕ) where
  digits-zero : (fuel y : ℕ) → digits end op fuel zero y ≡ end y
  digits-zero zero y = refl
  digits-zero (suc fuel) y = refl

  -- The recursion on digits does not depend on its fuel.
  enough_digits :
      (fuel more x y : ℕ) → x ≤ more → x ≤ fuel → digits end op more x y ≡ digits end op fuel x y
  enough_digits fuel more zero y hm hf = digits-zero more y ∙ sym (digits-zero fuel y)
  enough_digits zero more (suc x) y hm hf = absurd (omega arith)
  enough_digits (suc fuel) zero (suc x) y hm hf = absurd (omega arith)
  enough_digits (suc fuel) (suc more) (suc x) y hm hf =
      ap (λ (t : ℕ). t * 2 + op (suc x % 2) (y % 2))
        (enough_digits fuel more (suc x / 2) (y / 2) (omega arith) (omega arith))

  -- The lowest digit, and the rest.
  lowest_digit :
      (x y : ℕ)
      → bitwise end op (suc x / 2) (y / 2) * 2 + op (suc x % 2) (y % 2) ≡ bitwise end op (suc x) y
  lowest_digit x y =
      ap (λ (t : ℕ). t * 2 + op (suc x % 2) (y % 2))
        (enough_digits x (suc x / 2) (suc x / 2) (y / 2) (le_refl _) (omega arith))

pub bit_and_step : (x y : ℕ) → bit_and x y ≡ bit_and (x / 2) (y / 2) * 2 + min (x % 2) (y % 2)
bit_and_step zero y = omega (arith, bit_and-bitwise 0 y, bit_and-bitwise 0 (y / 2))
bit_and_step (suc x) y =
    bit_and-bitwise (suc x) y
    ∙ sym (lowest_digit (λ t. 0) min x y)
    ∙ ap (λ (t : ℕ). t * 2 + min (suc x % 2) (y % 2)) (sym (bit_and-bitwise (suc x / 2) (y / 2)))

pub bit_or_step : (x y : ℕ) → bit_or x y ≡ bit_or (x / 2) (y / 2) * 2 + max (x % 2) (y % 2)
bit_or_step zero y = omega (arith, bit_or-bitwise 0 y, bit_or-bitwise 0 (y / 2))
bit_or_step (suc x) y =
    bit_or-bitwise (suc x) y
    ∙ sym (lowest_digit (λ t. t) max x y)
    ∙ ap (λ (t : ℕ). t * 2 + max (suc x % 2) (y % 2)) (sym (bit_or-bitwise (suc x / 2) (y / 2)))

pub zero-bit_and : (b : ℕ) → bit_and 0 b ≡ 0
zero-bit_and b = bit_and-bitwise 0 b

bit_and-zero_below : (n a : ℕ) → a ≤ n → bit_and a 0 ≡ 0
bit_and-zero_below n zero h = zero-bit_and 0
bit_and-zero_below zero (suc a) h = absurd (omega arith)
bit_and-zero_below (suc n) (suc a) h =
    omega (arith, bit_and_step (suc a) 0, bit_and-zero_below n (suc a / 2) (omega arith))

pub bit_and-zero : (a : ℕ) → bit_and a 0 ≡ 0
bit_and-zero a = bit_and-zero_below a a (le_refl a)
