-- ===== src/Common/Bits.antt =====
-- The bits of a native number, and what shifts, masks and the bitwise operations do to each.
mod Steps
use Prim.Native.Nat.{
  ℕ, zero, suc, ◌+◌, ◌-◌, ◌*◌, ◌/◌, ◌%◌, ◌^◌, ◌≤◌, ◌<◌, min, max, bit_and, bit_or,
}
use mathlib.Core.Path.{◌≡◌, refl, ap, sym, ◌∙◌}
use mathlib.Core.Logic.{◌≢◌}
use native.Mathlib.Nat.{
  pow-suc, one-le-pow, pow-zero, pow-succ', div-one, mul-one, add-zero, add-suc, div-div-eq-div-mul,
  add-mul-mod_self_left, mod-eq_of_lt, mod-lt, div-add-mod,
}
use native.Mathlib.Omega.{arith}
use Steps.{bit_and_step, bit_or_step, zero-bit_and, bit_and-zero}

double_half : (n : ℕ) → 2 * n / 2 ≡ n
double_half n = omega arith

-- Bit `j` of `w`, 0 or 1.
pub bit : ℕ → ℕ → ℕ
bit zero w = w % 2
bit (suc j) w = bit j (w / 2)

pub bit-bit_and : (j a b : ℕ) → bit j (bit_and a b) ≡ min (bit j a) (bit j b)
unfolding bit
bit-bit_and zero a b = omega (arith, bit_and_step a b)
bit-bit_and (suc j) a b =
    let half : bit_and a b / 2 ≡ bit_and (a / 2) (b / 2) = omega (arith, bit_and_step a b) in
    ap (bit j) half ∙ bit-bit_and j (a / 2) (b / 2)

pub bit-bit_or : (j a b : ℕ) → bit j (bit_or a b) ≡ max (bit j a) (bit j b)
unfolding bit
bit-bit_or zero a b = omega (arith, bit_or_step a b)
bit-bit_or (suc j) a b =
    let half : bit_or a b / 2 ≡ bit_or (a / 2) (b / 2) = omega (arith, bit_or_step a b) in
    ap (bit j) half ∙ bit-bit_or j (a / 2) (b / 2)

pub bit-le : (j w : ℕ) → bit j w ≤ 1
unfolding bit
bit-le zero w = omega arith
bit-le (suc j) w = bit-le j (w / 2)

pub bit-zero : (j : ℕ) → bit j 0 ≡ 0
unfolding bit
bit-zero zero = refl
bit-zero (suc j) = bit-zero j

-- No bit stands at or above the width.
pub bit-above : (n j w : ℕ) → w < 2 ^ n → n ≤ j → bit j w ≡ 0
unfolding bit
bit-above zero j w h k = rw (e) (bit-zero j)
  where
    e : w ≡ 0
    e = omega arith
bit-above (suc n) zero w h k = absurd (omega arith)
bit-above (suc n) (suc j) w h k = bit-above n j (w / 2) (omega (arith, pow-suc 2 n)) (omega arith)

-- Two words of one width with the same bits are equal.
pub bit_ext : (n a b : ℕ) → a < 2 ^ n → b < 2 ^ n → ((j : ℕ) → j < n → bit j a ≡ bit j b) → a ≡ b
unfolding bit
bit_ext zero a b ha hb h = omega arith
bit_ext (suc n) a b ha hb h =
    let half =
      bit_ext n (a / 2) (b / 2) (omega (arith, pow-suc 2 n)) (omega (arith, pow-suc 2 n))
        (λ j p. h (suc j) (omega arith)) in
    omega (arith, half, h 0 (omega arith))

div-two-pow-suc : (k w : ℕ) → w / 2 ^ suc k ≡ w / 2 / 2 ^ k
div-two-pow-suc k w = rw pow-succ' (sym (div-div-eq-div-mul w 2 (2 ^ k)))

mul-two-pow-suc : (k w : ℕ) → w * 2 ^ suc k ≡ 2 * (w * 2 ^ k)
mul-two-pow-suc k w = omega (arith, ap (λ (t : ℕ). w * t) (pow-suc 2 k))

mod-two-pow-suc : (k w : ℕ) → w % 2 ^ suc k ≡ 2 * (w / 2 % 2 ^ k) + w % 2
mod-two-pow-suc k w =
    ap (λ (t : ℕ). t % 2 ^ suc k) split ∙ add-mul-mod_self_left _ _ _ ∙ mod-eq_of_lt small
  where
    split : w ≡ 2 * (w / 2 % 2 ^ k) + w % 2 + 2 ^ suc k * (w / 2 / 2 ^ k)
    split = omega (arith, div-add-mod (w / 2) (2 ^ k), mul-two-pow-suc k (w / 2 / 2 ^ k))

    small : 2 * (w / 2 % 2 ^ k) + w % 2 < 2 ^ suc k
    small = omega (arith, mod-lt (w / 2) (one-le-pow k 2 (omega arith)), pow-suc 2 k)

-- `w >> k`
pub bit-shr : (k j w : ℕ) → bit j (w / 2 ^ k) ≡ bit (j + k) w
unfolding bit
bit-shr zero j w = rw (pow-zero, div-one, add-zero)
bit-shr (suc k) j w = rw (add-suc, div-two-pow-suc) (bit-shr k j (w / 2))

-- `w << k`, before it is cut to a width
pub bit-shl : (k j w : ℕ) → bit (j + k) (w * 2 ^ k) ≡ bit j w
unfolding bit
bit-shl zero j w = rw (pow-zero, mul-one, add-zero)
bit-shl (suc k) j w =
    rw (add-suc, mul-two-pow-suc, bit) (ap (bit (j + k)) (double_half (w * 2 ^ k)) ∙ bit-shl k j w)

pub bit-shl_below : (k j w : ℕ) → j < k → bit j (w * 2 ^ k) ≡ 0
unfolding bit
bit-shl_below zero j w h = elim h [ ]
bit-shl_below (suc k) zero w h = omega (arith, mul-two-pow-suc k w)
bit-shl_below (suc k) (suc j) w h =
    rw mul-two-pow-suc (ap (bit j) (double_half (w * 2 ^ k)) ∙ bit-shl_below k j w (omega arith))

-- The cut to `k` bits
pub bit-mod : (k j w : ℕ) → j < k → bit j (w % 2 ^ k) ≡ bit j w
unfolding bit
bit-mod zero j w h = elim h [ ]
bit-mod (suc k) zero w h = omega (arith, mod-two-pow-suc k w)
bit-mod (suc k) (suc j) w h =
    let half : w % 2 ^ suc k / 2 ≡ w / 2 % 2 ^ k = omega (arith, mod-two-pow-suc k w) in
    ap (bit j) half ∙ bit-mod k j (w / 2) (omega arith)

-- `~ w` at width `n` is `2 ^ n - 1 - w`.
pub bit-complement : (n j w : ℕ) → w < 2 ^ n → j < n → bit j (2 ^ n - 1 - w) ≡ 1 - bit j w
unfolding bit
bit-complement zero j w hw h = elim h [ ]
bit-complement (suc n) zero w hw h = omega (arith, pow-suc 2 n, one-le-pow n 2)
bit-complement (suc n) (suc j) w hw h =
    let half : (2 ^ suc n - 1 - w) / 2 ≡ 2 ^ n - 1 - w / 2 = omega (arith, pow-suc 2 n) in
    ap (bit j) half ∙ bit-complement n j (w / 2) (omega (arith, pow-suc 2 n)) (omega arith)

pub bit-ones : (n j : ℕ) → j < n → bit j (2 ^ n - 1) ≡ 1
bit-ones n j h =
    let whole : 2 ^ n - 1 ≡ 2 ^ n - 1 - 0 = omega arith in
    ap (bit j) whole
    ∙ omega (arith, bit-complement n j 0 (one-le-pow n 2 (omega arith)) h, bit-zero j)

pub bit-one_shifted : (i : ℕ) → bit i (2 ^ i) ≡ 1
unfolding bit
bit-one_shifted zero = refl
bit-one_shifted (suc i) = ap (bit i) (half) ∙ bit-one_shifted i
  where
    half : 2 ^ suc i / 2 ≡ 2 ^ i
    half = omega (arith, pow-suc 2 i)

pub bit-one_shifted_ne : (i j : ℕ) → i ≢ j → bit j (2 ^ i) ≡ 0
unfolding bit
bit-one_shifted_ne zero zero h = absurd (h refl)
bit-one_shifted_ne zero (suc j) h = bit-zero j
bit-one_shifted_ne (suc i) zero h = omega (arith, pow-suc 2 i)
bit-one_shifted_ne (suc i) (suc j) h = ap (bit j) half ∙ bit-one_shifted_ne i j (omega arith)
  where
    half : 2 ^ suc i / 2 ≡ 2 ^ i
    half = omega (arith, pow-suc 2 i)

pub bit_or-lt : (n a b : ℕ) → a < 2 ^ n → b < 2 ^ n → bit_or a b < 2 ^ n
bit_or-lt zero a b ha hb =
    let e : a ≡ 0 = omega arith in let f : b ≡ 0 = omega arith in rw (e, f) (omega arith)
bit_or-lt (suc n) a b ha hb = omega (
  arith,
  bit_or_step a b,
  pow-suc 2 n,
  bit_or-lt n (a / 2) (b / 2) (omega (arith, pow-suc 2 n)) (omega (arith, pow-suc 2 n)),
)

pub bit_and-lt : (n a b : ℕ) → a < 2 ^ n → bit_and a b < 2 ^ n
bit_and-lt zero a b h = let e : a ≡ 0 = omega arith in rw e (omega (arith, zero-bit_and b))
bit_and-lt (suc n) a b h = omega (
  arith,
  bit_and_step a b,
  pow-suc 2 n,
  bit_and-lt n (a / 2) (b / 2) (omega (arith, pow-suc 2 n)),
)

-- `w & (2 ^ k - 1)` is the remainder.
pub bit_and-ones : (k w : ℕ) → bit_and w (2 ^ k - 1) ≡ w % 2 ^ k
bit_and-ones zero w = rw bit_and-zero (omega arith)
bit_and-ones (suc k) w =
    let half : (2 ^ suc k - 1) / 2 ≡ 2 ^ k - 1 = omega (arith, pow-suc 2 k, one-le-pow k 2) in
    omega (
      arith,
      bit_and_step w (2 ^ suc k - 1),
      ap (bit_and (w / 2)) half,
      bit_and-ones k (w / 2),
      mod-two-pow-suc k w,
      pow-suc 2 k,
      one-le-pow k 2,
    )
