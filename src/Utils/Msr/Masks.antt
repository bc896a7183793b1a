-- ===== src/Utils/Msr/Masks.antt =====
-- What the loop of `Msr::writeBits` does to each bit.
use Prim.Native.Nat.{bit_and, suc-le-suc}
use mammut.Common.{
  ℕ, zero, suc, ◌+◌, ◌-◌, ◌*◌, ◌/◌, ◌%◌, ◌^◌, ◌≤◌, ◌<◌, ◌≡◌, ◌≢◌, ap, ◌∙◌, inl, inr, false, not,
  ◌&&◌, ltb, leb, if◌then◌else◌, arith, Bool-cases,
}
use mammut.Common.Bits.{
  bit, bit-le, bit-mod, bit-shl, bit-shr, bit-ones, bit-above, bit-bit_and, bit-bit_or,
  bit-complement, bit-one_shifted, bit-one_shifted_ne, bit_and-lt, bit_or-lt,
}
use mammut.Utils.Msr.{bit_not, in_field, mask_round, mask_loop, extract, insert_bits}
use native.Mathlib.Nat.{pow-le-pow_right, one-le-pow, le_trans, div-le_self}

module _ (i : ℕ) (hi : i < 64) where
  one_shifted-lt : 2 ^ i < 2 ^ 64
  one_shifted-lt =
      omega (arith, pow-le-pow_right {n = 2} (omega arith) {i = i} {j = 63} (omega arith))

  -- `w & ~(1 << i)` clears bit `i`.
  bit-clear_self : (w : ℕ) → bit i (bit_and w (bit_not (2 ^ i))) ≡ 0
  bit-clear_self w =
      bit-bit_and i w _
      ∙ omega (arith, bit-complement 64 i (2 ^ i) one_shifted-lt hi, bit-one_shifted i)

  -- It keeps the others.
  bit-clear_ne : (w j : ℕ) → j < 64 → i ≢ j → bit j (bit_and w (bit_not (2 ^ i))) ≡ bit j w
  bit-clear_ne w j hj ne =
      bit-bit_and j w _
      ∙ omega (
        arith,
        bit-complement 64 j (2 ^ i) one_shifted-lt hj,
        bit-one_shifted_ne i j ne,
        bit-le j w,
      )

bit-shl_above : (low j value : ℕ) → low ≤ j → bit j (value * 2 ^ low) ≡ bit (j - low) value
bit-shl_above low j value h =
    let e : j ≡ j - low + low = omega arith in
    ap (λ (t : ℕ). bit t (value * 2 ^ low)) e ∙ bit-shl low (j - low) value

module _ (high low : ℕ) where
  -- Of the bits `i` to `i + left - 1`, the loop clears those of the field in the old value.
  old_bits :
      (left i old value j : ℕ)
      → i + left ≤ 64
      → j < 64
      → bit j (mask_loop high low left i (old, value)).0
        ≡ (if in_field high low j && (leb i j && ltb j (i + left)) then 0 else bit j old)
  unfolding mask_loop mask_round
  old_bits zero i old value j h hj = ground arith
  old_bits (suc left) i old value j h hj = ground (
    arith,
    old_bits left (i + 1) (bit_and old (bit_not (2 ^ i))) value j,
    old_bits left (i + 1) old (bit_and value (bit_not (2 ^ i))) j,
    bit-clear_self i (omega arith) old,
    bit-clear_ne i (omega arith) old j hj,
  )

  -- And it clears the other bits in the new value.
  value_bits :
      (left i old value j : ℕ)
      → i + left ≤ 64
      → j < 64
      → bit j (mask_loop high low left i (old, value)).1
        ≡ (if not (in_field high low j) && (leb i j && ltb j (i + left)) then 0 else bit j value)
  unfolding mask_loop mask_round
  value_bits zero i old value j h hj = ground arith
  value_bits (suc left) i old value j h hj = ground (
    arith,
    value_bits left (i + 1) (bit_and old (bit_not (2 ^ i))) value j,
    value_bits left (i + 1) old (bit_and value (bit_not (2 ^ i))) j,
    bit-clear_self i (omega arith) value,
    bit-clear_ne i (omega arith) value j hj,
  )

  masks-lt :
      (left i old value : ℕ)
      → old < 2 ^ 64
      → value < 2 ^ 64
      → ((mask_loop high low left i (old, value)).0 < 2 ^ 64)
        × ((mask_loop high low left i (old, value)).1 < 2 ^ 64)
  unfolding mask_loop mask_round
  masks-lt zero i old value ho hv = (ho, hv)
  masks-lt (suc left) i old value ho hv = ground (
    arith,
    masks-lt left (i + 1) (bit_and old (bit_not (2 ^ i))) value,
    masks-lt left (i + 1) old (bit_and value (bit_not (2 ^ i))),
    bit_and-lt 64 old (bit_not (2 ^ i)) ho,
    bit_and-lt 64 value (bit_not (2 ^ i)) hv,
  )

  pub insert_bits-lt : (value old : ℕ) → old < 2 ^ 64 → insert_bits high low value old < 2 ^ 64
  unfolding insert_bits
  insert_bits-lt value old h =
      let m = masks-lt 64 0 old (value * 2 ^ low % 2 ^ 64) h (omega arith) in
      bit_or-lt 64 _ _ m.0 m.1

  -- A bit of the field comes from the argument, any other from the old value.
  pub insert_bits-bit :
      (value old j : ℕ)
      → j < 64
      → low ≤ high
      → bit j (insert_bits high low value old)
        ≡ (if in_field high low j then bit (j - low) value else bit j old)
  unfolding insert_bits
  insert_bits-bit value old j hj h = ground (
    arith,
    bit-bit_or j (mask_loop high low 64 0 (old, value * 2 ^ low % 2 ^ 64)).0
        (mask_loop high low 64 0 (old, value * 2 ^ low % 2 ^ 64)).1,
    old_bits 64 0 old (value * 2 ^ low % 2 ^ 64) j,
    value_bits 64 0 old (value * 2 ^ low % 2 ^ 64) j,
    bit-mod 64 j (value * 2 ^ low) hj,
    bit-shl_above low j value,
  )

-- The bits of a field that is read, from the lowest.
pub extract-bit :
    (high low w j : ℕ)
    → low ≤ high
    → high < 64
    → w < 2 ^ 64
    → bit j (extract high low w) ≡ (if ltb j (high + 1 - low) then bit (j + low) w else 0)
unfolding extract
extract-bit high low w j h hh hw = elim (Bool-cases (ltb (high + 1 - low) 64)) [
  | inl narrow ↦ rw narrow (
      ground (
        arith,
        bit-bit_and j (w / 2 ^ low) (2 ^ (high + 1 - low) - 1),
        bit-shr low j w,
        bit-ones (high + 1 - low) j,
        bit-above (high + 1 - low) j (2 ^ (high + 1 - low) - 1)
            (omega (arith, one-le-pow (high + 1 - low) 2)),
        bit-le (j + low) w,
      ))
  | inr wide ↦
      rw wide (ground (arith, bit-above 64 j w hw, ap (λ (t : ℕ). bit t w) (all_of_it wide)))
]
  where
    all_of_it : ltb (high + 1 - low) 64 ≡ false → j + low ≡ j
    all_of_it e = ground arith

pub extract-lt : (high low w : ℕ) → w < 2 ^ 64 → extract high low w < 2 ^ 64
unfolding extract
extract-lt high low w h = ground (
  arith,
  bit_and-lt 64 (w / 2 ^ low) (2 ^ (high + 1 - low) - 1)
      (le_trans (suc-le-suc (div-le_self w (2 ^ low))) h),
)
