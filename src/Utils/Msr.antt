-- ===== src/Utils/Msr.antt =====
-- Class Msr of src/utils.cpp: reads and writes of whole model specific registers and of bit fields.
-- A register is a `uint64_t`, written as a number below 2 ^ 64.
pub mod Masks
pub mod Fields
pub mod Store
mod Examples
use Prim.Native.Nat.{bit_and, bit_or}
use mathlib.Core.Option
use mammut.Common.{
  ℕ, zero, suc, ◌+◌, ◌-◌, ◌*◌, ◌/◌, ◌%◌, ◌^◌, ◌<◌, ◌≡◌, ◌≢◌, Bool, ◌&&◌, Option, none, some, ltb,
  leb, if◌then◌else◌,
}

-- The file `/dev/cpu/<id>/msr` behind `pread` and `pwrite` of 8 bytes: its contents, and what the
-- code relies on. `none` is a call that did not transfer all 8 bytes.
pub record Device : Type 1 where
  pub State : Type 0
  pub pread : State → ℕ → Option ℕ
  pub pwrite : State → ℕ → ℕ → Option State
  pub pread-lt : (s : State) (which v : ℕ) → pread s which ≡ some v → v < 2 ^ 64
  pub pread-pwrite :
      (s t : State) (which v : ℕ) → v < 2 ^ 64 → pwrite s which v ≡ some t → pread t which ≡ some v
  pub pread-pwrite_ne :
      (s t : State) (which other v : ℕ)
      → which ≢ other
      → pwrite s which v ≡ some t
      → pread t other ≡ pread s other

-- `value >> low & ((1 << bits) - 1)` of `readBits`, for `low <= high`.
unfoldable pub extract : ℕ → ℕ → ℕ → ℕ
extract high low value =
    let bits = high + 1 - low in
    if ltb bits 64 then bit_and (value / 2 ^ low) (2 ^ bits - 1) else value

-- `~ w` on 64 bits.
abbrev pub bit_not : ℕ → ℕ
bit_not w = 2 ^ 64 - 1 - w

abbrev pub in_field : ℕ → ℕ → ℕ → Bool
in_field high low i = leb low i && leb i high

-- One round of the loop of `writeBits`, over `oldValue` and `value`.
pub mask_round : ℕ → ℕ → ℕ → ℕ × ℕ → ℕ × ℕ
mask_round high low i (old, value) =
    if in_field high low i
    then (bit_and old (bit_not (2 ^ i)), value)
    else (old, bit_and value (bit_not (2 ^ i)))

-- The loop at index `i`, with `left` rounds to go.
pub mask_loop : ℕ → ℕ → ℕ → ℕ → ℕ × ℕ → ℕ × ℕ
mask_loop high low zero i p = p
mask_loop high low (suc left) i p = mask_loop high low left (i + 1) (mask_round high low i p)

-- What `writeBits` writes back, for the register's old value and the argument.
pub insert_bits : ℕ → ℕ → ℕ → ℕ → ℕ
insert_bits high low value old =
    let p = mask_loop high low 64 0 (old, value * 2 ^ low % 2 ^ 64) in bit_or p.0 p.1

module _ (d : Device) where
  open d use {State, pread, pwrite}

  -- `Msr::read`; `none` for the result `false`.
  unfoldable pub read : State → ℕ → Option ℕ
  read s which = pread s which

  -- `Msr::write`; `none` for the result `false`.
  pub write : State → ℕ → ℕ → Option State
  write s which value = pwrite s which value

  -- `Msr::readBits`; on `none` the caller's variable holds 0.
  unfoldable pub read_bits : State → ℕ → ℕ → ℕ → Option ℕ
  read_bits s which high low = elim (read s which) [
    | none ↦ none
    | some value ↦ some (extract high low value)
  ]

  -- `Msr::writeBits`. The result of its read is ignored: `junk` is what `oldValue` then holds.
  pub write_bits : ℕ → State → ℕ → ℕ → ℕ → ℕ → Option State
  write_bits junk s which high low value =
      write s which (insert_bits high low value (Option.get_or (read s which) junk))
