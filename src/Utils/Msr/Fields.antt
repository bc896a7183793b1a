-- ===== src/Utils/Msr/Fields.antt =====
-- Bit fields of registers, read back after they are written: `readBits` and `writeBits` together.
use mammut.Common.{
  ℕ, ◌+◌, ◌-◌, ◌%◌, ◌^◌, ◌≤◌, ◌<◌, ◌≡◌, ◌≢◌, ap, sym, ◌∙◌, ◌⊎◌, Option, some, arith, Option-cases,
  inl, inr,
}
use mammut.Common.Bits.{bit, bit_ext, bit-mod, bit-above, bit-zero}
use mammut.Utils.Msr.{Device, extract, insert_bits, read, write, read_bits, write_bits}
use mammut.Utils.Msr.Masks.{insert_bits-lt, insert_bits-bit, extract-bit, extract-lt}
use mathlib.Core.Option
use native.Mathlib.Decide.{ℕ_discrete}
use native.Mathlib.Nat.{mod-lt, one-le-pow, le_trans, pow-le-pow_right}

add-sub-cancel : (j k : ℕ) → j + k - k ≡ j
add-sub-cancel j k = omega arith

module _ (high low value old : ℕ) (lh : low ≤ high) (h64 : high < 64) (small : old < 2 ^ 64) where
  now_small : insert_bits high low value old < 2 ^ 64
  now_small = insert_bits-lt high low value old small

  extract-insert_bits :
      extract high low (insert_bits high low value old) ≡ value % 2 ^ (high + 1 - low)
  extract-insert_bits =
      bit_ext 64 _ _ (extract-lt high low _ now_small)
        (le_trans (mod-lt value (one-le-pow _ 2 (omega arith)))
          (pow-le-pow_right {n = 2} (omega arith) {i = high + 1 - low} {j = 64} (omega arith)))
        λ j hj. ground (
          arith,
          extract-bit high low (insert_bits high low value old) j lh h64 now_small,
          insert_bits-bit high low value old (j + low),
          bit-mod (high + 1 - low) j value,
          bit-above (high + 1 - low) j (value % 2 ^ (high + 1 - low))
              (mod-lt value (one-le-pow _ 2 (omega arith))),
          ap (λ (t : ℕ). bit t value) (add-sub-cancel j low),
        )

  -- Of the bits of a zero that is written, each field inside reads as zero.
  extract-insert_bits_zero :
      (high' low' : ℕ)
      → value ≡ 0
      → low ≤ low'
      → low' ≤ high'
      → high' ≤ high
      → extract high' low' (insert_bits high low value old) ≡ 0
  extract-insert_bits_zero high' low' z l m h =
      bit_ext 64 _ _ (extract-lt high' low' _ now_small) (omega arith) λ j hj. ground (
        arith,
        extract-bit high' low' (insert_bits high low value old) j m (omega arith) now_small,
        insert_bits-bit high low value old (j + low'),
        bit-zero j,
        ap (λ (t : ℕ). bit (j + low' - low) t) z,
        bit-zero (j + low' - low),
      )

  -- A field that lies apart from the written one keeps its value.
  extract-insert_bits_apart :
      (high' low' : ℕ)
      → low' ≤ high'
      → high' < 64
      → (high' < low) ⊎ (high < low')
      → extract high' low' (insert_bits high low value old) ≡ extract high' low' old
  extract-insert_bits_apart high' low' lh' h64' apart =
      bit_ext 64 _ _ (extract-lt high' low' _ now_small) (extract-lt high' low' _ small) λ j hj.
        ground (
          arith,
          extract-bit high' low' (insert_bits high low value old) j lh' h64' now_small,
          extract-bit high' low' old j lh' h64' small,
          insert_bits-bit high low value old (j + low'),
        )

module _ (d : Device) where
  open d use {State, pread-lt, pread-pwrite, pread-pwrite_ne}

  old-lt :
      (junk : ℕ) (s : State) (which : ℕ)
      → junk < 2 ^ 64
      → Option.get_or (read d s which) junk < 2 ^ 64
  unfolding read
  old-lt junk s which h = elim (Option-cases (d.pread s which)) [
    | inl e ↦ rw e h
    | inr (v, e) ↦ rw e (pread-lt s which v e)
  ]

  read_bits-some :
      (s : State) (which high low v : ℕ)
      → read d s which ≡ some v
      → read_bits d s which high low ≡ some (extract high low v)
  unfolding read_bits
  read_bits-some s which high low v e = rw (e, read_bits)

  read_bits-congr :
      (s t : State) (which high low : ℕ)
      → read d t which ≡ read d s which
      → read_bits d t which high low ≡ read_bits d s which high low
  unfolding read_bits
  read_bits-congr s t which high low e = rw (e, read_bits)

  -- Every write of the register is accepted.
  abbrev pub IsWritable : ℕ → Type 0
  IsWritable which = (s : State) (v : ℕ) → v < 2 ^ 64 → (t : State) × (d.pwrite s which v ≡ some t)

  pub write_bits-returns :
      (junk : ℕ) (s : State) (which high low value : ℕ)
      → IsWritable which
      → junk < 2 ^ 64
      → (t : State) × (write_bits d junk s which high low value ≡ some t)
  unfolding write_bits write
  write_bits-returns junk s which high low value w h =
      w s _ (insert_bits-lt high low value _ (old-lt junk s which h))

  module _ (junk : ℕ) (s t : State) (which high low value : ℕ) (jh : junk < 2 ^ 64)
      (lh : low ≤ high) (h64 : high < 64)
      (written : write_bits d junk s which high low value ≡ some t) where
    pub stored :
        read d t which ≡ some (insert_bits high low value (Option.get_or (read d s which) junk))
    unfolding write_bits read write
    stored =
        pread-pwrite s t which _ (insert_bits-lt high low value _ (old-lt junk s which jh)) written

    -- After `writeBits` returns true, `readBits` of the same field of the register gives the value
    -- cut to the width of the field.
    pub read_bits-write_bits : read_bits d t which high low ≡ some (value % 2 ^ (high + 1 - low))
    read_bits-write_bits =
        read_bits-some t which high low _ stored
        ∙ ap some (extract-insert_bits high low value _ lh h64 (old-lt junk s which jh))

    pub read_bits-write_bits_zero :
        (high' low' : ℕ)
        → value ≡ 0
        → low ≤ low'
        → low' ≤ high'
        → high' ≤ high
        → read_bits d t which high' low' ≡ some 0
    read_bits-write_bits_zero high' low' z l m h =
        read_bits-some t which high' low' _ stored
        ∙ ap some (
            extract-insert_bits_zero high low value _ lh h64 (old-lt junk s which jh) high' low' z l
              m h)

    -- A register other than the written one reads as before.
    pub read_bits-write_bits_other :
        (other high' low' : ℕ)
        → which ≢ other
        → read_bits d t other high' low' ≡ read_bits d s other high' low'
    unfolding write_bits read write
    read_bits-write_bits_other other high' low' ne =
        read_bits-congr s t other high' low' (pread-pwrite_ne s t which other _ ne written)

    same_register :
        (old high' low' : ℕ)
        → read d s which ≡ some old
        → low' ≤ high'
        → high' < 64
        → (high' < low) ⊎ (high < low')
        → read_bits d t which high' low' ≡ read_bits d s which high' low'
    unfolding read
    same_register old high' low' readable lh' h64' apart =
        read_bits-some t which high' low' _ stored
        ∙ ap some (
            ap
              (λ (o : Option ℕ).
                extract high' low' (insert_bits high low value (Option.get_or o junk)))
              readable
            ∙ extract-insert_bits_apart high low value old lh h64 (pread-lt s which old readable)
                high' low' lh' h64' apart)
        ∙ sym (read_bits-some s which high' low' old readable)

    -- After `writeBits` returns true on a register that could be read, every field apart from the
    -- written one, and every field of another register, reads as before.
    pub read_bits-write_bits_apart :
        (old other high' low' : ℕ)
        → read d s which ≡ some old
        → low' ≤ high'
        → high' < 64
        → (which ≢ other) ⊎ ((high' < low) ⊎ (high < low'))
        → read_bits d t other high' low' ≡ read_bits d s other high' low'
    read_bits-write_bits_apart old other high' low' readable lh' h64' (inl ne) =
        read_bits-write_bits_other other high' low' ne
    read_bits-write_bits_apart old other high' low' readable lh' h64' (inr apart) =
        elim (ℕ_discrete which other) [
          | yes same ↦ rw (← same) (same_register old high' low' readable lh' h64' apart)
          | no ne ↦ read_bits-write_bits_other other high' low' ne
        ]
