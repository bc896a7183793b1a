-- ===== src/Utils/Msr/Examples.antt =====
-- Writing a field of a register that holds 0xFF.
use mammut.Common.{ℕ, ◌≡◌, refl, inl, inr, some, arith}
use mammut.Utils.Msr.{mask_round, mask_loop, insert_bits, read, write, read_bits, write_bits}
use mammut.Utils.Msr.Fields.{read_bits-write_bits, read_bits-write_bits_apart}
use mammut.Utils.Msr.Store.{store, store_set}

abbrev all_ones : ℕ → ℕ
all_ones k = 0xFF

abbrev written : ℕ → ℕ
written = store_set all_ones 5 0xAF

read_bits-write_bits_example : read_bits store written 5 7 4 ≡ some 0xA
unfolding write_bits insert_bits mask_loop mask_round read write
read_bits-write_bits_example =
    read_bits-write_bits store 0 all_ones written 5 7 4 0xA (omega arith) (omega arith)
      (omega arith) refl

read_bits-write_bits_apart_example : read_bits store written 5 3 0 ≡ read_bits store all_ones 5 3 0
unfolding write_bits insert_bits mask_loop mask_round read write
read_bits-write_bits_apart_example =
    read_bits-write_bits_apart store 0 all_ones written 5 7 4 0xA (omega arith) (omega arith)
      (omega arith) refl 0xFF 5 3 0 refl (omega arith) (omega arith) (inr (inl (omega arith)))
