-- ===== src/CpuFreq/VoltageTable/Examples.antt =====
-- A table of three entries; a number is written as a byte above those of the other signs, and a
-- voltage without its last digit, which is lost.
use mammut.Common.{ℕ, ◌+◌, ◌-◌, ◌*◌, ◌/◌, ◌<◌, ◌^◌, ◌≡◌, refl, arith, some, [], ◌∷◌, ok, Text}
use mammut.Utils.Vectors.{contains}
use mammut.CpuFreq.VoltageTable.{
  VoltageTable, key_lt, Formats, load_voltage_table, dump_voltage_table,
}
use mammut.CpuFreq.VoltageTable.RoundTrip.{WritesUint, Kept, load-dump_voltage_table}

abbrev read_byte : Text → ℕ
read_byte [] = 0
read_byte (c ∷ t) = c - 100

abbrev bytes : Formats ℕ
bytes = record {
  write_uint = λ n. (n + 100) ∷ [];
  write_double = λ v. (v / 10 + 100) ∷ [];
  string_to_int = read_byte;
  string_to_double = λ t. read_byte t * 10;
}

writes : WritesUint bytes
unfolding contains
writes = record { field = λ n. (ground arith, ground arith); read = λ n h. omega arith }

abbrev table : VoltageTable ℕ
table = ((1, 800), 917) ∷ ((1, 1200), 1020) ∷ ((2, 800), 922) ∷ []

kept : (a b v : ℕ) → a < 2 ^ 31 → b < 2 ^ 31 → Kept bytes ((a, b), v)
kept a b v p q = record { cores = p; frequency = q; field = writes.field (v / 10) }

load-dump_voltage_table_example :
    load_voltage_table bytes (some (dump_voltage_table bytes table))
    ≡ ok (((1, 800), 910) ∷ ((1, 1200), 1020) ∷ ((2, 800), 920) ∷ [])
unfolding contains key_lt
load-dump_voltage_table_example =
    load-dump_voltage_table bytes writes table (refl, (refl, tt))
      (
        kept 1 800 917 (omega arith) (omega arith),
        (
          kept 1 1200 1020 (omega arith) (omega arith),
          (kept 2 800 922 (omega arith) (omega arith), tt),
        ),
      )
