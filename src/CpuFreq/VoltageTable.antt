-- ===== src/CpuFreq/VoltageTable.antt =====
-- `loadVoltageTable` and `dumpVoltageTable` of src/cpufreq/cpufreq.cpp. The `std::map` of a voltage
-- table is the list of its pairs in the order of their keys; a file is the list of its lines, none
-- where it does not open. How a `uint` and a double are written and read are parameters.
pub mod RoundTrip
pub mod Measured
pub mod Tables
mod Examples
use mammut.Common.{
  ℕ, Bool, true, false, ◌&&◌, ◌||◌, Option, some, none, List, [], ◌∷◌, ◌++◌, get_elem?, ltb, ◌==◌,
  if◌then◌else◌, Error, Result, ok, throw, ◌>>=◌, or_throw, Text, codes,
}
use mammut.Utils.Strings.{split}

-- `VoltageTableKey`: a number of virtual cores and a frequency.
abbrev pub Key : Type 0
Key = ℕ × ℕ

-- The order of `std::pair`.
pub key_lt : Key → Key → Bool
key_lt (a, b) (c, d) = ltb a c || (a == c && ltb b d)

abbrev pub VoltageTable : Type 0 → Type 0
VoltageTable V = List (Key × V)

-- `insert_entry`, which leaves the value of a key that is there.
pub insert_entry : {V : Type 0} → Key → V → VoltageTable V → VoltageTable V
insert_entry k v [] = (k, v) ∷ []
insert_entry k v ((l, w) ∷ m) =
    let later = (l, w) ∷ insert_entry k v m in
    if key_lt k l then (k, v) ∷ (l, w) ∷ m else if key_lt l k then later else (l, w) ∷ m

-- How numbers are written to a stream and read from a text.
pub record Formats (V : Type 0) : Type 0 where
  pub write_uint : ℕ → Text
  pub write_double : V → Text
  pub string_to_int : Text → ℕ
  pub string_to_double : Text → V

module _ {V : Type 0} (formats : Formats V) where
  field_at : List Text → ℕ → Result Text
  field_at fields i = or_throw Error.out_of_range (get_elem? fields i)

  load_fields : List Text → VoltageTable V → Result (VoltageTable V)
  load_fields fields table = field_at fields 0 >>= λ cores. field_at fields 1 >>= λ frequency.
      field_at fields 2 >>= λ voltage. ok (
        insert_entry (formats.string_to_int cores, formats.string_to_int frequency)
          (formats.string_to_double voltage) table)

  -- A round of the loop of `loadVoltageTable`; `at(0)` throws on an empty line.
  load_line : Text → VoltageTable V → Result (VoltageTable V)
  load_line [] table = throw Error.out_of_range
  load_line (c ∷ line) table =
      let loaded = load_fields (split (c ∷ line) 59) table in if c == 35 then ok table else loaded

  load_loop : List Text → VoltageTable V → Result (VoltageTable V)
  load_loop [] table = ok table
  load_loop (line ∷ lines) table = load_line line table >>= λ table'. load_loop lines table'

  -- `loadVoltageTable`
  pub load_voltage_table : Option (List Text) → Result (VoltageTable V)
  load_voltage_table none = throw Error.open_failed
  load_voltage_table (some lines) = load_loop lines []

  dump_entry : Key × V → Text
  dump_entry ((cores, frequency), voltage) =
      formats.write_uint cores
      ++ 59 ∷ (formats.write_uint frequency ++ 59 ∷ formats.write_double voltage)

  dump_entries : VoltageTable V → List Text
  dump_entries [] = []
  dump_entries (entry ∷ table) = dump_entry entry ∷ dump_entries table

  -- `dumpVoltageTable`: the lines of the file.
  pub dump_voltage_table : VoltageTable V → List Text
  dump_voltage_table table =
      codes "# This file contains the voltage table in the following format: "
      ∷ codes "# NumVirtualCores;Frequency;Voltage"
      ∷ dump_entries table
