-- ===== src/CpuFreq/VoltageTable/Tables.antt =====
-- `DomainLinux::getVoltageTable` of src/cpufreq/cpufreq-linux.cpp for all numbers of virtual cores.
pub mod Restores
use mammut.Common.{ℕ, zero, suc, Bool, List, [], ◌∷◌, length, Result, ok, ◌>>=◌}
use mammut.CpuFreq.Domain.{Files, Domain}
use mammut.CpuFreq.VoltageTable.{VoltageTable, insert_entry}
use mammut.CpuFreq.VoltageTable.Measured.{Measuring, num_cores, get_voltage_table}

-- The inner loop: what is in `r` already stays.
pub insert_all : {V : Type 0} → VoltageTable V → VoltageTable V → VoltageTable V
insert_all r [] = r
insert_all r ((k, v) ∷ tmp) = insert_all (insert_entry k v r) tmp

module _ {S V : Type 0} (files : Files S) (measuring : Measuring S V) where
  -- The loop from the number `i` of virtual cores on, with `left` rounds to go.
  pub tables_loop : S → Domain → Bool → ℕ → ℕ → VoltageTable V → Result (S × VoltageTable V)
  tables_loop s d only zero i r = ok (s, r)
  tables_loop s d only (suc left) i r = get_voltage_table files measuring s d i only >>= λ tmp.
      tables_loop tmp.0 d only left (suc i) (insert_all r tmp.1)

  -- `getVoltageTable`
  pub get_voltage_tables : S → Domain → Bool → Result (S × VoltageTable V)
  get_voltage_tables s d only = tables_loop s d only (suc (num_cores files measuring d only)) 0 []
