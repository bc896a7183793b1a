-- ===== src/CpuFreq/VoltageTable/Tables/Restores.antt =====
-- What measuring the voltages for all numbers of virtual cores gives and leaves.
use mammut.Common.{
  ℕ, zero, suc, ◌+◌, ◌≤◌, ◌≡◌, refl, ap, ◌∙◌, Bool, true, ◌&&◌, ◌||◌, [], ◌∷◌, ◌==◌, ltb, leb, ok,
  arith,
}
use mammut.Utils.Vectors.{contains}
use mammut.CpuFreq.Domain.{governor_userspace, Files, Domain}
use mammut.CpuFreq.Rollback.{Row, get_row}
use mammut.CpuFreq.Rollback.Writes.{Policies, Kernel, IsPolicy}
use mammut.CpuFreq.Rollback.Restores.{Possible}
use mammut.CpuFreq.Rollback.Settings.{InBounds}
use mammut.CpuFreq.VoltageTable.{VoltageTable, insert_entry}
use mammut.CpuFreq.VoltageTable.Measured.{Measuring, num_cores, get_voltage_table}
use mammut.CpuFreq.VoltageTable.Measured.Keys.{
  has_key, has_key-insert_entry, has_key-get_voltage_table,
}
use mammut.CpuFreq.VoltageTable.Measured.Restored.{Leaves, get_voltage_table-get_row}
use mammut.CpuFreq.VoltageTable.Tables.{insert_all, tables_loop, get_voltage_tables}

has_key-insert_all :
    {V : Type 0} (r tmp : VoltageTable V) (a b : ℕ)
    → has_key (insert_all r tmp) (a, b) ≡ (has_key r (a, b) || has_key tmp (a, b))
unfolding has_key insert_all
has_key-insert_all r [] a b = ground arith
has_key-insert_all r ((k, v) ∷ tmp) a b =
    has_key-insert_all (insert_entry k v r) tmp a b
    ∙ ground (arith, has_key-insert_entry r k v (a, b))

module _ {S V : Type 0} (files : Files S) (measuring : Measuring S V) (ps : Policies)
    (kernel : Kernel files ps) (leaves : Leaves files measuring) where
  tables_loop-lem :
      (s s1 s2 : S) (d : Domain) (only : Bool) (left i : ℕ) (r tmp t : VoltageTable V)
      → get_voltage_table files measuring s d i only ≡ ok (s1, tmp)
      → tables_loop files measuring s1 d only left (suc i) (insert_all r tmp) ≡ ok (s2, t)
      → tables_loop files measuring s d only (suc left) i r ≡ ok (s2, t)
  unfolding tables_loop
  tables_loop-lem s s1 s2 d only left i r tmp t e rest = rw e rest

  keys_round :
      (i left a : ℕ) (r tmp found in_table : Bool)
      → tmp ≡ (i == a && found)
      → in_table ≡ ((r || tmp) || (leb (suc i) a && ltb a (suc i + left) && found))
      → in_table ≡ (r || (leb i a && ltb a (i + suc left) && found))
  keys_round i left a r tmp found in_table e f = ground arith

  tables_loop-get_row :
      (left i : ℕ) (s : S) (d : Domain) (row : Row) (only : Bool) (r : VoltageTable V)
      → i + left ≤ suc (num_cores files measuring d only)
      → IsPolicy files ps kernel d
      → Possible files ps kernel d row
      → InBounds row
      → contains d.available_governors governor_userspace ≡ true
      → get_row files s d ≡ ok row
      → (s' : S) × (t : VoltageTable V) × (tables_loop files measuring s d only left i r
          ≡ ok (s', t))
        × (get_row files s' d ≡ ok row)
        × ((a b : ℕ)
            → has_key t (a, b) ≡ (
                has_key r (a, b)
                || (leb i a && ltb a (i + left) && contains d.available_frequencies b)))
  unfolding tables_loop
  tables_loop-get_row zero i s d row only r h is possible inside can set =
      (s, r, refl, set, λ a b. ground arith)
  tables_loop-get_row (suc left) i s d row only r h is possible inside can set =
      let (s1, tmp, e, set1) =
        get_voltage_table-get_row files measuring ps kernel leaves s d row i only set is possible
          inside can in
      let (s2, t, rest, set2, keys) =
        tables_loop-get_row left (suc i) s1 d row only (insert_all r tmp) (omega arith) is possible
          inside can set1 in
      (
        s2,
        t,
        tables_loop-lem s s1 s2 d only left i r tmp t e rest,
        set2,
        λ a b.
            keys_round i left a (has_key r (a, b)) (has_key tmp (a, b))
              (contains d.available_frequencies b) (has_key t (a, b))
              (has_key-get_voltage_table files measuring s s1 d i only tmp a b can (omega arith) e)
              (keys a b
                ∙ ap
                    (λ (q : Bool).
                      q
                      || (leb (suc i) a
                          && ltb a (suc i + left)
                          && contains d.available_frequencies b))
                    (has_key-insert_all r tmp a b)),
      )

  -- For cpufreq files that open, that the cores of a policy share and that other policies do not
  -- change, where a write changes no other file than its own and scaling_setspeed, and a kernel that
  -- accepts a governor that it has, a frequency that it has as a bound where the bounds stay in order,
  -- and one as the speed under userspace within the bounds: for a domain that is one policy of the kernel and can be set to userspace, and whose
  -- governor, frequency and bounds are what it can be set to, the frequency of userspace within the
  -- bounds, where keeping cores busy, letting them go and sleeping return and leave the cpufreq files
  -- alone, getVoltageTable for all numbers of virtual cores returns. Its table has an entry for each
  -- number up to that of the domain's cores and each available frequency, and no other, whatever
  -- voltages are read, and the domain's governor, frequency and bounds are what they were.
  pub get_voltage_tables-get_row :
      (before : S) (d : Domain) (row : Row) (only : Bool)
      → get_row files before d ≡ ok row
      → IsPolicy files ps kernel d
      → Possible files ps kernel d row
      → InBounds row
      → contains d.available_governors governor_userspace ≡ true
      → (after : S) × (t : VoltageTable V) × (get_voltage_tables files measuring before d only
          ≡ ok (after, t))
        × ((a b : ℕ)
            → has_key t (a, b)
              ≡ (leb a (num_cores files measuring d only) && contains d.available_frequencies b))
        × (get_row files after d ≡ ok row)
  unfolding get_voltage_tables has_key
  get_voltage_tables-get_row before d row only taken is possible inside can =
      let (after, t, e, set, keys) =
        tables_loop-get_row (suc (num_cores files measuring d only)) 0 before d row only []
          (omega arith) is possible inside can taken in
      (after, t, e, λ a b. keys a b ∙ ground arith, set)
