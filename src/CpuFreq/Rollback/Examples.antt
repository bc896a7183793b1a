-- ===== src/CpuFreq/Rollback/Examples.antt =====
-- Two domains of one core each, in userspace and out of it.
use mammut.Common.{
  ℕ, ◌+◌, ap, sym, ◌∙◌, ◌≡◌, ◌≢◌, ◌⊎◌, refl, inl, inr, Bool, true, false, ◌&&◌, some, [], ◌∷◌, ◌==◌,
  leb, ==_false, ==_self, Bool-cases, All, if◌then◌else◌, ok, arith,
}
use mathlib.Core.Option.{some-injective}
use mammut.Utils.Vectors.{contains}
use mammut.CpuFreq.Domain.{
  File, scaling_governor, scaling_setspeed, scaling_min_freq, scaling_max_freq, Files, Domain,
  read_first, get_current_governor, get_current_frequency_userspace, get_current_governor_bounds,
}
use mammut.CpuFreq.Rollback.{Row, get_row, get_rollback_point, rollback}
use mammut.CpuFreq.Rollback.Writes.{Policies, Accepts, Kernel, IsPolicy}
use mammut.CpuFreq.Rollback.RoundTrip.{Same, rollback-get_rollback_point}
use mammut.CpuFreq.VoltageTable.{VoltageTable}
use mammut.CpuFreq.VoltageTable.Measured.{Measuring, num_cores}
use mammut.CpuFreq.VoltageTable.Measured.Keys.{has_key}
use mammut.CpuFreq.VoltageTable.Measured.Restored.{Leaves}
use mammut.CpuFreq.VoltageTable.Tables.{get_voltage_tables}
use mammut.CpuFreq.VoltageTable.Tables.Restores.{get_voltage_tables-get_row}

same_file : File → File → Bool
same_file scaling_governor scaling_governor = true
same_file scaling_setspeed scaling_setspeed = true
same_file scaling_min_freq scaling_min_freq = true
same_file scaling_max_freq scaling_max_freq = true
same_file f g = false

same_file_refl : (f : File) → same_file f f ≡ true
unfolding same_file
same_file_refl scaling_governor = refl
same_file_refl scaling_setspeed = refl
same_file_refl scaling_min_freq = refl
same_file_refl scaling_max_freq = refl

same_file-ne : (f g : File) → f ≢ g → same_file f g ≡ false
unfolding same_file
same_file-ne scaling_governor scaling_governor ne = absurd (ne refl)
same_file-ne scaling_governor scaling_setspeed ne = refl
same_file-ne scaling_governor scaling_min_freq ne = refl
same_file-ne scaling_governor scaling_max_freq ne = refl
same_file-ne scaling_setspeed scaling_governor ne = refl
same_file-ne scaling_setspeed scaling_setspeed ne = absurd (ne refl)
same_file-ne scaling_setspeed scaling_min_freq ne = refl
same_file-ne scaling_setspeed scaling_max_freq ne = refl
same_file-ne scaling_min_freq scaling_governor ne = refl
same_file-ne scaling_min_freq scaling_setspeed ne = refl
same_file-ne scaling_min_freq scaling_min_freq ne = absurd (ne refl)
same_file-ne scaling_min_freq scaling_max_freq ne = refl
same_file-ne scaling_max_freq scaling_governor ne = refl
same_file-ne scaling_max_freq scaling_setspeed ne = refl
same_file-ne scaling_max_freq scaling_min_freq ne = refl
same_file-ne scaling_max_freq scaling_max_freq ne = absurd (ne refl)

abbrev State : Type 0
State = ℕ → File → ℕ

abbrev put : State → ℕ → File → ℕ → State
put s core file v core' file' = if core == core' && same_file file file' then v else s core' file'

abbrev policies : Policies
policies = record {
  policy = λ core. core;
  governors = λ p. 1 ∷ 3 ∷ [];
  frequencies = λ p. 1200000 ∷ 2400000 ∷ [];
}

-- What this kernel accepts.
fine : State → ℕ → File → ℕ → Bool
fine s core scaling_governor v = contains (policies.governors core) v
fine s core scaling_setspeed v =
    contains (policies.frequencies core) v
    && s core scaling_governor == 3
    && leb (s core scaling_min_freq) v
    && leb v (s core scaling_max_freq)
fine s core scaling_min_freq v =
    contains (policies.frequencies core) v && leb v (s core scaling_max_freq)
fine s core scaling_max_freq v =
    contains (policies.frequencies core) v && leb (s core scaling_min_freq) v

-- A write that is not accepted leaves everything as it is, and is not noticed.
abbrev table : Files State
table = record {
  read = λ s core file. some (s core file);
  write = λ s core file v. some (if fine s core file v then put s core file v else s);
}

Accepts-fine :
    (s : State) (core : ℕ) (file : File) (v : ℕ)
    → Accepts table policies s core file v
    → fine s core file v ≡ true
unfolding fine
Accepts-fine s core scaling_governor v a = a
Accepts-fine s core scaling_setspeed v (has, user, lower, upper, el, eu, ge, le) =
    let u : s core scaling_governor ≡ 3 = some-injective _ _ user in
    let l : s core scaling_min_freq ≡ lower = some-injective _ _ el in
    let h : s core scaling_max_freq ≡ upper = some-injective _ _ eu in
    rw (has, u, l, h) (ground (arith, ge, le))
Accepts-fine s core scaling_min_freq v (has, upper, eu, le) =
    let h : s core scaling_max_freq ≡ upper = some-injective _ _ eu in
    rw (has, h) (ground (arith, le))
Accepts-fine s core scaling_max_freq v (has, lower, el, ge) =
    let l : s core scaling_min_freq ≡ lower = some-injective _ _ el in
    rw (has, l) (ground (arith, ge))

-- What is read after a write.
read-write :
    (s s' : State) (core core' : ℕ) (file file' : File) (v : ℕ)
    → table.write s core file v ≡ some s'
    → (s' core' file' ≡ put s core file v core' file')
      ⊎ ((fine s core file v ≡ false) × (s' core' file' ≡ s core' file'))
read-write s s' core core' file file' v e = elim (Bool-cases (fine s core file v)) [
  | inl h ↦ inl (ap (λ (t : State). t core' file') (sym (some-injective _ _ (rw h at e))))
  | inr h ↦ inr (h, ap (λ (t : State). t core' file') (sym (some-injective _ _ (rw h at e))))
]

table-Kernel : Kernel table policies
table-Kernel = record {
  opens = λ s core file v. (_, refl);
  shared = λ s core core' file q. ap (λ (c : ℕ). some (s c file)) q;
  accepted = λ s s' core file v e a. elim (read-write s s' core core file file v e) [
    | inl q ↦ ap some (q ∙ rw (==_self core, same_file_refl file) refl)
    | inr (no_write, q) ↦ let y = Accepts-fine s core file v a in absurd cc
  ];
  other_policy = λ s s' core core' file file' v e ne.
      elim (read-write s s' core core' file file' v e) [
        | inl q ↦ ap some (q ∙ rw (==_false core core' (λ p. ne (sym p))) refl)
        | inr (no_write, q) ↦ ap some q
      ];
  other_file = λ s s' core core' file file' v e ne ng.
      elim (read-write s s' core core' file file' v e) [
        | inl q ↦ ap some (
            q ∙ elim (Bool-cases (core == core')) [
              | inl p ↦ rw (p, same_file-ne file file' ne) refl
              | inr p ↦ rw p refl
            ])
        | inr (no_write, q) ↦ ap some q
      ];
}

abbrev domain_of : ℕ → Domain
domain_of core = record {
  first = core;
  others = [];
  available_frequencies = 1200000 ∷ 2400000 ∷ [];
  turbo_frequencies = [];
  available_governors = 1 ∷ 3 ∷ [];
}

-- Core 0 is in userspace at 2400000, core 1 is on demand.
before : State
before core scaling_governor = if core == 0 then 3 else 1
before core scaling_setspeed = 2400000
before core scaling_min_freq = 1200000
before core scaling_max_freq = 2400000

domain_of-IsPolicy : (core : ℕ) → IsPolicy table policies table-Kernel (domain_of core)
domain_of-IsPolicy core = record { one = tt; governors = λ g h. h; frequencies = λ f h. h }

-- Afterwards both cores are on demand, and core 1 stays at the highest frequency.
later : State
later core scaling_governor = 1
later core scaling_setspeed = 1200000
later core scaling_min_freq = if core == 0 then 1200000 else 2400000
later core scaling_max_freq = 2400000

abbrev row_of : ℕ → ℕ → Row
row_of governor frequency = record {
  governor = governor;
  frequency = frequency;
  lower_bound = 1200000;
  upper_bound = 2400000;
}

rollback-get_rollback_point_example :
    (after : State) × (rollback table later
        (domain_of 0 ∷ domain_of 1 ∷ [])
        (row_of 3 2400000 ∷ row_of 1 0 ∷ [])
      ≡ ok after)
    × All (Same table policies table-Kernel before after) (domain_of 0 ∷ domain_of 1 ∷ [])
unfolding get_rollback_point get_row read_first get_current_governor get_current_frequency_userspace
    get_current_governor_bounds before later contains
rollback-get_rollback_point_example =
    rollback-get_rollback_point table policies table-Kernel before later
      (domain_of 0 ∷ domain_of 1 ∷ []) (row_of 3 2400000 ∷ row_of 1 0 ∷ []) refl
      (
        domain_of-IsPolicy 0,
        (refl, inl (refl, refl)),
        record {
          lower = 1200000;
          upper = 2400000;
          reads_lower = refl;
          reads_upper = refl;
          within = inl (refl, omega arith, omega arith);
        },
        (λ e. omega arith, tt),
        (
          domain_of-IsPolicy 1,
          (refl, inr (refl, refl, refl, refl)),
          record {
            lower = 2400000;
            upper = 2400000;
            reads_lower = refl;
            reads_upper = refl;
            within = inr (refl, omega arith);
          },
          tt,
          tt,
        ),
      )

-- Measuring in which a core is kept busy at no cost, and every voltage is 1.
abbrev idle_measuring : Measuring State ℕ
idle_measuring = record {
  maximize_utilization = λ s core. ok s;
  reset_utilization = λ s core. ok s;
  get_one_virtual_per_physical = λ cores. cores;
  sleep = λ s. s;
  get_current_voltage = λ s d. 1;
  no_voltage = 0;
  plus = λ v w. v + w;
  over = λ v n. v;
}

idle_measuring-Leaves : Leaves table idle_measuring
idle_measuring-Leaves = record {
  maximizes = λ s core. (s, refl, λ c f. refl);
  resets = λ s core. (s, refl, λ c f. refl);
  sleeps = λ s c f. refl;
}

get_voltage_tables-get_row_example :
    (after : State) × (t : VoltageTable ℕ) × (get_voltage_tables table idle_measuring before
        (domain_of 0)
        true
      ≡ ok (after, t))
    × ((a b : ℕ)
        → has_key t (a, b) ≡ (
            leb a (num_cores table idle_measuring (domain_of 0) true)
            && contains (domain_of 0).available_frequencies b))
    × (get_row table after (domain_of 0) ≡ ok (row_of 3 2400000))
unfolding get_row read_first get_current_governor get_current_frequency_userspace
    get_current_governor_bounds before contains
get_voltage_tables-get_row_example =
    get_voltage_tables-get_row table idle_measuring policies table-Kernel idle_measuring-Leaves
      before (domain_of 0) (row_of 3 2400000) true refl (domain_of-IsPolicy 0)
      (refl, inl (refl, refl)) (λ user. (omega arith, omega arith)) refl

-- Both bounds of a core are at 1200000 and are to be raised to 2400000.
abbrev lowest : State
lowest core file = 1200000
