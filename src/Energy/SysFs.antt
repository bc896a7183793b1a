-- ===== src/Energy/SysFs.antt =====
-- Class CounterCpusLinuxSysFs of src/energy/energy-linux.cpp: the same counters read from the files
-- of the powercap interface. Energy is counted in microjoules, the unit of the files; the source
-- divides each number by 1000000 into a `double`, whose rounding is not modelled. The start of the
-- thread that refreshes the counters is left out.
pub mod Wraps
mod Examples
use mammut.Common.{
  ℕ, zero, suc, ◌+◌, ◌-◌, ◌<◌, ◌≡◌, Bool, true, false, not, ◌&&◌, Option, some, none, List, [], ◌∷◌,
  length, replicate, get_elem?, set, ltb, if◌then◌else◌, Error, Result, ok, throw, ◌>>=◌, or_throw,
  Text, codes, text_eq,
}
use mammut.Common.Int.{ℤ, pos, sub_ℕ, ◌+ℤ◌}

-- The files at one moment: the number in `energy_uj` of a package, or of the subzone `sub` of it.
-- `none` is a file that is not there.
abbrev pub Files : Type 0
Files = ℕ → Option ℕ → Option ℕ

-- An entry of `_joulesCpus`, which may be negative, and the entry of the vector of last readings.
pub record Track : Type 0 where
  pub joules : ℤ
  pub last : ℕ

pub record Slot : Type 0 where
  pub cpu : Track
  pub cores : Track
  pub graphic : Track
  pub dram : Track

-- `_idCores`, `_idGraphic` and `_idDram`, with `none` for -1; a slot holds, for a CPU, the entries of
-- `_joulesCpus` and of the four vectors of last readings.
pub record Counter : Type 0 where
  pub num_cpus : ℕ
  pub id_cores : Option ℕ
  pub id_graphic : Option ℕ
  pub id_dram : Option ℕ
  pub slots : List Slot
  pub max_value : ℕ

-- The difference of two readings in `read`. It is negative where the last reading was above
-- `_maxValue` by more than this one.
pub difference : ℕ → ℕ → ℕ → ℤ
difference max_value last now =
    if ltb now last then sub_ℕ (max_value + now) last else pos (now - last)

-- `read`
pub read : ℕ → Files → ℕ → Option ℕ → Track → Result Track
read max_value files cpu_id sub t = do
  now ← or_throw Error.open_failed (files cpu_id sub)
  ok (record { joules = t.joules +ℤ difference max_value t.last now; last = now })

abbrev pub slot_at : Counter → ℕ → Result Slot
slot_at c id = or_throw Error.uninitialised (get_elem? c.slots id)

abbrev pub with_slot : Counter → ℕ → Slot → Counter
with_slot c id s = record c { slots = set c.slots id s }

-- `getJoulesCpu`
pub get_joules_cpu : Counter → Files → ℕ → Result (Counter × ℤ)
get_joules_cpu c files id = do
  s ← slot_at c id
  t ← read c.max_value files id none s.cpu
  ok (with_slot c id (record s { cpu = t }), t.joules)

cores_from : Option ℕ → Counter → Files → ℕ → Result (Counter × ℤ)
cores_from none c files id = ok (c, pos 0)
cores_from (some sub) c files id = do
  s ← slot_at c id
  t ← read c.max_value files id (some sub) s.cores
  ok (with_slot c id (record s { cores = t }), t.joules)

-- `getJoulesCores`
pub get_joules_cores : Counter → Files → ℕ → Result (Counter × ℤ)
unfolding cores_from
get_joules_cores c files id = cores_from c.id_cores c files id

graphic_from : Option ℕ → Counter → Files → ℕ → Result (Counter × ℤ)
graphic_from none c files id = ok (c, pos 0)
graphic_from (some sub) c files id = do
  s ← slot_at c id
  t ← read c.max_value files id (some sub) s.graphic
  ok (with_slot c id (record s { graphic = t }), t.joules)

-- `getJoulesGraphic`
pub get_joules_graphic : Counter → Files → ℕ → Result (Counter × ℤ)
unfolding graphic_from
get_joules_graphic c files id = graphic_from c.id_graphic c files id

dram_from : Option ℕ → Counter → Files → ℕ → Result (Counter × ℤ)
dram_from none c files id = ok (c, pos 0)
dram_from (some sub) c files id = do
  s ← slot_at c id
  t ← read c.max_value files id (some sub) s.dram
  ok (with_slot c id (record s { dram = t }), t.joules)

-- `getJoulesDram`
pub get_joules_dram : Counter → Files → ℕ → Result (Counter × ℤ)
unfolding dram_from
get_joules_dram c files id = dram_from c.id_dram c files id

-- One round of the loop of `reset`.
pub reset_slot : Counter → Files → ℕ → Result Counter
reset_slot c files i = get_joules_cpu c files i >>= λ r. get_joules_cores r.0 files i >>= λ q.
    get_joules_graphic q.0 files i >>= λ p. get_joules_dram p.0 files i >>= λ o.
    slot_at o.0 i >>= λ s. ok (
      with_slot o.0 i (record {
        cpu = record { joules = pos 0; last = s.cpu.last };
        cores = record { joules = pos 0; last = s.cores.last };
        graphic = record { joules = pos 0; last = s.graphic.last };
        dram = record { joules = pos 0; last = s.dram.last };
      }))

pub reset_loop : ℕ → ℕ → Counter → Files → Result Counter
reset_loop zero i c files = ok c
reset_loop (suc left) i c files = reset_slot c files i >>= λ c'. reset_loop left (i + 1) c' files

-- `reset`
pub reset : Counter → Files → Result Counter
reset c files = reset_loop c.num_cpus 0 c files

-- The first loop of `init`.
pub all_present : ℕ → ℕ → Files → Bool
all_present zero i files = true
all_present (suc left) i files =
    elim (files i none) [ none ↦ false | some v ↦ true ] && all_present left (i + 1) files

-- The three ids after the loop over the subzones of package 0, whose names are given.
pub record Ids : Type 0 where
  pub cores : Option ℕ
  pub graphic : Option ℕ
  pub dram : Option ℕ

pub scan_name : Text → ℕ → Ids → Ids
scan_name name sub ids =
    if text_eq name (codes "core")
    then record ids { cores = some sub }
    else if text_eq name (codes "dram")
    then record ids { dram = some sub }
    else if text_eq name (codes "uncore")
    then record ids { graphic = some sub }
    else ids

pub scan : List Text → ℕ → Ids → Ids
scan [] sub ids = ids
scan (name ∷ names) sub ids = scan names (sub + 1) (scan_name name sub ids)

abbrev blank : Slot
blank =
    let t : Track = record { joules = pos 0; last = 0 } in
    record { cpu = t; cores = t; graphic = t; dram = t }

-- `init`, for the number of CPUs, the names of the subzones 0, 1, … of package 0 up to the first that
-- is not there, and the number in `max_energy_range_uj`; `ok none` for the result `false`.
pub init : ℕ → List Text → Option ℕ → Files → Result (Option Counter)
init num_cpus names max_energy_range files =
    if all_present num_cpus 0 files
    then (or_throw Error.open_failed max_energy_range >>= λ max_value.
        let ids = scan names 0 (record { cores = none; graphic = none; dram = none }) in
        reset
          (record {
            num_cpus = num_cpus;
            id_cores = ids.cores;
            id_graphic = ids.graphic;
            id_dram = ids.dram;
            slots = replicate num_cpus blank;
            max_value = max_value;
          })
          files
        >>= λ c. ok (some c))
    else ok none
