-- ===== src/Energy/Msr/Init/Laws.antt =====
-- What `init` needs and gives.
use mammut.Common.{
  ℕ, zero, suc, ◌≤◌, ◌<◌, ◌≡◌, ◌≢◌, refl, inl, inr, true, false, some, none, List, [], ◌∷◌, length,
  length-replicate, get_elem?, ltb, if◌then◌else◌, Error, ok, throw, arith, Option-cases,
}
use mammut.Energy.Msr.{intel, Slot, Counter, JoulesCpu, is_opened}
use mammut.Energy.Msr.History.Polls.{flags, SlotInStep}
use mammut.Energy.Msr.Reset.{AllShow, reset-SlotInStep, reset_unopened}
use mammut.Energy.Msr.Init.{
  CpuInfo, Machine, available, all_supported, is_cpu_supported, is_cpu_intel_supported,
  is_cpu_amd_supported, family_of, max_id, open_msrs, registers, units_of, start, new_counter, init,
  init_family,
}

abbrev pub ids : List CpuInfo → List ℕ
ids [] = []
ids (cpu ∷ cpus) = cpu.cpu_id ∷ ids cpus

-- A machine with an unsupported processor has no counter: `init` returns false.
pub init_unsupported :
    (cpu : CpuInfo) (cpus : List CpuInfo) (m : Machine)
    → all_supported m (cpu ∷ cpus) ≡ false
    → init (cpu ∷ cpus) m ≡ ok none
unfolding init init_family
init_unsupported cpu cpus m h = ground (arith, h)

supported-available :
    (m : Machine) (cpu : CpuInfo) → is_cpu_supported m cpu ≡ true → available m cpu.core ≡ true
unfolding is_cpu_supported is_cpu_intel_supported is_cpu_amd_supported
supported-available m cpu h = ground arith

open_msrs-ids :
    (m : Machine) (cpus : List CpuInfo)
    → all_supported m cpus ≡ true
    → open_msrs m cpus ≡ ok (ids cpus)
unfolding all_supported open_msrs
open_msrs-ids m [] h = refl
open_msrs-ids m (cpu ∷ cpus) h = ground (arith, supported-available m cpu, open_msrs-ids m cpus)

max_id-le : (top : ℕ) (cpus : List CpuInfo) → top ≤ max_id top cpus
unfolding max_id
max_id-le top [] = omega arith
max_id-le top (cpu ∷ cpus) =
    ground (arith, max_id-le (if ltb top cpu.cpu_id then cpu.cpu_id else top) cpus)

max_id-opened :
    (top : ℕ) (cpus : List CpuInfo) (j : ℕ) → is_opened (ids cpus) j ≡ true → j ≤ max_id top cpus
unfolding max_id is_opened
max_id-opened top [] j h = cc
max_id-opened top (cpu ∷ cpus) j h = ground (
  arith,
  max_id-le (if ltb top cpu.cpu_id then cpu.cpu_id else top) cpus,
  max_id-opened (if ltb top cpu.cpu_id then cpu.cpu_id else top) cpus j,
)

-- A processor of a supported vendor whose CPU ids leave out an index below their number has no
-- working counter: `init` does not return normally.
pub init_gap :
    (cpu : CpuInfo) (cpus : List CpuInfo) (m : Machine) (j : ℕ)
    → all_supported m (cpu ∷ cpus) ≡ true
    → family_of cpu ≢ none
    → j < length (cpu ∷ cpus)
    → is_opened (ids (cpu ∷ cpus)) j ≡ false
    → (e : Error) × (init (cpu ∷ cpus) m ≡ throw e)
unfolding init init_family start new_counter
init_gap cpu cpus m j sup fam p gap = elim (Option-cases (family_of cpu)) [
  | inl e ↦ absurd (fam e)
  | inr (f, e) ↦
      let all : List CpuInfo = cpu ∷ cpus in
      let (error, fails) =
        reset_unopened (new_counter f all m (ids all)) (registers all m) j p gap in
      (error, simp (e, sup, open_msrs-ids m all sup, fails))
]

opened-fit :
    (n : ℕ) (cpus : List CpuInfo)
    → ((j : ℕ) → j < n → is_opened (ids cpus) j ≡ true)
    → n ≤ suc (max_id 0 cpus)
opened-fit zero cpus h = omega arith
opened-fit (suc n) cpus h = omega (arith, max_id-opened 0 cpus n (h n (omega arith)))

-- Intel processors that are all supported, with the ids from 0 to one below their number, each
-- register of a component that all have showing a count: `init` returns a counter in which each
-- CPU starts at zero joules, in step with the counts, with the units that the registers of the
-- highest id give.
pub init-SlotInStep :
    (cpu : CpuInfo) (cpus : List CpuInfo) (m : Machine) (total : ℕ → JoulesCpu) (j : ℕ)
    → family_of cpu ≡ some intel
    → all_supported m (cpu ∷ cpus) ≡ true
    → ((j : ℕ) → j < length (cpu ∷ cpus) → is_opened (ids (cpu ∷ cpus)) j ≡ true)
    → ((j : ℕ)
        → j < length (cpu ∷ cpus)
        → AllShow
            (flags (new_counter intel (cpu ∷ cpus) m []))
            (registers (cpu ∷ cpus) m)
            j
            (total j))
    → j < length (cpu ∷ cpus)
    → (c : Counter) × (s : Slot) × (init (cpu ∷ cpus) m
        ≡ ok (some (c, units_of intel (registers (cpu ∷ cpus) m) (max_id 0 (cpu ∷ cpus)))))
      × (get_elem? c.slots j ≡ some s)
      × SlotInStep (flags c) s (total j) (total j)
unfolding init init_family start new_counter
init-SlotInStep cpu cpus m total j e sup covered shown below =
    let all : List CpuInfo = cpu ∷ cpus in
    let c : Counter = new_counter intel all m (ids all) in
    let (slots, s, returns, at, i, outside) =
      reset-SlotInStep c (registers all m) total j (length all) refl
        (rw length-replicate (opened-fit (length all) all covered)) covered shown below
        (omega arith) in
    (record c { slots = slots }, s, simp (e, sup, open_msrs-ids m all sup, returns), at, i)
