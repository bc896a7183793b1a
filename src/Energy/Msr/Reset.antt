-- ===== src/Energy/Msr/Reset.antt =====
-- `CounterCpusLinuxMsr::reset`: where every index is a CPU, and where one is not.
use mammut.Common.{
  ℕ, zero, suc, ◌+◌, ◌%◌, ◌^◌, ◌≤◌, ◌<◌, ◌≡◌, refl, ◌∙◌, ◌⊎◌, inl, inr, Bool, true, false, some,
  List, get_elem?, set, length, length-set, get_elem?-lt, get_elem?-set_self, get_elem?-set_ne,
  Error, ok, throw, Result-cases, arith,
}
use native.Mathlib.Decide.{ℕ_discrete}
use mammut.Energy.Msr.{
  CpuFamily, intel, amd, Registers, Track, Slot, Counter, JoulesCpu, is_opened, reset_slot,
  reset_loop, reset, reread, zeroed, read_energy_counter, slot_at, with_slot, is_energy_counter,
  pkg_register, msr_pkg_energy_status_intel, msr_pp0_energy_status_intel,
  msr_pp1_energy_status_intel, msr_dram_energy_status_intel,
}
use mammut.Energy.Msr.History.{Shows, WhenPresent, read_energy_counter-Shows}
use mammut.Energy.Msr.History.Polls.{Flags, flags, InStep, SlotInStep}

-- Every register of a component that is present shows its count.
pub record AllShow (f : Flags) (hw : Registers) (id : ℕ) (total : JoulesCpu) : Type 0 where
  pub cpu : Shows hw id msr_pkg_energy_status_intel total.cpu
  pub cores : WhenPresent f.has_cores (Shows hw id msr_pp0_energy_status_intel total.cores)
  pub graphic : WhenPresent f.has_graphic (Shows hw id msr_pp1_energy_status_intel total.graphic)
  pub dram : WhenPresent f.has_dram (Shows hw id msr_dram_energy_status_intel total.dram)

-- The reading that one round leaves for a component.
reset_last : Bool → ℕ → ℕ → ℕ
reset_last true last total = total % 2 ^ 32
reset_last false last total = last

reset_last-InStep :
    (has : Bool) (last total : ℕ)
    → WhenPresent has (InStep (zeroed (reset_last has last total)) total total)
unfolding reset_last
reset_last-InStep true last total = record { energy = omega arith; synced = refl }
reset_last-InStep false last total = tt

reread-Shows :
    (has : Bool) (c : Counter) (hw : Registers) (id which total : ℕ) (t : Track)
    → is_opened c.opened id ≡ true
    → is_energy_counter which ≡ true
    → WhenPresent has (Shows hw id which total)
    → reread has c hw id which t ≡ ok (reset_last has t.last total)
unfolding reread reset_last
reread-Shows true c hw id which total t o e s =
    read_energy_counter-Shows c.opened hw id which total o e s
reread-Shows false c hw id which total t o e s = refl

fresh : Counter → Slot → JoulesCpu → Slot
unfolding reset_last
fresh c s total = record {
  cpu = zeroed (total.cpu % 2 ^ 32);
  cores = zeroed (reset_last c.has_cores s.cores.last total.cores);
  graphic = zeroed (reset_last c.has_graphic s.graphic.last total.graphic);
  dram = zeroed (reset_last c.has_dram s.dram.last total.dram);
}

reset_slot-fresh :
    (c : Counter) (hw : Registers) (i : ℕ) (s : Slot) (total : JoulesCpu)
    → c.family ≡ intel
    → is_opened c.opened i ≡ true
    → get_elem? c.slots i ≡ some s
    → AllShow (flags c) hw i total
    → reset_slot c hw i ≡ ok (with_slot c i (fresh c s total))
unfolding reset_slot fresh is_energy_counter
reset_slot-fresh c hw i s total is_intel opened at shown = ground (
  arith,
  at,
  read_energy_counter-Shows c.opened hw i msr_pkg_energy_status_intel total.cpu opened refl
      shown.cpu,
  reread-Shows c.has_cores c hw i msr_pp0_energy_status_intel total.cores s.cores opened refl
      shown.cores,
  reread-Shows c.has_graphic c hw i msr_pp1_energy_status_intel total.graphic s.graphic opened refl
      shown.graphic,
  reread-Shows c.has_dram c hw i msr_dram_energy_status_intel total.dram s.dram opened refl
      shown.dram,
)

fresh-SlotInStep :
    (c : Counter) (s : Slot) (total : JoulesCpu)
    → SlotInStep (flags c) (fresh c s total) total total
unfolding fresh
fresh-SlotInStep c s total = record {
  cpu = record { energy = omega arith; synced = refl };
  cores = reset_last-InStep c.has_cores s.cores.last total.cores;
  graphic = reset_last-InStep c.has_graphic s.graphic.last total.graphic;
  dram = reset_last-InStep c.has_dram s.dram.last total.dram;
}

-- The slots after the rounds for the indices from `lo` on and below `hi`.
record Resets (f : Flags) (total : ℕ → JoulesCpu) (lo hi : ℕ) (before after : List Slot)
    : Type 0 where
  same_length : length after ≡ length before
  inside :
      (j : ℕ)
      → lo ≤ j
      → j < hi
      → (s : Slot) × (get_elem? after j ≡ some s) × SlotInStep f s (total j) (total j)
  outside : (j : ℕ) → (j < lo) ⊎ (hi ≤ j) → get_elem? after j ≡ get_elem? before j

reset_loop-Resets :
    (left i : ℕ) (c : Counter) (hw : Registers) (total : ℕ → JoulesCpu)
    → c.family ≡ intel
    → i + left ≤ length c.slots
    → ((j : ℕ) → i ≤ j → j < i + left → is_opened c.opened j ≡ true)
    → ((j : ℕ) → i ≤ j → j < i + left → AllShow (flags c) hw j (total j))
    → (slots : List Slot) × (reset_loop left i c hw ≡ ok (record c { slots = slots }))
      × Resets (flags c) total i (i + left) c.slots slots
unfolding reset_loop
reset_loop-Resets zero i c hw total is_intel fits opened shown = (
  c.slots,
  refl,
  record { same_length = refl; inside = λ j p q. absurd (omega arith); outside = λ j p. refl },
)
reset_loop-Resets (suc left) i c hw total is_intel fits opened shown =
    let (s, at) = get_elem?-lt c.slots i (omega arith) in
    let round =
      reset_slot-fresh c hw i s (total i) is_intel (opened i (omega arith) (omega arith)) at
        (shown i (omega arith) (omega arith)) in
    let xs : List Slot = set c.slots i (fresh c s (total i)) in
    let (slots, returns, rest) =
      reset_loop-Resets left (i + 1) (record c { slots = xs }) hw total is_intel
        (omega (arith, length-set c.slots i (fresh c s (total i))))
        (λ j p q. opened j (omega arith) (omega arith))
        (λ j p q. shown j (omega arith) (omega arith)) in
    (
      slots,
      rw round returns,
      record {
        same_length = rest.same_length ∙ length-set c.slots i (fresh c s (total i));
        inside = λ j p q. elim (ℕ_discrete i j) [
          | yes e ↦ rw (← e) (
            fresh c s (total i),
            rest.outside i (inl (omega arith))
                ∙ get_elem?-set_self c.slots i (fresh c s (total i)) (omega arith),
            fresh-SlotInStep c s (total i),
          )
          | no ne ↦ rest.inside j (omega arith) (omega arith)
        ];
        outside = λ j p.
            rest.outside j (ground arith)
            ∙ get_elem?-set_ne c.slots i j (fresh c s (total i)) (ground arith);
      },
    )

-- On an Intel processor with CPU ids from 0 to `num_cpus - 1`, all open: where each register of a
-- component that is present shows its count, `reset` returns, and leaves each CPU's counters at
-- zero and in step with the counts, and each slot above as it was.
pub reset-SlotInStep :
    (c : Counter) (hw : Registers) (total : ℕ → JoulesCpu) (cpu above : ℕ)
    → c.family ≡ intel
    → c.num_cpus ≤ length c.slots
    → ((j : ℕ) → j < c.num_cpus → is_opened c.opened j ≡ true)
    → ((j : ℕ) → j < c.num_cpus → AllShow (flags c) hw j (total j))
    → cpu < c.num_cpus
    → c.num_cpus ≤ above
    → (slots : List Slot) × (s : Slot) × (reset c hw ≡ ok (record c { slots = slots }))
      × (get_elem? slots cpu ≡ some s)
      × SlotInStep (flags c) s (total cpu) (total cpu)
      × (get_elem? slots above ≡ get_elem? c.slots above)
unfolding reset
reset-SlotInStep c hw total cpu above is_intel fits opened shown below over =
    let (slots, returns, r) =
      reset_loop-Resets c.num_cpus 0 c hw total is_intel (omega arith)
        (λ j p q. opened j (omega arith)) (λ j p q. shown j (omega arith)) in
    let (s, at, i) = r.inside cpu (omega arith) (omega arith) in
    (slots, s, returns, at, i, r.outside above (inr (omega arith)))

-- A round throws, or changes one slot.
reset_slot-cases :
    (c : Counter) (hw : Registers) (i : ℕ)
    → ((e : Error) × (reset_slot c hw i ≡ throw e))
      ⊎ ((s : Slot) × (reset_slot c hw i ≡ ok (with_slot c i s)))
unfolding reset_slot
reset_slot-cases c hw i = elim (Result-cases (slot_at c i)) [
  | inl (e, p) ↦ inl (e, simp p)
  | inr (s, p) ↦ elim (Result-cases (read_energy_counter c.opened hw i (pkg_register c.family))) [
    | inl (e, q) ↦ inl (e, simp (p, q))
    | inr (cpu, q) ↦
        elim (Result-cases (reread c.has_cores c hw i msr_pp0_energy_status_intel s.cores)) [
          | inl (e, r) ↦ inl (e, simp (p, q, r))
          | inr (cores, r) ↦
              elim (Result-cases
                (reread c.has_graphic c hw i msr_pp1_energy_status_intel s.graphic)) [
                  | inl (e, t) ↦ inl (e, simp (p, q, r, t))
                  | inr (graphic, t) ↦
                      elim (Result-cases
                        (reread c.has_dram c hw i msr_dram_energy_status_intel s.dram)) [
                          | inl (e, u) ↦ inl (e, simp (p, q, r, t, u))
                          | inr (dram, u) ↦ inr (
                            record {
                              cpu = zeroed cpu;
                              cores = zeroed cores;
                              graphic = zeroed graphic;
                              dram = zeroed dram;
                            },
                            simp (p, q, r, t, u),
                          )
                        ]
                ]
        ]
  ]
]

read_unopened :
    (f : CpuFamily) (opened : List ℕ) (hw : Registers) (i : ℕ)
    → is_opened opened i ≡ false
    → read_energy_counter opened hw i (pkg_register f) ≡ throw Error.uninitialised
unfolding read_energy_counter is_energy_counter
read_unopened intel opened hw i closed = rw closed
read_unopened amd opened hw i closed = rw closed

reset_slot_unopened :
    (c : Counter) (hw : Registers) (i : ℕ)
    → is_opened c.opened i ≡ false
    → reset_slot c hw i ≡ throw Error.uninitialised
unfolding reset_slot
reset_slot_unopened c hw i closed = ground (arith, read_unopened c.family c.opened hw i closed)

reset_loop_unopened :
    (left i j : ℕ) (c : Counter) (hw : Registers)
    → i ≤ j
    → j < i + left
    → is_opened c.opened j ≡ false
    → (e : Error) × (reset_loop left i c hw ≡ throw e)
unfolding reset_loop
reset_loop_unopened zero i j c hw p q closed = absurd (omega arith)
reset_loop_unopened (suc left) i j c hw p q closed = elim (ℕ_discrete i j) [
  | yes here ↦ (Error.uninitialised, rw (reset_slot_unopened c hw i (rw here closed)))
  | no ne ↦ elim (reset_slot-cases c hw i) [
    | inl (e, fails) ↦ (e, rw fails)
    | inr (s, passes) ↦
        rw passes (
          reset_loop_unopened left (i + 1) j (with_slot c i s) hw (omega arith) (omega arith)
            closed)
  ]
]

-- `reset` takes the indices below the number of CPUs for CPU ids. Where one of them is no CPU, so
-- that its registers were never opened, `reset` does not return normally.
pub reset_unopened :
    (c : Counter) (hw : Registers) (j : ℕ)
    → j < c.num_cpus
    → is_opened c.opened j ≡ false
    → (e : Error) × (reset c hw ≡ throw e)
unfolding reset
reset_unopened c hw j p closed =
    reset_loop_unopened c.num_cpus 0 j c hw (omega arith) (omega arith) closed
