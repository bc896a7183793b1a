-- ===== src/Energy/Msr/Examples.antt =====
-- An Intel processor with one CPU, whose registers all wrap between two calls.
use mammut.Common.{
  ℕ, zero, suc, ◌<◌, ◌≡◌, refl, true, some, List, [], ◌∷◌, get_elem?, Error, ok, throw, arith,
}
use mammut.Energy.Msr.{
  intel, Registers, Track, Slot, Counter, JoulesCpu, is_opened, delta_diff, reset,
}
use mammut.Energy.Msr.History.{Shows}
use mammut.Energy.Msr.History.Polls.{flags, InStep, SlotInStep, Grows, polls, polls-SlotInStep}
use mammut.Energy.Msr.Reset.{AllShow, reset-SlotInStep, reset_unopened}
use mammut.Energy.Msr.Wrap.{delta_diff-growth}

abbrev pub flat : ℕ → JoulesCpu
flat n = record { cpu = n; cores = n; graphic = n; dram = n }

abbrev track : Track
track = record { joules = 0; last = 4294967286 }

abbrev slot : Slot
slot = record { cpu = track; cores = track; graphic = track; dram = track }

abbrev one_cpu : Counter
one_cpu = record {
  family = intel;
  opened = 0 ∷ [];
  num_cpus = 1;
  slots = slot ∷ slot ∷ [];
  has_cores = true;
  has_graphic = true;
  has_dram = true;
}

-- Every register holds the number.
abbrev pub all_hold : ℕ → Registers
all_hold n id which = some n

in_step : InStep track 4294967286 4294967286
in_step = record { energy = refl; synced = refl }

slot_in_step : SlotInStep (flags one_cpu) slot (flat 4294967286) (flat 4294967286)
slot_in_step = record { cpu = in_step; cores = in_step; graphic = in_step; dram = in_step }

grows : (which : ℕ) → Grows (all_hold 4) 0 which 4294967286 4294967300
grows which = record {
  rising = omega arith;
  in_time = omega arith;
  shown = record { word = 4; read = refl; nonzero = λ e. omega arith; low = refl };
}

polls-SlotInStep_example :
    (slots : List Slot) × (s' : Slot) × (polls 0 (all_hold 4 ∷ []) one_cpu
      ≡ ok (record one_cpu { slots = slots }))
    × (get_elem? slots 0 ≡ some s')
    × SlotInStep (flags one_cpu) s' (flat 4294967286) (flat 4294967300)
    × (get_elem? slots 1 ≡ get_elem? one_cpu.slots 1)
unfolding is_opened
polls-SlotInStep_example =
    polls-SlotInStep ((all_hold 4, flat 4294967300) ∷ []) one_cpu 0 1 slot (flat 4294967286)
      (flat 4294967286) refl refl refl slot_in_step
      (record { cpu = grows _; cores = grows _; graphic = grows _; dram = grows _ }, tt)
      (λ e. omega arith)

pub shows : (id which : ℕ) → Shows (all_hold 4) id which 4294967300
shows id which = record { word = 4; read = refl; nonzero = λ e. omega arith; low = refl }

pub all_show :
    (id : ℕ)
    → AllShow
        (record { has_cores = true; has_graphic = true; has_dram = true })
        (all_hold 4)
        id
        (flat 4294967300)
all_show id = record {
  cpu = shows id _;
  cores = shows id _;
  graphic = shows id _;
  dram = shows id _;
}

pub opened : (j : ℕ) → j < 1 → is_opened (0 ∷ []) j ≡ true
unfolding is_opened
opened zero h = refl
opened (suc j) h = absurd (omega arith)

reset-SlotInStep_run :
    (slots : List Slot) × (s : Slot) × (reset one_cpu (all_hold 4)
      ≡ ok (record one_cpu { slots = slots }))
    × (get_elem? slots 0 ≡ some s)
    × SlotInStep (flags one_cpu) s (flat 4294967300) (flat 4294967300)
    × (get_elem? slots 1 ≡ get_elem? one_cpu.slots 1)
reset-SlotInStep_run =
    reset-SlotInStep one_cpu (all_hold 4) (λ j. flat 4294967300) 0 1 refl (omega arith)
      (λ j below. opened j below) (λ j below. all_show j) (omega arith) (omega arith)

reset_unopened_run :
    (e : Error) × (reset (record one_cpu { opened = 1 ∷ [] }) (all_hold 4) ≡ throw e)
unfolding is_opened
reset_unopened_run =
    reset_unopened (record one_cpu { opened = 1 ∷ [] }) (all_hold 4) 0 (omega arith) refl

delta_across_wrap : delta_diff 4294967286 4 ≡ 14
delta_across_wrap = delta_diff-growth 4294967286 4294967300 (omega arith) (omega arith)
