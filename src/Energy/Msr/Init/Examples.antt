-- ===== src/Energy/Msr/Init/Examples.antt =====
-- One Intel processor, and two whose ids leave one out.
use mammut.Common.{
  ℕ, zero, suc, ◌<◌, ◌≡◌, refl, true, some, [], ◌∷◌, get_elem?, ok, arith, codes, text_eq,
}
use mammut.Energy.Msr.{intel, Slot, Counter, JoulesCpu, is_opened}
use mammut.Energy.Msr.History.{Shows}
use mammut.Energy.Msr.History.Polls.{flags, SlotInStep}
use mammut.Energy.Msr.Reset.{AllShow}
use mammut.Energy.Msr.Init.{
  CpuInfo, Machine, available, read_msr, can_read, can_read_nonzero, is_cpu_supported,
  is_cpu_intel_supported, all_supported, family_of, max_id, core_of, registers, all_have,
  has_cores_counter, has_graphic_counter, has_dram_counter, units_of, new_counter, init,
}
use mammut.Energy.Msr.Init.Laws.{init-SlotInStep}

abbrev flat : ℕ → JoulesCpu
flat n = record { cpu = n; cores = n; graphic = n; dram = n }

abbrev intel_cpu : CpuInfo
intel_cpu = record { cpu_id = 0; core = 0; vendor_id = codes "GenuineIntel"; family = codes "6" }

-- A second processor whose id leaves out 1.
abbrev far_cpu : CpuInfo
far_cpu = record { cpu_id = 2; core = 4; vendor_id = codes "GenuineIntel"; family = codes "6" }

abbrev holds_4 : Machine
holds_4 core = some (λ which. some 4)

opened : (j : ℕ) → j < 1 → is_opened (0 ∷ []) j ≡ true
unfolding is_opened
opened zero h = refl
opened (suc j) h = absurd (omega arith)

shows : (j which : ℕ) → j < 1 → Shows (registers (intel_cpu ∷ []) holds_4) j which 4294967300
unfolding registers core_of read_msr
shows zero which h = record { word = 4; read = refl; nonzero = λ e. omega arith; low = refl }
shows (suc j) which h = absurd (omega arith)

all_show :
    (j : ℕ)
    → j < 1
    → AllShow
        (record { has_cores = true; has_graphic = true; has_dram = true })
        (registers (intel_cpu ∷ []) holds_4)
        j
        (flat 4294967300)
all_show j h = record {
  cpu = shows j _ h;
  cores = shows j _ h;
  graphic = shows j _ h;
  dram = shows j _ h;
}

init-SlotInStep_example :
    (c : Counter) × (s : Slot) × (init (intel_cpu ∷ []) holds_4
      ≡ ok (
          some
            (c, units_of intel (registers (intel_cpu ∷ []) holds_4) (max_id 0 (intel_cpu ∷ [])))))
    × (get_elem? c.slots 0 ≡ some s)
    × SlotInStep (flags c) s (flat 4294967300) (flat 4294967300)
unfolding all_supported is_cpu_supported is_cpu_intel_supported available read_msr can_read
    can_read_nonzero family_of new_counter all_have has_cores_counter has_graphic_counter
    has_dram_counter text_eq
init-SlotInStep_example =
    init-SlotInStep intel_cpu [] holds_4 (λ j. flat 4294967300) 0 refl refl opened all_show
      (omega arith)
