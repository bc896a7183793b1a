-- ===== src/CpuFreq/Epyc/Examples.antt =====
-- An Epyc with three P-states, at 2400000, 2000000 and 1400000 kHz.
use mammut.Common.{
  ℕ, zero, suc, ◌<◌, ◌≤◌, ◌≡◌, refl, true, some, none, [], ◌==◌, if◌then◌else◌, ok, arith,
}
use mammut.Utils.Msr.{extract, read, read_bits}
use mammut.Utils.Msr.Fields.{IsWritable}
use mammut.Utils.Msr.Store.{store, store_set}
use mammut.CpuFreq.Epyc.{
  pstate_control, quotient, frequency_of, pstate_frequency, create_epyc, get_current_epyc_pstate,
  epyc_get_current_frequency_userspace, epyc_set_frequency_userspace,
}
use mammut.CpuFreq.Epyc.PStates.{Defined, get_frequency-set_frequency}

abbrev registers : ℕ → ℕ
registers k =
    if k == 0xC0010064
    then 0x864
    else if k == 0xC0010065
    then 0x850
    else if k == 0xC0010066
    then 0x83C
    else 0

abbrev frequency : ℕ → ℕ
frequency i = if i == 0 then 2400000 else if i == 1 then 2000000 else 1400000

below : (i : ℕ) → i < 3 → pstate_frequency store registers i ≡ some (frequency i)
unfolding pstate_frequency frequency_of quotient read_bits read extract
below zero h = refl
below (suc zero) h = refl
below (suc (suc zero)) h = refl
below (suc (suc (suc i))) h = absurd (omega arith)

above : (i : ℕ) → 3 ≤ i → i < 9 → pstate_frequency store registers i ≡ none
unfolding pstate_frequency frequency_of quotient read_bits read extract
above zero h l = absurd (omega arith)
above (suc zero) h l = absurd (omega arith)
above (suc (suc zero)) h l = absurd (omega arith)
above (suc (suc (suc zero))) h l = refl
above (suc (suc (suc (suc zero)))) h l = refl
above (suc (suc (suc (suc (suc zero))))) h l = refl
above (suc (suc (suc (suc (suc (suc zero)))))) h l = refl
above (suc (suc (suc (suc (suc (suc (suc zero))))))) h l = refl
above (suc (suc (suc (suc (suc (suc (suc (suc zero)))))))) h l = refl
above (suc (suc (suc (suc (suc (suc (suc (suc (suc i))))))))) h l = absurd (omega arith)

three : Defined store registers frequency 3
three = record { below = below; above = above }

writable : IsWritable store pstate_control
writable s v h = (store_set s pstate_control v, refl)

get_frequency-set_frequency_example :
    (t : ℕ → ℕ) × (epyc_set_frequency_userspace store 0 registers
        (create_epyc store registers 0 [])
        2000000
      ≡ (t, true))
    × (pstate_frequency store t (get_current_epyc_pstate store t) ≡ some 2000000)
    × (epyc_get_current_frequency_userspace store t (create_epyc store registers 0 []) ≡ ok 2000000)
get_frequency-set_frequency_example =
    get_frequency-set_frequency store 0 registers frequency 3 1 0 [] (omega arith) (omega arith)
      three writable (omega arith)
