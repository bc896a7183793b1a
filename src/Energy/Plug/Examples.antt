-- ===== src/Energy/Plug/Examples.antt =====
-- 2 W and then 3 W, for a second each.
use mammut.Common.{◌+◌, ◌*◌, ◌-◌, ◌≡◌, [], ◌∷◌}
use mammut.Energy.Plug.{Plug, file_get_joules, ina_get_joules, reset, file_polls}
use mammut.Energy.Plug.Totals.{energy, file_get_joules-energy, ina-file_get_joules}

abbrev used : Plug
used = record { cumulative = 7; last = 500 }

file_get_joules-energy_run :
    (file_get_joules (file_polls (reset used 1000) ((2000, 2000) ∷ [])) 3000 3000).1
    ≡ energy 1000 ((2000, 2000) ∷ [])
      + 3000 * (3000 - (file_polls (reset used 1000) ((2000, 2000) ∷ [])).last)
file_get_joules-energy_run = file_get_joules-energy used 1000 3000 3000 ((2000, 2000) ∷ [])

ina-file_get_joules_run :
    ((ina_get_joules used 1000 2000 1500).0 ≡ (file_get_joules used 3000 1500).0)
    × ((ina_get_joules used 1000 2000 1500).1 + 7 ≡ (file_get_joules used 3000 1500).1)
ina-file_get_joules_run = ina-file_get_joules used 1000 2000 1500
