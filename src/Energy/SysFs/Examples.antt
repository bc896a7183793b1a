-- ===== src/Energy/SysFs/Examples.antt =====
-- One CPU whose file turns over at 1000.
use mammut.Common.{◌≡◌, refl, some, none, List, [], ◌∷◌, get_elem?, ok, arith}
use mammut.Common.Int.{pos}
use mammut.Energy.SysFs.{Track, Slot, Counter, Files}
use mammut.Energy.SysFs.Wraps.{polls, InStep, polls-InStep}

abbrev track : Track
track = record { joules = pos 0; last = 900 }

abbrev slot : Slot
slot = record { cpu = track; cores = track; graphic = track; dram = track }

abbrev one_cpu : Counter
one_cpu = record {
  num_cpus = 1;
  id_cores = none;
  id_graphic = none;
  id_dram = none;
  slots = slot ∷ [];
  max_value = 999;
}

abbrev shows_100 : Files
shows_100 id sub = some 100

polls-InStep_example :
    (slots : List Slot) × (s' : Slot) × (polls 0 (shows_100 ∷ []) one_cpu
      ≡ ok (record one_cpu { slots = slots }))
    × (get_elem? slots 0 ≡ some s')
    × InStep 999 1000 s'.cpu 900 1100
polls-InStep_example =
    polls-InStep ((shows_100, 1100) ∷ []) one_cpu 0 1000 slot 900 900 (omega arith) refl
      (record { since = omega arith; energy = refl; synced = refl })
      (omega arith, omega arith, refl, tt)
