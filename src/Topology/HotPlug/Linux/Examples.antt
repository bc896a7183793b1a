-- ===== src/Topology/HotPlug/Linux/Examples.antt =====
-- Two cores, the first of which has no file online, with registers that hold what is written.
use mammut.Common.{
  ℕ, zero, suc, ◌≡◌, ◌≢◌, refl, sym, false, true, Option, some, none, [], ◌∷◌, ◌==◌, ==_self,
  ==_false, All, if◌then◌else◌, ok, arith,
}
use mammut.Utils.Vectors.{contains, Distinct}
use mammut.Utils.Msr.{extract, read, read_bits}
use mammut.Utils.Msr.Store.{store, store_set}
use mammut.Topology.ClockModulation.{
  msr_clock_modulation, push_values, init_table, get_clock_modulation,
}
use mammut.Topology.HotPlug.{OnlineFiles, linux_is_hot_pluggable, get_rollback_point, rollback}
use mammut.Topology.HotPlug.Restores.{Kept, Same}
use mammut.Topology.HotPlug.Linux.{OnlineLaws, State, linux_cores, rollback-linux_cores}

online_of : (ℕ → ℕ) → ℕ → Option ℕ
online_of f zero = none
online_of f (suc v) = some (f (suc v))

abbrev put : (ℕ → ℕ) → ℕ → ℕ → ℕ → ℕ
put f v value w = if v == w then value else f w

abbrev files : OnlineFiles (ℕ → ℕ)
files = record { online = online_of; write_online = λ f v value. ok (put f v value) }

files-OnlineLaws : OnlineLaws files
unfolding online_of linux_is_hot_pluggable
files-OnlineLaws = record { stays = stays; written = written }
  where
    stays :
        (f f' : ℕ → ℕ) (v : ℕ)
        → linux_is_hot_pluggable files f v ≡ linux_is_hot_pluggable files f' v
    stays f f' zero = refl
    stays f f' (suc v) = refl

    others : (f : ℕ → ℕ) (v value w : ℕ) → w ≢ v → online_of (put f v value) w ≡ online_of f w
    others f v value zero ne = refl
    others f v value (suc w) ne = rw (==_false v (suc w) (λ q. ne (sym q))) refl

    written :
        (f : ℕ → ℕ) (v value : ℕ)
        → linux_is_hot_pluggable files f v ≡ true
        → (f' : ℕ → ℕ) × (files.write_online f v value ≡ ok f')
          × (files.online f' v ≡ some value)
          × ((w : ℕ) → w ≢ v → files.online f' w ≡ files.online f w)
    written f zero value h = cc
    written f (suc v) value h =
        (put f (suc v) value, refl, rw (==_self (suc v)) refl, others f (suc v) value)

-- Core 1 is plugged out before; later it is in, and core 0 runs at an eighth of its cycles.
abbrev before : State (ℕ → ℕ) (ℕ → ℕ)
before = record { online_files = λ v. 0; registers = λ v k. 0 }

abbrev later : State (ℕ → ℕ) (ℕ → ℕ)
later = record { online_files = λ v. 1; registers = λ v k. 18 }

rollback-linux_cores_example :
    (s' : State (ℕ → ℕ) (ℕ → ℕ)) × (rollback
        (linux_cores files store 0 0)
        later
        (0 ∷ 1 ∷ [])
        (get_rollback_point (linux_cores files store 0 0) before (0 ∷ 1 ∷ []))
      ≡ ok s')
    × All (Same (linux_cores files store 0 0) before s') (0 ∷ 1 ∷ [])
    × ((w : ℕ) → contains (0 ∷ 1 ∷ []) w ≡ false → Kept (linux_cores files store 0 0) later s' w)
unfolding Distinct contains init_table push_values get_clock_modulation read_bits read extract
rollback-linux_cores_example =
    rollback-linux_cores files store 0 0 files-OnlineLaws (omega arith)
      (λ s v h. (store_set s msr_clock_modulation v, refl)) before later (0 ∷ 1 ∷ [])
      (refl, (refl, tt)) (refl, (refl, tt))
