-- ===== src/Topology/HotPlug.antt =====
-- Plugging cores in and out and their clock modulation: VirtualCoreLinux of
-- src/topology/topology-linux.cpp, and classes PhysicalCore, Cpu and Topology (`getRollbackPoint`,
-- `rollback`) of src/topology/topology.cpp over the virtual functions of class VirtualCore. A core
-- is its identifier, a state is that of the machine.
pub mod Restores
pub mod RoundTrip
pub mod Plugs
pub mod Linux
mod Examples
use mammut.Common.{
  ℕ, Bool, true, false, Option, some, none, List, [], ◌∷◌, ltb, ◌==◌, not, if◌then◌else◌, Error,
  Result, ok, throw, ◌>>=◌,
}
use mammut.Common.Int.{ℤ, pos, negsuc}

-- The virtual functions of class VirtualCore that are used here.
pub record VirtualCores (S : Type 0) : Type 0 where
  pub is_hot_pluggable : S → ℕ → Bool
  pub is_hot_plugged : S → ℕ → Bool
  pub hot_plug : S → ℕ → Result S
  pub hot_unplug : S → ℕ → Result S
  pub has_clock_modulation : S → ℕ → Bool
  pub get_clock_modulation : S → ℕ → ℕ
  pub set_clock_modulation : S → ℕ → ℕ → Result S

-- The files online of the cores: the number in it, none where there is no file.
pub record OnlineFiles (S : Type 0) : Type 0 where
  pub online : S → ℕ → Option ℕ
  pub write_online : S → ℕ → ℕ → Result S

module _ {S : Type 0} (files : OnlineFiles S) where
  -- `VirtualCoreLinux::isHotPluggable`
  pub linux_is_hot_pluggable : S → ℕ → Bool
  linux_is_hot_pluggable s core = elim (files.online s core) [ none ↦ false | some value ↦ true ]

  -- `VirtualCoreLinux::isHotPlugged`
  pub linux_is_hot_plugged : S → ℕ → Bool
  linux_is_hot_plugged s core = elim (files.online s core) [
    | none ↦ true
    | some value ↦ ltb 0 value
  ]

  -- `VirtualCoreLinux::hotPlug`
  pub linux_hot_plug : S → ℕ → Result S
  linux_hot_plug s core =
      let written = files.write_online s core 1 in
      if linux_is_hot_pluggable s core then written else ok s

  -- `VirtualCoreLinux::hotUnplug`
  pub linux_hot_unplug : S → ℕ → Result S
  linux_hot_unplug s core =
      let written = files.write_online s core 0 in
      if linux_is_hot_pluggable s core then written else ok s

-- What a RollbackPoint has for one core.
pub record Saved : Type 0 where
  pub plugged : Bool
  pub clock_modulation : ℕ

-- A loop that gives up at the first of the parts that does not pass the test.
every : {A : Type 0} → (A → Bool) → List A → Bool
every test [] = true
every test (x ∷ xs) = let rest = every test xs in if test x then rest else false

-- A loop that does the same to each of the parts.
each : {A S : Type 0} → (S → A → Result S) → S → List A → Result S
each act s [] = ok s
each act s (x ∷ xs) = act s x >>= λ s'. each act s' xs

-- The loop of `getClockModulation`, with the greatest value so far.
greatest : {A : Type 0} → (A → ℤ) → ℤ → List A → ℤ
greatest value most [] = most
greatest value most (x ∷ xs) = greatest value (larger (value x) most) xs
  where
    larger : ℤ → ℤ → ℤ
    larger (pos v) (pos m) = if ltb m v then pos v else pos m
    larger (pos v) (negsuc m) = pos v
    larger (negsuc v) (pos m) = pos m
    larger (negsuc v) (negsuc m) = if ltb v m then negsuc v else negsuc m

module _ {S : Type 0} (cores : VirtualCores S) where
  -- PhysicalCore: its virtual cores.
  pub core_is_hot_pluggable : S → List ℕ → Bool
  core_is_hot_pluggable s vs = every (cores.is_hot_pluggable s) vs

  pub core_is_hot_plugged : S → List ℕ → Bool
  core_is_hot_plugged s vs = every (cores.is_hot_plugged s) vs

  pub core_hot_plug : S → List ℕ → Result S
  core_hot_plug s vs = each cores.hot_plug s vs

  pub core_hot_unplug : S → List ℕ → Result S
  core_hot_unplug s vs = each cores.hot_unplug s vs

  pub core_has_clock_modulation : S → List ℕ → Bool
  core_has_clock_modulation s vs = every (cores.has_clock_modulation s) vs

  pub core_set_clock_modulation : S → List ℕ → ℕ → Result S
  core_set_clock_modulation s vs value = each (λ s' v. cores.set_clock_modulation s' v value) s vs

  pub core_get_clock_modulation : S → List ℕ → ℤ
  core_get_clock_modulation s vs =
      greatest (λ v. pos (cores.get_clock_modulation s v)) (negsuc 0) vs

  -- Cpu: the virtual cores of its physical cores.
  pub cpu_is_hot_pluggable : S → List (List ℕ) → Bool
  cpu_is_hot_pluggable s ps = every (core_is_hot_pluggable s) ps

  pub cpu_is_hot_plugged : S → List (List ℕ) → Bool
  cpu_is_hot_plugged s ps = every (core_is_hot_plugged s) ps

  pub cpu_hot_plug : S → List (List ℕ) → Result S
  cpu_hot_plug s ps = each core_hot_plug s ps

  pub cpu_hot_unplug : S → List (List ℕ) → Result S
  cpu_hot_unplug s ps = each core_hot_unplug s ps

  pub cpu_has_clock_modulation : S → List (List ℕ) → Bool
  cpu_has_clock_modulation s ps = every (core_has_clock_modulation s) ps

  pub cpu_set_clock_modulation : S → List (List ℕ) → ℕ → Result S
  cpu_set_clock_modulation s ps value = each (λ s' p. core_set_clock_modulation s' p value) s ps

  pub cpu_get_clock_modulation : S → List (List ℕ) → ℤ
  cpu_get_clock_modulation s ps = greatest (core_get_clock_modulation s) (negsuc 0) ps

  -- `Topology::getRollbackPoint`
  pub get_rollback_point : S → List ℕ → List Saved
  get_rollback_point s [] = []
  get_rollback_point s (v ∷ vs) =
      record {
        plugged = cores.is_hot_plugged s v;
        clock_modulation = cores.get_clock_modulation s v;
      }
      ∷ get_rollback_point s vs

  -- The part of a round of `rollback` about hot plugging.
  pub restore_plugged : S → ℕ → Bool → Result S
  restore_plugged s v plugged =
      if not (cores.is_hot_pluggable s v)
      then ok s
      else if plugged
      then (if cores.is_hot_plugged s v then ok s else cores.hot_plug s v)
      else if cores.is_hot_plugged s v
      then cores.hot_unplug s v
      else ok s

  pub restore_modulation : S → ℕ → ℕ → Result S
  restore_modulation s v value =
      if cores.has_clock_modulation s v then cores.set_clock_modulation s v value else ok s

  -- `Topology::rollback`; a row that is not there is read out of the vectors.
  pub rollback : S → List ℕ → List Saved → Result S
  rollback s [] rows = ok s
  rollback s (v ∷ vs) [] = throw Error.uninitialised
  rollback s (v ∷ vs) (row ∷ rows) = restore_plugged s v row.plugged >>= λ s1.
      restore_modulation s1 v row.clock_modulation >>= λ s2. rollback s2 vs rows
