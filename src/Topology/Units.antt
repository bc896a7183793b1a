-- ===== src/Topology/Units.antt =====
-- The units of class Topology in src/topology/topology.cpp, and their utilization in
-- src/topology/topology-linux.cpp. The thread that spins on a core, and moving it there, are
-- parameters.
use mammut.Common.{
  ℕ, Bool, false, Option, some, none, List, [], ◌∷◌, ◌==◌, if◌then◌else◌, Result, ok, ◌>>=◌,
}
use mammut.Topology.Coordinates.{VirtualCoreCoordinates}
use mammut.Topology.Tree.{PhysicalCore, Cpu}

-- `Cpu::getPhysicalCore`
pub find_physical : List PhysicalCore → ℕ → Option PhysicalCore
find_physical [] id = none
find_physical (core ∷ cores) id =
    let later = find_physical cores id in if core.physical_core_id == id then some core else later

or_core : Option PhysicalCore → Option PhysicalCore → Option PhysicalCore
or_core (some core) later = some core
or_core none later = later

-- `Topology::getPhysicalCore`
pub get_physical_core : List Cpu → ℕ → Option PhysicalCore
get_physical_core [] id = none
get_physical_core (cpu ∷ cpus) id =
    or_core (find_physical cpu.physical_cores id) (get_physical_core cpus id)

-- What VirtualCoreLinux does with its SpinnerThread, by the number of the core: `running`,
-- `setStop`, `start`, `join`, and moving the thread to the core with the highest priority.
pub record Spinners (S : Type 0) : Type 0 where
  pub running : S → ℕ → Bool
  pub set_stop : S → ℕ → Bool → S
  pub start : S → ℕ → Result S
  pub join : S → ℕ → Result S
  pub pin : S → ℕ → Result S

module _ {S : Type 0} (spinners : Spinners S) where
  -- `VirtualCoreLinux::resetUtilization`
  pub reset_utilization : S → ℕ → Result S
  reset_utilization s id =
      let joined = spinners.join (spinners.set_stop s id Bool.true) id in
      if spinners.running s id then joined else ok s

  -- `VirtualCoreLinux::maximizeUtilization`
  pub maximize_utilization : S → ℕ → Result S
  maximize_utilization s id =
      (if spinners.running s id then reset_utilization s id else ok s) >>= λ s1.
      spinners.start (spinners.set_stop s1 id false) id >>= λ s2. spinners.pin s2 id

-- The loops of a PhysicalCoreLinux, a CpuLinux and a TopologyLinux over their virtual cores.
pub each_core : {S : Type 0} → (S → ℕ → Result S) → S → List VirtualCoreCoordinates → Result S
each_core op s [] = ok s
each_core op s (vcc ∷ vccs) = op s vcc.virtual_core_id >>= λ s'. each_core op s' vccs
