-- ===== src/Topology/Tree.antt =====
-- The tree of CPUs, physical and virtual cores that class Topology builds in
-- src/topology/topology.cpp, and the lookups by id. A virtual core is its coordinates.
pub mod Lookups
pub mod Grouped
use mammut.Common.{
  ℕ, Bool, true, false, not, ◌&&◌, Option, some, none, List, [], ◌∷◌, ◌++◌, ◌==◌, if◌then◌else◌,
}
use mammut.Utils.Vectors.{contains}
use mammut.Topology.Coordinates.{VirtualCoreCoordinates}

pub record PhysicalCore : Type 0 where
  pub cpu_id : ℕ
  pub physical_core_id : ℕ
  pub virtual_cores : List VirtualCoreCoordinates

pub record Cpu : Type 0 where
  pub cpu_id : ℕ
  pub physical_cores : List PhysicalCore

-- `buildVirtualCoresVector`
pub build_virtual : List VirtualCoreCoordinates → ℕ → ℕ → List VirtualCoreCoordinates
build_virtual [] cpu_id core_id = []
build_virtual (vcc ∷ coord) cpu_id core_id =
    let rest = build_virtual coord cpu_id core_id in
    if vcc.cpu_id == cpu_id && vcc.physical_core_id == core_id then vcc ∷ rest else rest

-- The loop of `buildPhysicalCoresVector` over the coordinates still to look at.
pub build_physical :
    List VirtualCoreCoordinates → List VirtualCoreCoordinates → ℕ → List ℕ → List PhysicalCore
build_physical all [] cpu_id used = []
build_physical all (vcc ∷ coord) cpu_id used =
    let new = vcc.cpu_id == cpu_id && not (contains used vcc.physical_core_id) in
    let rest =
      build_physical all coord cpu_id (if new then used ++ vcc.physical_core_id ∷ [] else used) in
    if new
    then record {
      cpu_id = vcc.cpu_id;
      physical_core_id = vcc.physical_core_id;
      virtual_cores = build_virtual all vcc.cpu_id vcc.physical_core_id;
    }
      ∷ rest
    else rest

-- `uniqueCpuIds`
pub unique_cpu_ids : List VirtualCoreCoordinates → List ℕ → List ℕ
unique_cpu_ids [] unique = unique
unique_cpu_ids (vcc ∷ coord) unique =
    unique_cpu_ids coord (if contains unique vcc.cpu_id then unique else unique ++ vcc.cpu_id ∷ [])

-- The second loop of `buildCpuVector`.
pub build_cpus : List VirtualCoreCoordinates → List ℕ → List Cpu
build_cpus coord [] = []
build_cpus coord (id ∷ ids) =
    record { cpu_id = id; physical_cores = build_physical coord coord id [] } ∷ build_cpus coord ids

-- `buildCpuVector`
pub build_cpu_vector : List VirtualCoreCoordinates → List Cpu
build_cpu_vector coord = build_cpus coord (unique_cpu_ids coord [])

-- `Cpu::virtualCoresFromPhysicalCores`
pub virtual_cores : List PhysicalCore → List VirtualCoreCoordinates
virtual_cores [] = []
virtual_cores (core ∷ cores) = core.virtual_cores ++ virtual_cores cores

-- `_virtualCores` of a topology, in the order in which the constructors add to it.
pub all_virtual_cores : List Cpu → List VirtualCoreCoordinates
all_virtual_cores [] = []
all_virtual_cores (cpu ∷ cpus) = virtual_cores cpu.physical_cores ++ all_virtual_cores cpus

-- `PhysicalCore::getVirtualCore`
unfoldable pub find_virtual : List VirtualCoreCoordinates → ℕ → Option VirtualCoreCoordinates
find_virtual [] id = none
find_virtual (vcc ∷ vccs) id = if vcc.virtual_core_id == id then some vcc else find_virtual vccs id

unfoldable pub or_else :
    Option VirtualCoreCoordinates → Option VirtualCoreCoordinates → Option VirtualCoreCoordinates
or_else (some vcc) o = some vcc
or_else none o = o

-- `Cpu::getVirtualCore`
unfoldable pub find_virtual_in_cpu : List PhysicalCore → ℕ → Option VirtualCoreCoordinates
find_virtual_in_cpu [] id = none
find_virtual_in_cpu (core ∷ cores) id =
    or_else (find_virtual core.virtual_cores id) (find_virtual_in_cpu cores id)

-- `Topology::getVirtualCore`
unfoldable pub get_virtual_core : List Cpu → ℕ → Option VirtualCoreCoordinates
get_virtual_core [] id = none
get_virtual_core (cpu ∷ cpus) id =
    or_else (find_virtual_in_cpu cpu.physical_cores id) (get_virtual_core cpus id)

-- `Topology::getCpu`
pub get_cpu : List Cpu → ℕ → Option Cpu
get_cpu [] id = none
get_cpu (cpu ∷ cpus) id = if cpu.cpu_id == id then some cpu else get_cpu cpus id
