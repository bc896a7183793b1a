-- ===== src/Topology/Coordinates.antt =====
-- The constructor of class Topology in src/topology/topology.cpp: the coordinates of the virtual
-- cores that are online, with the ids of their physical cores made unique.
pub mod Unique
mod Examples
use mammut.Common.{
  ℕ, zero, suc, ◌+◌, Bool, true, false, ◌&&◌, Option, some, none, List, [], ◌∷◌, ◌==◌,
  if◌then◌else◌,
}

pub record VirtualCoreCoordinates : Type 0 where
  pub cpu_id : ℕ
  pub physical_core_id : ℕ
  pub virtual_core_id : ℕ

-- `uniquePhysicalCoreIds`: the pairs of package and core id, with the id that stands for each.
pub record Entry : Type 0 where
  pub package_id : ℕ
  pub core_id : ℕ
  pub unique_id : ℕ

pub find : ℕ → ℕ → List Entry → Option ℕ
find package_id core_id [] = none
find package_id core_id (e ∷ es) =
    if e.package_id == package_id && e.core_id == core_id
    then some e.unique_id
    else find package_id core_id es

-- One round of the loop: the core as the files give it, and as `coord` has it.
pub place :
    VirtualCoreCoordinates → Option ℕ → List Entry → ℕ → VirtualCoreCoordinates × List Entry × ℕ
place vcc none seen next_id = (
  record vcc { physical_core_id = next_id },
  (record { package_id = vcc.cpu_id; core_id = vcc.physical_core_id; unique_id = next_id }) ∷ seen,
  next_id + 1,
)
place vcc (some id) seen next_id = (record vcc { physical_core_id = id }, seen, next_id)

-- The loop over the virtual cores that are online, in the order of their ids.
pub coordinates : List VirtualCoreCoordinates → List Entry → ℕ → List VirtualCoreCoordinates
coordinates [] seen next_id = []
coordinates (vcc ∷ vccs) seen next_id =
    let (placed, seen', next_id') =
      place vcc (find vcc.cpu_id vcc.physical_core_id seen) seen next_id in
    placed ∷ coordinates vccs seen' next_id'
