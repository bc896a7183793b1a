-- ===== src/Topology/OnePerCore/Examples.antt =====
-- Two of three virtual cores share a physical core.
use mammut.Common.{ℕ, ◌≡◌, List, [], ◌∷◌, length}
use mammut.Utils.Vectors.{contains, Distinct}
use mammut.Topology.Coordinates.{VirtualCoreCoordinates}
use mammut.Topology.OnePerCore.{
  get_one_virtual_per_physical, get_num_physical_cores, physical_ids,
  get_one_virtual_per_physical_lem,
}

abbrev virtual : ℕ → ℕ → VirtualCoreCoordinates
virtual core id = record { cpu_id = 0; physical_core_id = core; virtual_core_id = id }

abbrev three : List VirtualCoreCoordinates
three = virtual 0 0 ∷ virtual 1 1 ∷ virtual 0 2 ∷ []

get_one_virtual_per_physical_lem_run :
    Distinct (physical_ids (get_one_virtual_per_physical three))
    × ((id : ℕ)
        → contains (physical_ids (get_one_virtual_per_physical three)) id
          ≡ contains (physical_ids three) id)
    × (length (physical_ids (get_one_virtual_per_physical three)) ≡ get_num_physical_cores three)
get_one_virtual_per_physical_lem_run = get_one_virtual_per_physical_lem three
