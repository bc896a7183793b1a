-- ===== src/Topology/Tree/Grouped/Examples.antt =====
-- Virtual cores that the tree puts into another order.
use mammut.Common.{◌≡◌, List, [], ◌∷◌}
use mammut.Topology.Coordinates.{VirtualCoreCoordinates}
use mammut.Topology.Tree.{build_cpu_vector, all_virtual_cores}
use mammut.Topology.Tree.Grouped.{build_cpu_vector-all_virtual_cores}

abbrev interleaved : List VirtualCoreCoordinates
interleaved =
    record { cpu_id = 0; physical_core_id = 0; virtual_core_id = 0 }
    ∷ record { cpu_id = 1; physical_core_id = 1; virtual_core_id = 1 }
    ∷ record { cpu_id = 0; physical_core_id = 2; virtual_core_id = 2 }
    ∷ record { cpu_id = 0; physical_core_id = 0; virtual_core_id = 3 }
    ∷ []

build_cpu_vector-all_virtual_cores_example :
    build_cpu_vector (all_virtual_cores (build_cpu_vector interleaved))
    ≡ build_cpu_vector interleaved
build_cpu_vector-all_virtual_cores_example = build_cpu_vector-all_virtual_cores interleaved
