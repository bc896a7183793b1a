-- ===== src/Topology/Coordinates/Examples.antt =====
-- Two packages whose core ids overlap.
use mammut.Common.{ℕ, ◌≡◌, ◌↔◌, refl, List, [], ◌∷◌}
use mammut.Topology.Coordinates.{VirtualCoreCoordinates, find, place, coordinates}
use mammut.Topology.Coordinates.Unique.{coordinates_unique}

abbrev core : ℕ → ℕ → ℕ → VirtualCoreCoordinates
core p c v = record { cpu_id = p; physical_core_id = c; virtual_core_id = v }

abbrev machine : List VirtualCoreCoordinates
machine = core 0 0 0 ∷ core 0 1 1 ∷ core 1 0 2 ∷ core 0 0 3 ∷ []

coordinates_unique_example :
    ◌≡◌ {A = ℕ} 1 1 × ◌≡◌ {A = ℕ} 2 2 × (◌≡◌ {A = ℕ} 2 0 ↔ (◌≡◌ {A = ℕ} 1 0 × ◌≡◌ {A = ℕ} 0 0))
unfolding coordinates place find
coordinates_unique_example =
    coordinates_unique machine 2 3 (core 1 0 2) (core 0 0 3) (core 1 2 2) (core 0 0 3) refl refl
      refl refl
