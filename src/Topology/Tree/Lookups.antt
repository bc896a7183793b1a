-- ===== src/Topology/Tree/Lookups.antt =====
-- Every virtual core is found under its id.
use mammut.Common.{
  ℕ, zero, suc, ◌≡◌, ◌⊎◌, refl, sym, subst, ◌∙◌, inl, inr, true, false, not, ◌&&◌, ◌||◌, Option,
  some, none, List, [], ◌∷◌, ◌++◌, get_elem?, ◌==◌, ==_iff, ==_self, arith, Bool-cases,
}
use mathlib.Core.Option.{some-injective}
use mammut.Utils.Vectors.{contains}
use mammut.Topology.Coordinates.{VirtualCoreCoordinates}
use mammut.Topology.Tree.{
  PhysicalCore, Cpu, build_virtual, build_physical, unique_cpu_ids, build_cpus, build_cpu_vector,
  find_virtual, or_else, find_virtual_in_cpu, get_virtual_core,
}

-- The virtual core is on the list.
abbrev On : VirtualCoreCoordinates → List VirtualCoreCoordinates → Type 0
On x [] = ⊥
On x (y ∷ ys) = (y ≡ x) ⊎ On x ys

On-build_virtual :
    (coord : List VirtualCoreCoordinates) (x : VirtualCoreCoordinates)
    → On x coord
    → On x (build_virtual coord x.cpu_id x.physical_core_id)
unfolding build_virtual
On-build_virtual [] x on = elim on [ ]
On-build_virtual (y ∷ coord) x (inl e) =
    rw (e, ==_self x.cpu_id, ==_self x.physical_core_id) (inl refl)
On-build_virtual (y ∷ coord) x (inr on) =
    elim (Bool-cases (y.cpu_id == x.cpu_id && y.physical_core_id == x.physical_core_id)) [
      | inl e ↦ rw e (inr (On-build_virtual coord x on))
      | inr e ↦ rw e (On-build_virtual coord x on)
    ]

-- A core of the CPU that has the virtual core.
abbrev OnCores : VirtualCoreCoordinates → List PhysicalCore → Type 0
OnCores x [] = ⊥
OnCores x (core ∷ cores) = On x core.virtual_cores ⊎ OnCores x cores

contains-append : (xs : List ℕ) (y z : ℕ) → contains (xs ++ y ∷ []) z ≡ contains xs z || (y == z)
unfolding contains
contains-append [] y z = ground arith
contains-append (x ∷ xs) y z = ground (arith, contains-append xs y z)

OnCores-build_physical :
    (all coord : List VirtualCoreCoordinates) (x : VirtualCoreCoordinates) (used : List ℕ)
    → On x all
    → On x coord
    → contains used x.physical_core_id ≡ false
    → OnCores x (build_physical all coord x.cpu_id used)
unfolding build_physical
OnCores-build_physical all [] x used on here fresh = elim here [ ]
OnCores-build_physical all (y ∷ coord) x used on (inl e) fresh =
    rw (e, ==_self x.cpu_id, fresh) (inl (On-build_virtual all x on))
OnCores-build_physical all (y ∷ coord) x used on (inr later) fresh =
    elim (Bool-cases (y.cpu_id == x.cpu_id && not (contains used y.physical_core_id))) [
      | inl new ↦ elim (Bool-cases (y.physical_core_id == x.physical_core_id)) [
        | inl same ↦ rw new (inl (moved y.cpu_id y.physical_core_id (ground arith) (ground arith)))
        | inr other ↦ rw new (
            inr (
              OnCores-build_physical all coord x (used ++ y.physical_core_id ∷ []) on later (
                contains-append used y.physical_core_id x.physical_core_id
                ∙ rw (fresh, other) refl)))
      ]
      | inr old ↦ rw old (OnCores-build_physical all coord x used on later fresh)
    ]
  where
    moved :
        (cpu core : ℕ)
        → cpu ≡ x.cpu_id
        → core ≡ x.physical_core_id
        → On x (build_virtual all cpu core)
    moved cpu core p q = rw (p, q) (On-build_virtual all x on)

-- A CPU that has the virtual core.
abbrev OnCpus : VirtualCoreCoordinates → List Cpu → Type 0
OnCpus x [] = ⊥
OnCpus x (cpu ∷ cpus) = OnCores x cpu.physical_cores ⊎ OnCpus x cpus

OnCpus-build_cpus :
    (coord : List VirtualCoreCoordinates) (ids : List ℕ) (x : VirtualCoreCoordinates)
    → On x coord
    → contains ids x.cpu_id ≡ true
    → OnCpus x (build_cpus coord ids)
unfolding build_cpus contains
OnCpus-build_cpus coord [] x on h = cc
OnCpus-build_cpus coord (id ∷ ids) x on h = elim (Bool-cases (id == x.cpu_id)) [
  | inl e ↦ inl (
      subst (λ n. OnCores x (build_physical coord coord n [])) (sym ((==_iff id x.cpu_id).0 e))
        (OnCores-build_physical coord coord x [] on on refl))
  | inr e ↦ inr (OnCpus-build_cpus coord ids x on (ground (arith, h, e)))
]

unique-keeps :
    (coord : List VirtualCoreCoordinates) (unique : List ℕ) (id : ℕ)
    → contains unique id ≡ true
    → contains (unique_cpu_ids coord unique) id ≡ true
unfolding unique_cpu_ids
unique-keeps [] unique id h = h
unique-keeps (y ∷ coord) unique id h = elim (Bool-cases (contains unique y.cpu_id)) [
  | inl e ↦ rw e (unique-keeps coord unique id h)
  | inr e ↦ rw e (
      unique-keeps coord (unique ++ y.cpu_id ∷ []) id
        (contains-append unique y.cpu_id id ∙ rw h refl))
]

unique-contains :
    (coord : List VirtualCoreCoordinates) (unique : List ℕ) (x : VirtualCoreCoordinates)
    → On x coord
    → contains (unique_cpu_ids coord unique) x.cpu_id ≡ true
unfolding unique_cpu_ids
unique-contains [] unique x on = elim on [ ]
unique-contains (y ∷ coord) unique x (inr on) = unique-contains coord _ x on
unique-contains (y ∷ coord) unique x (inl e) = elim (Bool-cases (contains unique x.cpu_id)) [
  | inl there ↦ rw (e, there) (unique-keeps coord unique x.cpu_id there)
  | inr absent ↦
      rw (e, absent)
        (unique-keeps coord (unique ++ x.cpu_id ∷ []) x.cpu_id
          (contains-append unique x.cpu_id x.cpu_id ∙ rw (absent, ==_self x.cpu_id) refl))
]

-- The lookup answers with a core of the id.
abbrev Found : Option VirtualCoreCoordinates → ℕ → Type 0
Found o id = (v : VirtualCoreCoordinates) × (o ≡ some v) × (v.virtual_core_id ≡ id)

-- The lookup answers with nothing, or with a core of the id.
abbrev Sound : Option VirtualCoreCoordinates → ℕ → Type 0
Sound o id = (o ≡ none) ⊎ Found o id

or_else-Found :
    (o p : Option VirtualCoreCoordinates) (id : ℕ)
    → Sound o id
    → Found p id
    → Found (or_else o p) id
unfolding or_else
or_else-Found o p id (inl e) found = rw e found
or_else-Found o p id (inr (v, e, same)) found = (v, rw e refl, same)

Found-or_else : (o p : Option VirtualCoreCoordinates) (id : ℕ) → Found o id → Found (or_else o p) id
unfolding or_else
Found-or_else o p id (v, e, same) = (v, rw e refl, same)

or_else-Sound :
    (o p : Option VirtualCoreCoordinates) (id : ℕ)
    → Sound o id
    → Sound p id
    → Sound (or_else o p) id
unfolding or_else
or_else-Sound o p id (inl e) sound = rw e sound
or_else-Sound o p id (inr (v, e, same)) sound = inr (v, rw e refl, same)

find_virtual-Sound : (vccs : List VirtualCoreCoordinates) (id : ℕ) → Sound (find_virtual vccs id) id
unfolding find_virtual
find_virtual-Sound [] id = inl refl
find_virtual-Sound (y ∷ ys) id = elim (Bool-cases (y.virtual_core_id == id)) [
  | inl e ↦ rw e (inr (y, refl, (==_iff y.virtual_core_id id).0 e))
  | inr e ↦ rw e (find_virtual-Sound ys id)
]

find_virtual-Found :
    (x : VirtualCoreCoordinates) (vccs : List VirtualCoreCoordinates)
    → On x vccs
    → Found (find_virtual vccs x.virtual_core_id) x.virtual_core_id
unfolding find_virtual
find_virtual-Found x [] on = elim on [ ]
find_virtual-Found x (y ∷ ys) (inl e) = rw (e, ==_self x.virtual_core_id) (x, refl, refl)
find_virtual-Found x (y ∷ ys) (inr on) =
    elim (Bool-cases (y.virtual_core_id == x.virtual_core_id)) [
      | inl e ↦ rw e (y, refl, (==_iff y.virtual_core_id x.virtual_core_id).0 e)
      | inr e ↦ rw e (find_virtual-Found x ys on)
    ]

find_virtual_in_cpu-Sound :
    (cores : List PhysicalCore) (id : ℕ) → Sound (find_virtual_in_cpu cores id) id
unfolding find_virtual_in_cpu
find_virtual_in_cpu-Sound [] id = inl refl
find_virtual_in_cpu-Sound (core ∷ cores) id =
    or_else-Sound _ _ id (find_virtual-Sound core.virtual_cores id)
      (find_virtual_in_cpu-Sound cores id)

find_virtual_in_cpu-Found :
    (x : VirtualCoreCoordinates) (cores : List PhysicalCore)
    → OnCores x cores
    → Found (find_virtual_in_cpu cores x.virtual_core_id) x.virtual_core_id
unfolding find_virtual_in_cpu
find_virtual_in_cpu-Found x [] on = elim on [ ]
find_virtual_in_cpu-Found x (core ∷ cores) (inl here) =
    Found-or_else _ _ _ (find_virtual-Found x core.virtual_cores here)
find_virtual_in_cpu-Found x (core ∷ cores) (inr later) =
    or_else-Found _ _ _ (find_virtual-Sound core.virtual_cores x.virtual_core_id)
      (find_virtual_in_cpu-Found x cores later)

get_virtual_core-Found :
    (x : VirtualCoreCoordinates) (cpus : List Cpu)
    → OnCpus x cpus
    → Found (get_virtual_core cpus x.virtual_core_id) x.virtual_core_id
unfolding get_virtual_core
get_virtual_core-Found x [] on = elim on [ ]
get_virtual_core-Found x (cpu ∷ cpus) (inl here) =
    Found-or_else _ _ _ (find_virtual_in_cpu-Found x cpu.physical_cores here)
get_virtual_core-Found x (cpu ∷ cpus) (inr later) =
    or_else-Found _ _ _ (find_virtual_in_cpu-Sound cpu.physical_cores x.virtual_core_id)
      (get_virtual_core-Found x cpus later)

On-get_elem? :
    (coord : List VirtualCoreCoordinates) (i : ℕ) (x : VirtualCoreCoordinates)
    → get_elem? coord i ≡ some x
    → On x coord
On-get_elem? [] i x at = cc
On-get_elem? (y ∷ coord) zero x at = inl (some-injective _ _ at)
On-get_elem? (y ∷ coord) (suc i) x at = inr (On-get_elem? coord i x at)

-- In the tree that `buildCpuVector` builds, `getVirtualCore` finds a core under the id of each of
-- the coordinates, and the core that it answers with has that id.
pub get_virtual_core-build_cpu_vector :
    (coord : List VirtualCoreCoordinates) (i : ℕ) (x : VirtualCoreCoordinates)
    → get_elem? coord i ≡ some x
    → (v : VirtualCoreCoordinates) × (get_virtual_core (build_cpu_vector coord) x.virtual_core_id
        ≡ some v)
      × (v.virtual_core_id ≡ x.virtual_core_id)
unfolding build_cpu_vector
get_virtual_core-build_cpu_vector coord i x at =
    let on = On-get_elem? coord i x at in
    get_virtual_core-Found x _
      (OnCpus-build_cpus coord (unique_cpu_ids coord []) x on (unique-contains coord [] x on))
