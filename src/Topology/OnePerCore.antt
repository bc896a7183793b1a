-- ===== src/Topology/OnePerCore.antt =====
-- `getOneVirtualPerPhysical` and `getNumPhysicalCores` of src/topology/topology.cpp. A virtual core
-- is its coordinates.
mod Examples
use mammut.Common.{
  ℕ, ◌≡◌, refl, sym, ap, ◌∙◌, inl, inr, Bool, true, false, ◌||◌, Bool-cases, List, [], ◌∷◌, ◌++◌,
  length, ◌==◌, if◌then◌else◌, arith,
}
use mammut.Utils.Vectors.{contains, Distinct}
use mammut.Utils.Vectors.Additions.{add, Distinct-add, contains-add}
use mammut.Topology.Coordinates.{VirtualCoreCoordinates}

-- The inner loop: whether one of the cores taken has the physical core.
found : List VirtualCoreCoordinates → ℕ → Bool
found [] id = false
found (vc ∷ r) id = vc.physical_core_id == id || found r id

one_loop : List VirtualCoreCoordinates → List VirtualCoreCoordinates → List VirtualCoreCoordinates
one_loop r [] = r
one_loop r (vc ∷ vcs) = one_loop (if found r vc.physical_core_id then r else (r ++ vc ∷ [])) vcs

-- `getOneVirtualPerPhysical`
pub get_one_virtual_per_physical : List VirtualCoreCoordinates → List VirtualCoreCoordinates
get_one_virtual_per_physical vcs = one_loop [] vcs

-- `getNumPhysicalCores`
pub get_num_physical_cores : List VirtualCoreCoordinates → ℕ
get_num_physical_cores vcs = length (get_one_virtual_per_physical vcs)

-- The physical cores of some virtual cores.
pub physical_ids : List VirtualCoreCoordinates → List ℕ
physical_ids [] = []
physical_ids (vc ∷ vcs) = vc.physical_core_id ∷ physical_ids vcs

found-contains :
    (r : List VirtualCoreCoordinates) (id : ℕ) → found r id ≡ contains (physical_ids r) id
unfolding found contains physical_ids
found-contains [] id = refl
found-contains (vc ∷ r) id = ap (λ b. vc.physical_core_id == id || b) (found-contains r id)

physical_ids-append :
    (r : List VirtualCoreCoordinates) (vc : VirtualCoreCoordinates)
    → physical_ids (r ++ vc ∷ []) ≡ physical_ids r ++ vc.physical_core_id ∷ []
unfolding physical_ids
physical_ids-append [] vc = refl
physical_ids-append (x ∷ r) vc = ap (◌∷◌ x.physical_core_id) (physical_ids-append r vc)

-- A round adds the physical core, unless it is there.
physical_ids-round :
    (r : List VirtualCoreCoordinates) (vc : VirtualCoreCoordinates)
    → physical_ids (if found r vc.physical_core_id then r else (r ++ vc ∷ []))
      ≡ add (physical_ids r) vc.physical_core_id
physical_ids-round r vc = elim (Bool-cases (contains (physical_ids r) vc.physical_core_id)) [
  | inl h ↦ rw (found-contains r vc.physical_core_id, h) refl
  | inr h ↦ rw (found-contains r vc.physical_core_id, h) (physical_ids-append r vc)
]

length-physical_ids : (r : List VirtualCoreCoordinates) → length (physical_ids r) ≡ length r
unfolding physical_ids
length-physical_ids [] = refl
length-physical_ids (vc ∷ r) = omega (arith, length-physical_ids r)

or_false : (b : Bool) → b ≡ (b || false)
or_false true = refl
or_false false = refl

shift :
    (now before this rest : Bool)
    → now ≡ (before || this)
    → (now || rest) ≡ (before || (this || rest))
shift now true this rest e = rw e refl
shift now false this rest e = rw e refl

one_loop-lem :
    (r vcs : List VirtualCoreCoordinates)
    → Distinct (physical_ids r)
    → Distinct (physical_ids (one_loop r vcs))
      × ((id : ℕ)
          → contains (physical_ids (one_loop r vcs)) id
            ≡ (contains (physical_ids r) id || contains (physical_ids vcs) id))
unfolding one_loop physical_ids contains
one_loop-lem r [] d = (d, λ id. or_false (contains (physical_ids r) id))
one_loop-lem r (vc ∷ vcs) d =
    let r' : List VirtualCoreCoordinates =
      if found r vc.physical_core_id then r else (r ++ vc ∷ []) in
    let (d', same) =
      one_loop-lem r' vcs
        (rw (physical_ids-round r vc) (Distinct-add (physical_ids r) vc.physical_core_id d)) in
    (
      d',
      λ id.
          same id
          ∙ shift (contains (physical_ids r') id) (contains (physical_ids r) id)
              (vc.physical_core_id == id) (contains (physical_ids vcs) id)
              (ap (λ ids. contains ids id) (physical_ids-round r vc)
                ∙ contains-add (physical_ids r) vc.physical_core_id id),
    )

-- The virtual cores that `getOneVirtualPerPhysical` takes are on distinct physical cores, which are
-- all the physical cores of the given virtual cores, and `getNumPhysicalCores` is their number.
pub get_one_virtual_per_physical_lem :
    (vcs : List VirtualCoreCoordinates)
    → Distinct (physical_ids (get_one_virtual_per_physical vcs))
      × ((id : ℕ)
          → contains (physical_ids (get_one_virtual_per_physical vcs)) id
            ≡ contains (physical_ids vcs) id)
      × (length (physical_ids (get_one_virtual_per_physical vcs)) ≡ get_num_physical_cores vcs)
unfolding get_one_virtual_per_physical get_num_physical_cores physical_ids contains Distinct
get_one_virtual_per_physical_lem vcs =
    let (d, same) = one_loop-lem [] vcs tt in (d, same, length-physical_ids (one_loop [] vcs))
