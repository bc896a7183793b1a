-- ===== src/Topology/Tree/Grouped/Cpus.antt =====
-- The CPUs that are met in virtual cores.
use mammut.Common.{
  ℕ, ◌≡◌, ◌⊎◌, refl, ◌∙◌, inl, inr, true, false, Bool-cases, List, [], ◌∷◌, ◌++◌, ◌==◌, ==_self,
  arith,
}
use mammut.Utils.Vectors.{contains, Distinct}
use mammut.Utils.Vectors.Additions.{contains-append, Distinct-append}
use mammut.Topology.Coordinates.{VirtualCoreCoordinates}
use mammut.Topology.Tree.{unique_cpu_ids}
use mammut.Topology.Tree.Grouped.Cores.{physical_ids, InCpu, Nonempty}

pub unique_cpu_ids-append :
    (xs ys : List VirtualCoreCoordinates) (unique : List ℕ)
    → unique_cpu_ids (xs ++ ys) unique ≡ unique_cpu_ids ys (unique_cpu_ids xs unique)
unfolding unique_cpu_ids
unique_cpu_ids-append [] ys unique = refl
unique_cpu_ids-append (x ∷ xs) ys unique = unique_cpu_ids-append xs ys _

unique_cpu_ids-known :
    (xs : List VirtualCoreCoordinates) (c : ℕ) (unique : List ℕ)
    → InCpu c xs
    → contains unique c ≡ true
    → unique_cpu_ids xs unique ≡ unique
unfolding unique_cpu_ids
unique_cpu_ids-known [] c unique h there = refl
unique_cpu_ids-known (x ∷ xs) c unique (p, h) there =
    rw (p, there) (unique_cpu_ids-known xs c unique h there)

pub unique_cpu_ids-cpu :
    (xs : List VirtualCoreCoordinates) (c : ℕ) (unique : List ℕ)
    → InCpu c xs
    → Nonempty xs
    → contains unique c ≡ false
    → unique_cpu_ids xs unique ≡ unique ++ c ∷ []
unfolding unique_cpu_ids
unique_cpu_ids-cpu [] c unique h n fresh = elim n [ ]
unique_cpu_ids-cpu (x ∷ xs) c unique (p, h) n fresh =
    rw (p, fresh)
      (unique_cpu_ids-known xs c (unique ++ c ∷ []) h
        (contains-append unique c c ∙ rw (fresh, ==_self c) refl))

pub Distinct-unique_cpu_ids :
    (coord : List VirtualCoreCoordinates) (unique : List ℕ)
    → Distinct unique
    → Distinct (unique_cpu_ids coord unique)
unfolding unique_cpu_ids
Distinct-unique_cpu_ids [] unique d = d
Distinct-unique_cpu_ids (x ∷ coord) unique d = elim (Bool-cases (contains unique x.cpu_id)) [
  | inl e ↦ rw e (Distinct-unique_cpu_ids coord unique d)
  | inr e ↦ rw e (
      Distinct-unique_cpu_ids coord (unique ++ x.cpu_id ∷ []) (Distinct-append unique x.cpu_id e d))
]

-- A CPU that is met has a physical core that is met.
abbrev pub HasCore : List VirtualCoreCoordinates → ℕ → Type 0
HasCore coord c = (k : ℕ) × (ks : List ℕ) × (physical_ids coord c [] ≡ k ∷ ks)

HasCore-next :
    (x : VirtualCoreCoordinates) (coord : List VirtualCoreCoordinates) (c : ℕ)
    → HasCore coord c
    → HasCore (x ∷ coord) c
unfolding physical_ids contains
HasCore-next x coord c (k, ks, e) = elim (Bool-cases (x.cpu_id == c)) [
  | inl q ↦ (x.physical_core_id, physical_ids coord c (x.physical_core_id ∷ []), rw q refl)
  | inr q ↦ (k, ks, rw q e)
]

pub unique_cpu_ids-HasCore :
    (coord : List VirtualCoreCoordinates) (c : ℕ) (unique : List ℕ)
    → contains (unique_cpu_ids coord unique) c ≡ true
    → (contains unique c ≡ true) ⊎ HasCore coord c
unfolding unique_cpu_ids physical_ids contains
unique_cpu_ids-HasCore [] c unique h = inl h
unique_cpu_ids-HasCore (x ∷ coord) c unique h = elim (Bool-cases (x.cpu_id == c)) [
  | inl q ↦ inr (x.physical_core_id, physical_ids coord c (x.physical_core_id ∷ []), rw q refl)
  | inr q ↦ elim (Bool-cases (contains unique x.cpu_id)) [
    | inl e ↦ elim (unique_cpu_ids-HasCore coord c unique (rw e at h)) [
      | inl there ↦ inl there
      | inr has ↦ inr (HasCore-next x coord c has)
    ]
    | inr e ↦ elim (unique_cpu_ids-HasCore coord c (unique ++ x.cpu_id ∷ []) (rw e at h)) [
      | inl there ↦ inl (ground (arith, there, contains-append unique x.cpu_id c, q))
      | inr has ↦ inr (HasCore-next x coord c has)
    ]
  ]
]
