-- ===== src/Topology/Tree/Grouped/Cores.antt =====
-- The virtual cores of a CPU in the order of its physical cores: which physical cores are met in
-- them, and which virtual cores each has.
use mammut.Common.{
  ℕ, ◌≡◌, refl, ap, subst, ◌∙◌, inl, inr, true, false, not, ◌&&◌, Bool-cases, List, [], ◌∷◌, ◌++◌,
  All, ◌==◌, ==_iff, ==_self, arith, if◌then◌else◌,
}
use mathlib.Core.List.{append-nil}
use mammut.Utils.Vectors.{contains, Distinct}
use mammut.Topology.Coordinates.{VirtualCoreCoordinates}
use mammut.Topology.Tree.{PhysicalCore, build_virtual, build_physical, virtual_cores}

-- The identifiers of the physical cores of a CPU, in the order in which they are met.
unfoldable pub physical_ids : List VirtualCoreCoordinates → ℕ → List ℕ → List ℕ
physical_ids [] cpu_id used = []
physical_ids (vcc ∷ coord) cpu_id used =
    if vcc.cpu_id == cpu_id && not (contains used vcc.physical_core_id)
    then vcc.physical_core_id ∷ physical_ids coord cpu_id (used ++ vcc.physical_core_id ∷ [])
    else physical_ids coord cpu_id used

unfoldable pub cores_with : List VirtualCoreCoordinates → ℕ → List ℕ → List PhysicalCore
cores_with all cpu_id [] = []
cores_with all cpu_id (id ∷ ids) =
    record { cpu_id = cpu_id; physical_core_id = id; virtual_cores = build_virtual all cpu_id id }
    ∷ cores_with all cpu_id ids

pub build_physical-cores_with :
    (all coord : List VirtualCoreCoordinates) (cpu_id : ℕ) (used : List ℕ)
    → build_physical all coord cpu_id used ≡ cores_with all cpu_id (physical_ids coord cpu_id used)
unfolding build_physical cores_with physical_ids
build_physical-cores_with all [] cpu_id used = refl
build_physical-cores_with all (vcc ∷ coord) cpu_id used =
    elim (Bool-cases (vcc.cpu_id == cpu_id && not (contains used vcc.physical_core_id))) [
      | inl new ↦
          let e : vcc.cpu_id ≡ cpu_id = (==_iff _ _).0 (ground arith) in
          rw (new, build_physical-cores_with all coord cpu_id (used ++ vcc.physical_core_id ∷ []))
            (ap
              (λ c.
                record {
                  cpu_id = c;
                  physical_core_id = vcc.physical_core_id;
                  virtual_cores = build_virtual all c vcc.physical_core_id;
                }
                ∷ cores_with all cpu_id
                    (physical_ids coord cpu_id (used ++ vcc.physical_core_id ∷ [])))
              e)
      | inr old ↦ rw (old, build_physical-cores_with all coord cpu_id used) refl
    ]

-- All the virtual cores are of one CPU, and of one physical core of it.
abbrev pub InCpu : ℕ → List VirtualCoreCoordinates → Type 0
InCpu c = All (λ v. v.cpu_id ≡ c)

abbrev pub InCore : ℕ → ℕ → List VirtualCoreCoordinates → Type 0
InCore c k = All (λ v. (v.cpu_id ≡ c) × (v.physical_core_id ≡ k))

abbrev pub Nonempty : List VirtualCoreCoordinates → Type 0
Nonempty [] = ⊥
Nonempty (v ∷ vs) = Unit

pub Nonempty-append : (xs ys : List VirtualCoreCoordinates) → Nonempty xs → Nonempty (xs ++ ys)
Nonempty-append [] ys n = elim n [ ]
Nonempty-append (x ∷ xs) ys n = tt

pub build_virtual-append :
    (xs ys : List VirtualCoreCoordinates) (c k : ℕ)
    → build_virtual (xs ++ ys) c k ≡ build_virtual xs c k ++ build_virtual ys c k
unfolding build_virtual
build_virtual-append [] ys c k = refl
build_virtual-append (x ∷ xs) ys c k =
    elim (Bool-cases (x.cpu_id == c && x.physical_core_id == k)) [
      | inl e ↦ rw (e, build_virtual-append xs ys c k) refl
      | inr e ↦ rw (e, build_virtual-append xs ys c k) refl
    ]

pub build_virtual-InCore :
    (coord : List VirtualCoreCoordinates) (c k : ℕ) → InCore c k (build_virtual coord c k)
unfolding build_virtual
build_virtual-InCore [] c k = tt
build_virtual-InCore (x ∷ coord) c k =
    elim (Bool-cases (x.cpu_id == c && x.physical_core_id == k)) [
      | inl e ↦ rw e (
        ((==_iff x.cpu_id c).0 (ground arith), (==_iff x.physical_core_id k).0 (ground arith)),
        build_virtual-InCore coord c k,
      )
      | inr e ↦ rw e (build_virtual-InCore coord c k)
    ]

build_virtual-same :
    (xs : List VirtualCoreCoordinates) (c k : ℕ) → InCore c k xs → build_virtual xs c k ≡ xs
unfolding build_virtual
build_virtual-same [] c k h = refl
build_virtual-same (x ∷ xs) c k ((p, q), h) =
    rw (p, q, ==_self c, ==_self k, build_virtual-same xs c k h) refl

pub build_virtual-other_cpu :
    (xs : List VirtualCoreCoordinates) (c d k : ℕ)
    → InCpu c xs
    → (c == d) ≡ false
    → build_virtual xs d k ≡ []
unfolding build_virtual
build_virtual-other_cpu [] c d k h ne = refl
build_virtual-other_cpu (x ∷ xs) c d k (p, h) ne =
    rw (p, ne) (build_virtual-other_cpu xs c d k h ne)

build_virtual-other_core :
    (xs : List VirtualCoreCoordinates) (c k l : ℕ)
    → InCore c k xs
    → (k == l) ≡ false
    → build_virtual xs c l ≡ []
unfolding build_virtual
build_virtual-other_core [] c k l h ne = refl
build_virtual-other_core (x ∷ xs) c k l ((p, q), h) ne =
    rw (p, q, ==_self c, ne) (build_virtual-other_core xs c k l h ne)

-- The virtual cores of the CPU, core by core.
abbrev pub grouped : List VirtualCoreCoordinates → ℕ → List ℕ → List VirtualCoreCoordinates
grouped all c ids = virtual_cores (cores_with all c ids)

InCpu-append :
    (c : ℕ) (xs ys : List VirtualCoreCoordinates) → InCpu c xs → InCpu c ys → InCpu c (xs ++ ys)
InCpu-append c [] ys h g = g
InCpu-append c (x ∷ xs) ys (p, h) g = (p, InCpu-append c xs ys h g)

InCore-InCpu : (c k : ℕ) (xs : List VirtualCoreCoordinates) → InCore c k xs → InCpu c xs
InCore-InCpu c k [] h = tt
InCore-InCpu c k (x ∷ xs) ((p, q), h) = (p, InCore-InCpu c k xs h)

pub grouped-InCpu :
    (all : List VirtualCoreCoordinates) (c : ℕ) (ids : List ℕ) → InCpu c (grouped all c ids)
unfolding virtual_cores cores_with
grouped-InCpu all c [] = tt
grouped-InCpu all c (k ∷ ids) =
    InCpu-append c _ _ (InCore-InCpu c k _ (build_virtual-InCore all c k)) (grouped-InCpu all c ids)

build_virtual-grouped_absent :
    (all : List VirtualCoreCoordinates) (c k : ℕ) (ids : List ℕ)
    → contains ids k ≡ false
    → build_virtual (grouped all c ids) c k ≡ []
unfolding virtual_cores cores_with contains build_virtual
build_virtual-grouped_absent all c k [] h = refl
build_virtual-grouped_absent all c k (l ∷ ids) h =
    let ne : (l == k) ≡ false = ground (arith, h) in
    build_virtual-append (build_virtual all c l) (grouped all c ids) c k
    ∙ rw
        (
          build_virtual-other_core _ c l k (build_virtual-InCore all c l) ne,
          build_virtual-grouped_absent all c k ids (ground (arith, h)),
        )
        refl

pub build_virtual-grouped :
    (all : List VirtualCoreCoordinates) (c k : ℕ) (ids : List ℕ)
    → Distinct ids
    → contains ids k ≡ true
    → build_virtual (grouped all c ids) c k ≡ build_virtual all c k
unfolding virtual_cores cores_with contains Distinct
build_virtual-grouped all c k [] d h = cc
build_virtual-grouped all c k (l ∷ ids) (fresh, d) h =
    build_virtual-append (build_virtual all c l) (grouped all c ids) c k
    ∙ elim (Bool-cases (l == k)) [
      | inl e ↦
          let q : l ≡ k = (==_iff l k).0 e in
          let absent : contains ids k ≡ false = subst (λ x. contains ids x ≡ false) q fresh in
          rw
            (
              q,
              build_virtual-same _ c k (build_virtual-InCore all c k),
              build_virtual-grouped_absent all c k ids absent,
            )
            (append-nil (build_virtual all c k))
      | inr e ↦
          rw
            (
              build_virtual-other_core _ c l k (build_virtual-InCore all c l) e,
              build_virtual-grouped all c k ids d (ground (arith, h, e)),
            )
            refl
    ]
