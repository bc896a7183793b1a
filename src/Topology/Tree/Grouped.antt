-- ===== src/Topology/Tree/Grouped.antt =====
-- The tree that is built of the virtual cores of a tree, in their order there, is that tree.
pub mod Cores
pub mod Ids
pub mod Cpus
mod Examples
use mammut.Common.{
  ℕ, ◌≡◌, ◌⊎◌, refl, sym, ap, ap₂, subst, ◌∙◌, inl, inr, Bool, true, false, ◌||◌, ◌&&◌, not,
  Bool-cases, List, [], ◌∷◌, ◌++◌, All, ◌==◌, ==_iff, ==_self, arith, if◌then◌else◌,
}
use mathlib.Core.List.{append-nil, append_assoc}
use mammut.Utils.Vectors.{contains, Distinct}
use mammut.Utils.Vectors.Additions.{add, contains-append, Distinct-add, Distinct-append}
use mammut.Topology.Coordinates.{VirtualCoreCoordinates}
use mammut.Topology.Tree.{
  PhysicalCore, Cpu, build_virtual, build_physical, unique_cpu_ids, build_cpus, build_cpu_vector,
  virtual_cores, all_virtual_cores,
}
use mammut.Topology.Tree.Grouped.Cores.{
  physical_ids, cores_with, build_physical-cores_with, InCpu, Nonempty, Nonempty-append, grouped,
  grouped-InCpu, build_virtual-append, build_virtual-other_cpu, build_virtual-grouped,
}
use mammut.Topology.Tree.Grouped.Ids.{
  physical_ids-append, physical_ids-other_cpu, physical_ids-grouped, physical_ids-fresh,
  Distinct-physical_ids, physical_ids-Nonempty, Fresh, Fresh-next,
}
use mammut.Topology.Tree.Grouped.Cpus.{
  unique_cpu_ids-append, unique_cpu_ids-cpu, Distinct-unique_cpu_ids, unique_cpu_ids-HasCore,
}

module _ (coord : List VirtualCoreCoordinates) where
  abbrev ids : ℕ → List ℕ
  ids c = physical_ids coord c []

  -- The virtual cores of the tree, CPU by CPU.
  abbrev cores : List ℕ → List VirtualCoreCoordinates
  cores [] = []
  cores (c ∷ cs) = grouped coord c (ids c) ++ cores cs

  all_virtual_cores-build_cpus : (cs : List ℕ) → all_virtual_cores (build_cpus coord cs) ≡ cores cs
  unfolding all_virtual_cores build_cpus
  all_virtual_cores-build_cpus [] = refl
  all_virtual_cores-build_cpus (c ∷ cs) =
      rw (build_physical-cores_with coord coord c [], all_virtual_cores-build_cpus cs) refl

  build_virtual-absent :
      (cs : List ℕ) (c k : ℕ) → contains cs c ≡ false → build_virtual (cores cs) c k ≡ []
  unfolding contains build_virtual
  build_virtual-absent [] c k h = refl
  build_virtual-absent (d ∷ cs) c k h =
      build_virtual-append (grouped coord d (ids d)) (cores cs) c k
      ∙ rw
          (
            build_virtual-other_cpu (grouped coord d (ids d)) d c k (grouped-InCpu coord d (ids d))
                (ground (arith, h)),
            build_virtual-absent cs c k (ground (arith, h)),
          )
          refl

  build_virtual-cores :
      (cs : List ℕ) (c k : ℕ)
      → Distinct cs
      → contains cs c ≡ true
      → contains (ids c) k ≡ true
      → build_virtual (cores cs) c k ≡ build_virtual coord c k
  unfolding contains Distinct
  build_virtual-cores [] c k d h on = cc
  build_virtual-cores (b ∷ cs) c k (fresh, d) h on =
      build_virtual-append (grouped coord b (ids b)) (cores cs) c k ∙ elim (Bool-cases (b == c)) [
        | inl e ↦
            let q : b ≡ c = (==_iff b c).0 e in
            let absent : contains cs c ≡ false = subst (λ x. contains cs x ≡ false) q fresh in
            rw
              (
                q,
                build_virtual-grouped coord c k (ids c) (Distinct-physical_ids coord c []) on,
                build_virtual-absent cs c k absent,
              )
              (append-nil (build_virtual coord c k))
        | inr e ↦
            rw
              (
                build_virtual-other_cpu (grouped coord b (ids b)) b c k
                    (grouped-InCpu coord b (ids b)) e,
                build_virtual-cores cs c k d (ground (arith, h, e)) on,
              )
              refl
      ]

  physical_ids-absent :
      (cs : List ℕ) (c : ℕ) (used : List ℕ)
      → contains cs c ≡ false
      → physical_ids (cores cs) c used ≡ []
  unfolding contains physical_ids
  physical_ids-absent [] c used h = refl
  physical_ids-absent (d ∷ cs) c used h =
      physical_ids-append (grouped coord d (ids d)) (cores cs) c used
      ∙ rw
          (physical_ids-other_cpu (grouped coord d (ids d)) d c used (grouped-InCpu coord d (ids d))
            (ground (arith, h)))
          (physical_ids-absent cs c (used ++ []) (ground (arith, h)))

  physical_ids-cores :
      (cs : List ℕ) (c : ℕ)
      → Distinct cs
      → contains cs c ≡ true
      → physical_ids (cores cs) c [] ≡ ids c
  unfolding contains Distinct
  physical_ids-cores [] c d h = cc
  physical_ids-cores (b ∷ cs) c (fresh, d) h =
      physical_ids-append (grouped coord b (ids b)) (cores cs) c [] ∙ elim (Bool-cases (b == c)) [
        | inl e ↦
            let q : b ≡ c = (==_iff b c).0 e in
            let absent : contains cs c ≡ false = subst (λ x. contains cs x ≡ false) q fresh in
            rw
              (
                q,
                physical_ids-grouped coord c (ids c) [] (Distinct-physical_ids coord c [])
                    (λ k on. refl) (λ k on. physical_ids-Nonempty coord c k [] on),
                physical_ids-absent cs c (ids c) absent,
              )
              (append-nil (ids c))
        | inr e ↦
            rw
              (physical_ids-other_cpu (grouped coord b (ids b)) b c []
                (grouped-InCpu coord b (ids b)) e)
              (physical_ids-cores cs c d (ground (arith, h, e)))
      ]

  cores-Nonempty :
      (c : ℕ) → contains (unique_cpu_ids coord []) c ≡ true → Nonempty (grouped coord c (ids c))
  unfolding contains virtual_cores cores_with
  cores-Nonempty c h = elim (unique_cpu_ids-HasCore coord c [] h) [
    | inl none_yet ↦ absurd cc
    | inr (k, ks, e) ↦
        let full =
          physical_ids-Nonempty coord c k [] (ap (λ l. contains l k) e ∙ rw (==_self k) refl) in
        rw e (Nonempty-append (build_virtual coord c k) (grouped coord c ks) full)
  ]

  unique_cpu_ids-cores :
      (cs unique : List ℕ)
      → Distinct cs
      → Fresh unique cs
      → ((c : ℕ) → contains cs c ≡ true → Nonempty (grouped coord c (ids c)))
      → unique_cpu_ids (cores cs) unique ≡ unique ++ cs
  unfolding unique_cpu_ids contains Distinct
  unique_cpu_ids-cores [] unique d fresh full = sym (append-nil unique)
  unique_cpu_ids-cores (c ∷ cs) unique (new, d) fresh full =
      let here : contains (c ∷ cs) c ≡ true = ground arith in
      unique_cpu_ids-append (grouped coord c (ids c)) (cores cs) unique
      ∙ rw
          (unique_cpu_ids-cpu (grouped coord c (ids c)) c unique (grouped-InCpu coord c (ids c))
            (full c here) (fresh c here))
          (unique_cpu_ids-cores cs (unique ++ c ∷ []) d (Fresh-next c cs unique new fresh)
              (λ b h. full b (ground (arith, h)))
            ∙ append_assoc unique (c ∷ []) cs)

cores_with-equal :
    (all other : List VirtualCoreCoordinates) (c : ℕ) (ks : List ℕ)
    → ((k : ℕ) → contains ks k ≡ true → build_virtual all c k ≡ build_virtual other c k)
    → cores_with all c ks ≡ cores_with other c ks
unfolding cores_with contains
cores_with-equal all other c [] same = refl
cores_with-equal all other c (k ∷ ks) same =
    rw (same k (ground arith), cores_with-equal all other c ks (λ l h. same l (ground (arith, h))))
      refl

build_cpus-cores :
    (coord : List VirtualCoreCoordinates) (cs ds : List ℕ)
    → Distinct cs
    → ((c : ℕ) → contains ds c ≡ true → contains cs c ≡ true)
    → build_cpus (cores coord cs) ds ≡ build_cpus coord ds
unfolding build_cpus contains
build_cpus-cores coord cs [] d sub = refl
build_cpus-cores coord cs (c ∷ ds) d sub =
    let on : contains cs c ≡ true = sub c (ground arith) in
    let all = cores coord cs in
    rw
      (
        build_physical-cores_with all all c [],
        physical_ids-cores coord cs c d on,
        cores_with-equal all coord c (ids coord c) (λ k h. build_virtual-cores coord cs c k d on h),
        build_physical-cores_with coord coord c [],
        build_cpus-cores coord cs ds d (λ b h. sub b (ground (arith, h))),
      )
      refl

-- Building the tree of the virtual cores of a tree that is built, in the order in which the tree
-- has them, gives that tree.
pub build_cpu_vector-all_virtual_cores :
    (coord : List VirtualCoreCoordinates)
    → build_cpu_vector (all_virtual_cores (build_cpu_vector coord)) ≡ build_cpu_vector coord
unfolding build_cpu_vector contains Distinct
build_cpu_vector-all_virtual_cores coord =
    let cs = unique_cpu_ids coord [] in
    let d = Distinct-unique_cpu_ids coord [] tt in
    rw
      (
        all_virtual_cores-build_cpus coord cs,
        unique_cpu_ids-cores coord cs [] d (λ c h. refl) (cores-Nonempty coord),
      )
      (build_cpus-cores coord cs cs d (λ c h. h))
