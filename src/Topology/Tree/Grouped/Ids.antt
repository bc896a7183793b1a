-- ===== src/Topology/Tree/Grouped/Ids.antt =====
-- The physical cores that are met in virtual cores that are grouped by their physical cores.
use mammut.Common.{
  ℕ, ◌≡◌, refl, sym, ap, subst, ◌∙◌, inl, inr, true, false, not, ◌&&◌, Bool-cases, List, [], ◌∷◌,
  ◌++◌, ◌==◌, ==_iff, ==_self, arith,
}
use mathlib.Core.List.{append-nil, append_assoc}
use mammut.Utils.Vectors.{contains, Distinct}
use mammut.Utils.Vectors.Additions.{contains-append}
use mammut.Topology.Coordinates.{VirtualCoreCoordinates}
use mammut.Topology.Tree.{build_virtual, virtual_cores}
use mammut.Topology.Tree.Grouped.Cores.{
  physical_ids, cores_with, InCpu, InCore, Nonempty, build_virtual-InCore, grouped,
}

pub physical_ids-append :
    (xs ys : List VirtualCoreCoordinates) (c : ℕ) (used : List ℕ)
    → physical_ids (xs ++ ys) c used
      ≡ physical_ids xs c used ++ physical_ids ys c (used ++ physical_ids xs c used)
unfolding physical_ids
physical_ids-append [] ys c used = ap (physical_ids ys c) (sym (append-nil used))
physical_ids-append (x ∷ xs) ys c used =
    let used' = used ++ x.physical_core_id ∷ [] in
    elim (Bool-cases (x.cpu_id == c && not (contains used x.physical_core_id))) [
      | inl e ↦ rw e (
          ap (λ r. x.physical_core_id ∷ r)
            (physical_ids-append xs ys c used'
              ∙ ap (λ u. physical_ids xs c used' ++ physical_ids ys c u)
                  (append_assoc used (x.physical_core_id ∷ []) (physical_ids xs c used'))))
      | inr e ↦ rw e (physical_ids-append xs ys c used)
    ]

pub physical_ids-other_cpu :
    (xs : List VirtualCoreCoordinates) (c d : ℕ) (used : List ℕ)
    → InCpu c xs
    → (c == d) ≡ false
    → physical_ids xs d used ≡ []
unfolding physical_ids
physical_ids-other_cpu [] c d used h ne = refl
physical_ids-other_cpu (x ∷ xs) c d used (p, h) ne =
    rw (p, ne) (physical_ids-other_cpu xs c d used h ne)

physical_ids-used :
    (xs : List VirtualCoreCoordinates) (c k : ℕ) (used : List ℕ)
    → InCore c k xs
    → contains used k ≡ true
    → physical_ids xs c used ≡ []
unfolding physical_ids
physical_ids-used [] c k used h there = refl
physical_ids-used (x ∷ xs) c k used ((p, q), h) there =
    rw (p, q, ==_self c, there) (physical_ids-used xs c k used h there)

physical_ids-core :
    (xs : List VirtualCoreCoordinates) (c k : ℕ) (used : List ℕ)
    → InCore c k xs
    → Nonempty xs
    → contains used k ≡ false
    → physical_ids xs c used ≡ k ∷ []
unfolding physical_ids
physical_ids-core [] c k used h n fresh = elim n [ ]
physical_ids-core (x ∷ xs) c k used ((p, q), h) n fresh =
    rw (p, q, ==_self c, fresh)
      (ap (λ r. k ∷ r)
        (physical_ids-used xs c k (used ++ k ∷ []) h
          (contains-append used k k ∙ rw (fresh, ==_self k) refl)))

-- None of the identifiers is among those used.
abbrev pub Fresh : List ℕ → List ℕ → Type 0
Fresh used ids = (k : ℕ) → contains ids k ≡ true → contains used k ≡ false

pub Fresh-next :
    (k : ℕ) (ids used : List ℕ)
    → contains ids k ≡ false
    → Fresh used (k ∷ ids)
    → Fresh (used ++ k ∷ []) ids
unfolding contains
Fresh-next k ids used new fresh l h = elim (Bool-cases (k == l)) [
  | inl e ↦ let w = subst (λ x. contains ids x ≡ false) ((==_iff k l).0 e) new in absurd cc
  | inr e ↦ contains-append used k l ∙ rw (fresh l (ground (arith, h)), e) refl
]

pub physical_ids-grouped :
    (all : List VirtualCoreCoordinates) (c : ℕ) (ids used : List ℕ)
    → Distinct ids
    → Fresh used ids
    → ((k : ℕ) → contains ids k ≡ true → Nonempty (build_virtual all c k))
    → physical_ids (grouped all c ids) c used ≡ ids
unfolding physical_ids virtual_cores cores_with contains Distinct
physical_ids-grouped all c [] used d fresh full = refl
physical_ids-grouped all c (k ∷ ids) used (new, d) fresh full =
    let here : contains (k ∷ ids) k ≡ true = ground arith in
    physical_ids-append (build_virtual all c k) (grouped all c ids) c used
    ∙ rw
        (physical_ids-core (build_virtual all c k) c k used (build_virtual-InCore all c k)
          (full k here) (fresh k here))
        (ap (λ r. k ∷ r)
          (physical_ids-grouped all c ids (used ++ k ∷ []) d (Fresh-next k ids used new fresh)
            (λ l h. full l (ground (arith, h)))))

pub physical_ids-fresh :
    (coord : List VirtualCoreCoordinates) (c k : ℕ) (used : List ℕ)
    → contains used k ≡ true
    → contains (physical_ids coord c used) k ≡ false
unfolding physical_ids contains
physical_ids-fresh [] c k used h = refl
physical_ids-fresh (x ∷ coord) c k used h =
    let used' = used ++ x.physical_core_id ∷ [] in
    elim (Bool-cases (x.cpu_id == c && not (contains used x.physical_core_id))) [
      | inl e ↦
          let there : contains used' k ≡ true =
            contains-append used x.physical_core_id k ∙ rw h refl in
          let rest = physical_ids-fresh coord c k used' there in
          let other : (x.physical_core_id == k) ≡ false =
            differs x.physical_core_id (ground (arith, e)) in
          rw (e, other, rest) refl
      | inr e ↦ rw e (physical_ids-fresh coord c k used h)
    ]
  where
    differs : (l : ℕ) → contains used l ≡ false → (l == k) ≡ false
    differs l no_l = elim (Bool-cases (l == k)) [
      | inl e ↦ let w = subst (λ y. contains used y ≡ false) ((==_iff l k).0 e) no_l in absurd cc
      | inr e ↦ e
    ]

pub Distinct-physical_ids :
    (coord : List VirtualCoreCoordinates) (c : ℕ) (used : List ℕ)
    → Distinct (physical_ids coord c used)
unfolding physical_ids Distinct
Distinct-physical_ids [] c used = tt
Distinct-physical_ids (x ∷ coord) c used =
    let used' = used ++ x.physical_core_id ∷ [] in
    elim (Bool-cases (x.cpu_id == c && not (contains used x.physical_core_id))) [
      | inl e ↦ rw e (
        physical_ids-fresh coord c x.physical_core_id used' (
            contains-append used x.physical_core_id x.physical_core_id
            ∙ rw (==_self x.physical_core_id) (ground arith)),
        Distinct-physical_ids coord c used',
      )
      | inr e ↦ rw e (Distinct-physical_ids coord c used)
    ]

-- A core that is met has a virtual core.
pub physical_ids-Nonempty :
    (coord : List VirtualCoreCoordinates) (c k : ℕ) (used : List ℕ)
    → contains (physical_ids coord c used) k ≡ true
    → Nonempty (build_virtual coord c k)
unfolding physical_ids contains build_virtual
physical_ids-Nonempty [] c k used h = cc
physical_ids-Nonempty (x ∷ coord) c k used h =
    elim (Bool-cases (x.cpu_id == c && x.physical_core_id == k)) [
      | inl e ↦ rw e tt
      | inr e ↦ rw e (elim (Bool-cases (x.cpu_id == c && not (contains used x.physical_core_id))) [
        | inl new ↦
            physical_ids-Nonempty coord c k (used ++ x.physical_core_id ∷ [])
              (ground (arith, rw new at h, e, new))
        | inr old ↦ physical_ids-Nonempty coord c k used (rw old at h)
      ])
    ]
