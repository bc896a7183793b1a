-- ===== src/Topology/HotPlug/Plugs.antt =====
-- Plugging in all the cores of a CPU.
use mammut.Common.{
  ℕ, ◌≡◌, refl, ◌∙◌, inl, inr, Bool, true, Bool-cases, List, [], ◌∷◌, ◌==◌, ==_iff, Result, ok,
  arith,
}
use mammut.Topology.HotPlug.{
  VirtualCores, every, each, core_is_hot_plugged, core_hot_plug, cpu_is_hot_plugged, cpu_hot_plug,
}
use mammut.Topology.HotPlug.Restores.{Laws}

-- An act that makes a part pass a test, and leaves the other parts that pass it passing, makes all
-- the parts pass it that it goes over.
each-every :
    {A S : Type 0} (act : S → A → Result S) (test : S → A → Bool) (Later : S → S → Type 0)
    → ((s : S) → Later s s)
    → ((s s' s'' : S) → Later s s' → Later s' s'' → Later s s'')
    → ((s s' : S) (x : A) → Later s s' → test s x ≡ true → test s' x ≡ true)
    → ((s : S) (x : A) → (s' : S) × (act s x ≡ ok s') × (test s' x ≡ true) × Later s s')
    → (s : S) (xs : List A)
    → (s' : S) × (each act s xs ≡ ok s') × (every (test s') xs ≡ true) × Later s s'
unfolding each every
each-every act test Later none both keeps works s [] = (s, refl, refl, none s)
each-every act test Later none both keeps works s (x ∷ xs) =
    let (s1, e1, t1, l1) = works s x in
    let (s2, e2, t2, l2) = each-every act test Later none both keeps works s1 xs in
    (s2, rw e1 e2, rw (keeps s1 s2 x l2 t1) t2, both s s1 s2 l1 l2)

module _ {S : Type 0} (cores : VirtualCores S) (settable : ℕ → ℕ → Type 0)
    (laws : Laws cores settable) where
  -- No core was plugged out.
  abbrev pub Later : S → S → Type 0
  Later s s' = (w : ℕ) → cores.is_hot_plugged s w ≡ true → cores.is_hot_plugged s' w ≡ true

  hot_plug-lem :
      (s : S) (v : ℕ)
      → (s' : S) × (cores.hot_plug s v ≡ ok s') × (cores.is_hot_plugged s' v ≡ true) × Later s s'
  hot_plug-lem s v = elim (Bool-cases (cores.is_hot_pluggable s v)) [
    | inr h ↦ (s, (laws.leaves s v h).0, laws.always s v h, λ w on. on)
    | inl h ↦
        let (s', e, p, apart) = laws.plugs s v h in
        (
          s',
          e,
          p,
          λ w on. elim (Bool-cases (w == v)) [
            | inl q ↦ rw ((==_iff w v).0 q) p
            | inr q ↦ (apart w (ground arith)).plugged ∙ on
          ],
        )
  ]

  every-Later :
      (s s' : S) (vs : List ℕ)
      → Later s s'
      → core_is_hot_plugged cores s vs ≡ true
      → core_is_hot_plugged cores s' vs ≡ true
  unfolding core_is_hot_plugged every
  every-Later s s' [] later h = refl
  every-Later s s' (v ∷ vs) later h = elim (Bool-cases (cores.is_hot_plugged s v)) [
    | inl q ↦ rw (later v q) (every-Later s s' vs later (rw q at h))
    | inr q ↦ absurd (let contra = rw q at h in cc)
  ]

  core_hot_plug-lem :
      (s : S) (vs : List ℕ)
      → (s' : S) × (core_hot_plug cores s vs ≡ ok s')
        × (core_is_hot_plugged cores s' vs ≡ true)
        × Later s s'
  unfolding core_hot_plug core_is_hot_plugged
  core_hot_plug-lem s vs =
      each-every cores.hot_plug cores.is_hot_plugged Later (λ s w on. on)
        (λ s s' s'' a b w on. b w (a w on)) (λ s s' v later on. later v on) hot_plug-lem s vs

  -- Plugging in a CPU returns, after which the CPU and so every core of it is plugged in, and no
  -- core of the machine was plugged out.
  pub cpu_is_hot_plugged-cpu_hot_plug :
      (s : S) (ps : List (List ℕ))
      → (s' : S) × (cpu_hot_plug cores s ps ≡ ok s')
        × (cpu_is_hot_plugged cores s' ps ≡ true)
        × ((w : ℕ) → cores.is_hot_plugged s w ≡ true → cores.is_hot_plugged s' w ≡ true)
  unfolding cpu_hot_plug cpu_is_hot_plugged
  cpu_is_hot_plugged-cpu_hot_plug s ps =
      each-every (core_hot_plug cores) (core_is_hot_plugged cores) Later (λ s w on. on)
        (λ s s' s'' a b w on. b w (a w on)) every-Later core_hot_plug-lem s ps
