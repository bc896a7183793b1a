-- ===== src/Task/ExecutionUnits/Affinities.antt =====
-- The cores that a process and its threads run on after it is moved.
use mammut.Common.{
  ℕ, zero, suc, ◌+◌, ◌≡◌, ◌≢◌, refl, sym, subst, ap, ◌∙◌, arith, inl, inr, true, false, ◌&&◌,
  Bool-cases, some, List, [], ◌∷◌, ltb, leb, ◌==◌, ==_iff, ok, Text,
}
use mammut.Common.Int.{ℤ}
use mammut.Utils.Vectors.{contains}
use mammut.Task.ExecutionUnits.{
  TaskPath, ExecutionUnit, System, CpuSet, cpu_set, set_cores, get_virtual_core_ids,
  get_active_threads_identifiers, set_affinities, move_threads, move,
}

contains-set_cores :
    (set : CpuSet) (i n c : ℕ)
    → contains (set_cores set i n) c ≡ set c && (leb i c && ltb c (i + n))
unfolding set_cores contains
contains-set_cores set i zero c = elim (Bool-cases (set c)) [
  | inl h ↦ rw h (ground arith)
  | inr h ↦ rw h refl
]
contains-set_cores set i (suc n) c = elim (Bool-cases (i == c)) [
  | inl same ↦
      let e : i ≡ c = (==_iff i c).0 same in
      let q : set i ≡ set c = ap set e in
      elim (Bool-cases (set c)) [
        | inl h ↦ ground (arith, contains-set_cores set (i + 1) n c, h, q, e)
        | inr h ↦ ground (arith, contains-set_cores set (i + 1) n c, h, q, e)
      ]
  | inr other ↦ elim (Bool-cases (set i)) [
    | inl h ↦ ground (arith, contains-set_cores set (i + 1) n c, h, other)
    | inr h ↦ ground (arith, contains-set_cores set (i + 1) n c, h, other)
  ]
]

-- The system calls on affinities: the mask of a task is the one it is given, less the processors
-- that cannot be; a call that fails changes nothing, and none changes another task's mask.
pub record AffinityLaws {S : Type 0} (system : System S) (possible : CpuSet) : Type 0 where
  pub sets :
      (s : S) (id : ℕ) (set : CpuSet)
      → (system.set_affinity s id set).1 ≡ true
      → system.get_affinity ((system.set_affinity s id set).0) id ≡ some (λ c. set c && possible c)
  pub refuses :
      (s : S) (id : ℕ) (set : CpuSet)
      → (system.set_affinity s id set).1 ≡ false
      → system.get_affinity ((system.set_affinity s id set).0) id ≡ system.get_affinity s id
  pub keeps :
      (s : S) (id other : ℕ) (set : CpuSet)
      → other ≢ id
      → system.get_affinity ((system.set_affinity s id set).0) other ≡ system.get_affinity s other
  pub online :
      (s : S) (id : ℕ) (set : CpuSet)
      → system.online_processors ((system.set_affinity s id set).0) ≡ system.online_processors s

module _ {S : Type 0} (system : System S) (string_to_int : Text → ℤ) (string_to_id : Text → ℕ)
    (possible : CpuSet) (laws : AffinityLaws system possible) (set : CpuSet) where
  abbrev On : S → ℕ → Type 0
  On s t = system.get_affinity s t ≡ some (λ c. set c && possible c)

  On-set_affinity : (s : S) (tid t : ℕ) → On s t → On ((system.set_affinity s tid set).0) t
  On-set_affinity s tid t on = elim (Bool-cases (tid == t)) [
    | inl e ↦ elim (Bool-cases ((system.set_affinity s tid set).1)) [
      | inl done ↦
          subst (On ((system.set_affinity s tid set).0)) ((==_iff tid t).0 e)
            (laws.sets s tid set done)
      | inr failed ↦
          subst (λ x. On ((system.set_affinity s tid set).0) x) ((==_iff tid t).0 e)
            (laws.refuses s tid set failed ∙ subst (On s) (sym ((==_iff tid t).0 e)) on)
    ]
    | inr e ↦ laws.keeps s tid t set (λ q. let w = (==_iff tid t).1 (sym q) in absurd cc) ∙ on
  ]

  On-set_affinities :
      (s : S) (tids : List ℕ) (t : ℕ)
      → On s t
      → On (set_affinities system string_to_int string_to_id s set tids) t
  unfolding set_affinities
  On-set_affinities s [] t on = on
  On-set_affinities s (tid ∷ tids) t on =
      On-set_affinities ((system.set_affinity s tid set).0) tids t (On-set_affinity s tid t on)

  set_affinities-On :
      (s : S) (tids : List ℕ) (t : ℕ)
      → contains tids t ≡ true
      → ((s : S) → (system.set_affinity s t set).1 ≡ true)
      → On (set_affinities system string_to_int string_to_id s set tids) t
  unfolding set_affinities contains
  set_affinities-On s [] t h alive = cc
  set_affinities-On s (tid ∷ tids) t h alive = elim (Bool-cases (tid == t)) [
    | inl e ↦ On-set_affinities ((system.set_affinity s tid set).0) tids t (
        subst (λ x. On ((system.set_affinity s x set).0) t) (sym ((==_iff tid t).0 e))
          (laws.sets s t set (alive s)))
    | inr e ↦
        set_affinities-On ((system.set_affinity s tid set).0) tids t (ground (arith, h, e)) alive
  ]

  set_affinities-online :
      (s : S) (tids : List ℕ)
      → system.online_processors (set_affinities system string_to_int string_to_id s set tids)
        ≡ system.online_processors s
  unfolding set_affinities
  set_affinities-online s [] = refl
  set_affinities-online s (tid ∷ tids) =
      set_affinities-online ((system.set_affinity s tid set).0) tids ∙ laws.online s tid set

module _ {S : Type 0} (system : System S) (string_to_int : Text → ℤ) (string_to_id : Text → ℕ)
    (possible : CpuSet) (laws : AffinityLaws system possible) where
  move_threads-process :
      (s : S) (u : ExecutionUnit) (set : CpuSet) (path : TaskPath) (pid : ℕ) (tids : List ℕ)
      → path ≡ TaskPath.of_process pid
      → get_active_threads_identifiers system string_to_int string_to_id s u ≡ ok tids
      → move_threads system string_to_int string_to_id (s, true) u set path
        ≡ ok (set_affinities system string_to_int string_to_id s set tids, true)
  unfolding move_threads
  move_threads-process s u set path pid tids e listed = rw (e, move_threads, listed) refl

  -- Where the system call on a process succeeds and its threads can be listed then, moving the
  -- process returns true; getVirtualCoreIds of it then lists those of the cores it was moved to that
  -- are below 1024, can be, and are below the number of processors online; and each of the threads
  -- on which the call always succeeds has the mask of those cores, too.
  pub get_virtual_core_ids-move :
      (s s1 : S) (u : ExecutionUnit) (pid : ℕ) (ids tids : List ℕ)
      → u.path ≡ TaskPath.of_process pid
      → system.set_affinity s u.id (cpu_set ids) ≡ (s1, true)
      → get_active_threads_identifiers system string_to_int string_to_id s1 u ≡ ok tids
      → (s' : S) × (move system string_to_int string_to_id s u ids ≡ ok (s', true))
        × ((l : List ℕ) × (get_virtual_core_ids system string_to_int string_to_id s' u ≡ some l)
            × ((c : ℕ)
                → contains l c
                  ≡ ((contains ids c && ltb c 1024) && possible c)
                    && (leb 0 c && ltb c (0 + system.online_processors s))))
        × ((t : ℕ)
            → contains tids t ≡ true
            → ((x : S) → (system.set_affinity x t (cpu_set ids)).1 ≡ true)
            → system.get_affinity s' t ≡ some (λ c. cpu_set ids c && possible c))
  unfolding move move_threads get_virtual_core_ids cpu_set
  get_virtual_core_ids-move s s1 u pid ids tids path done listed =
      let set = cpu_set ids in
      let s' = set_affinities system string_to_int string_to_id s1 set tids in
      let first : system.get_affinity s1 u.id ≡ some (λ c. set c && possible c) =
        rw (ap (λ r. r.0) done) at (laws.sets s u.id set (ap (λ r. r.1) done)) in
      let same : system.online_processors s1 ≡ system.online_processors s =
        rw (ap (λ r. r.0) done) at (laws.online s u.id set) in
      let own =
        On-set_affinities system string_to_int string_to_id possible laws set s1 tids u.id first in
      (
        s',
        rw done (move_threads-process s1 u set u.path pid tids path listed),
        (
          set_cores (λ c. set c && possible c) 0 (system.online_processors s'),
          rw (get_virtual_core_ids, own) refl,
          λ c.
              contains-set_cores (λ x. set x && possible x) 0 _ c
              ∙ rw
                  (set_affinities-online system string_to_int string_to_id possible laws set s1 tids
                    ∙ same)
                  refl,
        ),
        λ t h alive.
            set_affinities-On system string_to_int string_to_id possible laws set s1 tids t h alive,
      )
