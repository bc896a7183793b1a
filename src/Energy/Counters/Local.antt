-- ===== src/Energy/Counters/Local.antt =====
-- The local constructor of class Energy in src/energy/energy.cpp, and class CounterMemoryRaplLinux of
-- src/energy/energy-linux.cpp. The counters that are tried are arguments: those of the Smart Power
-- devices and of AMESTER call device libraries. The power cappers are left out.
mod Examples
use mammut.Common.{
  ℕ, ◌≡◌, ◌⊎◌, refl, ap, ◌∙◌, inl, inr, Bool, true, false, Option, some, none, List, [], ◌∷◌, ◌++◌,
  Error, Result, Result-cases, ok, throw, ◌>>=◌,
}
use mammut.Energy.Counters.{Counter, CounterCpus, Energy, get_joules_dram_all}

-- The counters are made and initialised one after the other, up to the first whose `init` gives
-- true; it stands for a counter by its `init`.
first_init : {S C : Type 0} → (C → S → Result (S × Bool)) → S → List C → Result (S × Option C)
first_init init s [] = ok (s, none)
first_init init s (c ∷ cs) = init c s >>= λ tried.
    (let later = first_init init tried.0 cs in
      elim tried.1 [ true ↦ ok (tried.0, some c) | false ↦ later ])

module _ {S : Type 0} where
  pub init_counter : Counter S → S → Result (S × Bool)
  init_counter c s = c.init s

  pub init_cpus : CounterCpus S → S → Result (S × Bool)
  init_cpus c s = c.init s

  -- CounterMemoryRaplLinux: a counter of the CPUs of its own, which its constructor initialises, none
  -- where that did not succeed.
  pub create_memory_rapl : S → CounterCpus S → Result (S × Option (CounterCpus S))
  create_memory_rapl s c =
      c.init s >>= λ tried. ok (tried.0, elim tried.1 [ true ↦ some c | false ↦ none ])

  pub memory_rapl_init : Option (CounterCpus S) → Bool
  memory_rapl_init (some c) = true
  memory_rapl_init none = false

  pub memory_rapl_get_joules : S → Option (CounterCpus S) → Result (S × ℕ)
  memory_rapl_get_joules s (some c) = get_joules_dram_all c s
  memory_rapl_get_joules s none = ok (s, 0)

  pub memory_rapl_reset : S → Option (CounterCpus S) → Result S
  memory_rapl_reset s (some c) = c.reset s
  memory_rapl_reset s none = ok s

  -- The constructor of Energy, for the counters at the plug, of the CPUs and of the memory that it
  -- tries, each in its order.
  pub create_local :
      S → List (Counter S) → List (CounterCpus S) → List (Counter S) → Result (S × Energy S)
  create_local s plugs cpus memories = first_init init_counter s plugs >>= λ plug.
      first_init init_cpus plug.0 cpus >>= λ cpu.
      first_init init_counter cpu.0 memories >>= λ memory.
      ok (
        memory.0,
        record { counter_plug = plug.1; counter_memory = memory.1; counter_cpus = cpu.1 },
      )

-- The counters before it were tried in turn, and gave false.
pub data Refused {S C : Type 0} (init : C → S → Result (S × Bool)) : S → List C → S → Type 0 where
  none_tried : {s : S} → Refused init s [] s
  refused :
      {s s' t : S} {c : C} {cs : List C}
      → init c s ≡ ok (s', false)
      → Refused init s' cs t
      → Refused init s (c ∷ cs) t

first_init-chosen :
    {S C : Type 0} (init : C → S → Result (S × Bool)) (s s' t : S) (before : List C) (c : C)
    (after : List C)
    → Refused init s before s'
    → init c s' ≡ ok (t, true)
    → first_init init s (before ++ c ∷ after) ≡ ok (t, some c)
unfolding first_init
first_init-chosen init s s' t before c after Refused.none_tried e = rw e refl
first_init-chosen init s s' t before c after (Refused.refused {s' = s1} {cs = cs} h rest) e =
    rw h (first_init-chosen init s1 s' t cs c after rest e)

first_init-none :
    {S C : Type 0} (init : C → S → Result (S × Bool)) (s t : S) (cs : List C)
    → Refused init s cs t
    → first_init init s cs ≡ ok (t, none)
unfolding first_init
first_init-none init s t cs Refused.none_tried = refl
first_init-none init s t cs (Refused.refused {s' = s1} {cs = rest} h others) =
    rw h (first_init-none init s1 t rest others)

module _ {S : Type 0} where
  -- The counter at the plug and that of the CPUs are the first ones whose `init` gives true where all
  -- before them give false, and there is no counter of the memory where all of them give false.
  pub create_local-chosen :
      (s s1 s2 s3 s4 t : S) (plugs more_plugs : List (Counter S)) (plug : Counter S)
      (cpus more_cpus : List (CounterCpus S)) (cpu : CounterCpus S) (memories : List (Counter S))
      → Refused init_counter s plugs s1
      → plug.init s1 ≡ ok (s2, true)
      → Refused init_cpus s2 cpus s3
      → cpu.init s3 ≡ ok (s4, true)
      → Refused init_counter s4 memories t
      → create_local s (plugs ++ plug ∷ more_plugs) (cpus ++ cpu ∷ more_cpus) memories
        ≡ ok
            (t, record { counter_plug = some plug; counter_memory = none; counter_cpus = some cpu })
  unfolding create_local init_counter init_cpus
  create_local-chosen s s1 s2 s3 s4 t plugs more_plugs plug cpus more_cpus cpu memories a b c d e =
      rw
        (
          first_init-chosen init_counter s s1 s2 plugs plug more_plugs a b,
          first_init-chosen init_cpus s2 s3 s4 cpus cpu more_cpus c d,
          first_init-none init_counter s4 t memories e,
        )
        refl
