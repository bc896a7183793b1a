-- ===== src/Topology/Remote/Process/Created.antt =====
-- The topology that a client makes: its tree is that of the server.
use mammut.Common.{
  ℕ, ◌<◌, ◌≡◌, refl, sym, ap, ◌∙◌, true, some, List, [], ◌∷◌, All, map, get_elem?, get_elem?-some,
  length, Result, ok, arith,
}
use mammut.Utils.Vectors.{contains, Distinct}
use mammut.Topology.Coordinates.{VirtualCoreCoordinates}
use mammut.Topology.Tree.{Cpu, build_cpu_vector, get_virtual_core, all_virtual_cores}
use mammut.Topology.Tree.Lookups.{get_virtual_core-build_cpu_vector}
use mammut.Topology.Tree.Grouped.{build_cpu_vector-all_virtual_cores}
use mammut.Topology.Remote.{
  VirtualCoreRemote, IdleLevelRemote, create_level, create_levels, create_cores, create_topology,
}
use mammut.Topology.Remote.Process.{Host, call}
use mammut.Topology.Remote.Process.Steps.{
  contains-place, All-places, remote_reset_time-lem, remote_reset_count-lem,
  remote_reset_idle_time-lem, create_level-lem, create_levels-lem, create_core-lem,
  create_cores-lem, create_topology-lem,
}

module _ {S Time : Type 0} (host : Host S Time) (levels : ℕ → List ℕ) where
  -- The cores have these levels.
  abbrev pub Has : S → Type 0
  Has s = (id : ℕ) → host.get_idle_levels s id ≡ levels id

  abbrev pub Returns : Result S → Type 0
  Returns r = (s' : S) × (r ≡ ok s') × Has s'

  -- The resets of the objects return and leave each core its levels, which have distinct
  -- identifiers.
  pub record Resets : Type 0 where
    pub idle_time : (s : S) (id : ℕ) → Has s → Returns (host.reset_idle_time s id)
    pub time :
        (s : S) (id i : ℕ) → Has s → i < length (levels id) → Returns (host.level_reset_time s id i)
    pub count :
        (s : S) (id i : ℕ)
        → Has s
        → i < length (levels id)
        → Returns (host.level_reset_count s id i)
    pub distinct : (id : ℕ) → Distinct (levels id)

  -- The object of a virtual core that the client makes for one of the server.
  abbrev pub remote_core_of : VirtualCoreCoordinates → VirtualCoreRemote
  remote_core_of vcc = record {
    virtual_core_id = vcc.virtual_core_id;
    idle_levels = levels vcc.virtual_core_id;
  }

  module _ (cpus : List Cpu) (resets : Resets) where
    create_level-Returns :
        (s : S) (id level_id : ℕ) (vcc : VirtualCoreCoordinates)
        → Has s
        → get_virtual_core cpus id ≡ some vcc
        → contains (levels id) level_id ≡ true
        → (s' : S) × (create_level (call host cpus) s id level_id
            ≡ ok (s', record { virtual_core_id = id; level_id = level_id }))
          × Has s'
    create_level-Returns s id level_id vcc has e h =
        let l : IdleLevelRemote = record { virtual_core_id = id; level_id = level_id } in
        let (i, at) = contains-place (levels id) level_id h in
        let (s1, t, has1) = resets.time s id i has (get_elem?-some _ i level_id at) in
        let (s2, n, has2) = resets.count s1 id i has1 (get_elem?-some _ i level_id at) in
        (
          s2,
          create_level-lem host cpus s s1 s2 id level_id
              (remote_reset_time-lem host cpus s s1 l vcc i e (rw (has id) (resets.distinct id))
                (rw (has id) at) t)
              (remote_reset_count-lem host cpus s1 s2 l vcc i e (rw (has1 id) (resets.distinct id))
                (rw (has1 id) at) n),
          has2,
        )

    create_levels-Returns :
        (s : S) (id : ℕ) (vcc : VirtualCoreCoordinates) (ls : List ℕ)
        → Has s
        → get_virtual_core cpus id ≡ some vcc
        → ((l : ℕ) → contains ls l ≡ true → contains (levels id) l ≡ true)
        → Returns (create_levels (call host cpus) s id ls)
    unfolding create_levels contains
    create_levels-Returns s id vcc [] has e sub = (s, refl, has)
    create_levels-Returns s id vcc (l ∷ ls) has e sub =
        let (s1, made, has1) = create_level-Returns s id l vcc has e (sub l (ground arith)) in
        let (s2, others, has2) =
          create_levels-Returns s1 id vcc ls has1 e (λ k h. sub k (ground (arith, h))) in
        (s2, create_levels-lem host cpus s s1 s2 id l ls made others, has2)

    create_cores-Returns :
        (s : S) (vccs : List VirtualCoreCoordinates)
        → Has s
        → All
            (λ v.
              (vcc : VirtualCoreCoordinates) × (get_virtual_core cpus v.virtual_core_id ≡ some vcc))
            vccs
        → (s' : S) × (create_cores (call host cpus) s vccs ≡ ok (s', map remote_core_of vccs))
    unfolding create_cores
    create_cores-Returns s [] has here = (s, refl)
    create_cores-Returns s (v ∷ vccs) has ((vcc, e), here) =
        let id = v.virtual_core_id in
        let (s1, made, has1) = create_levels-Returns s id vcc (levels id) has e (λ l h. h) in
        let (s2, done, has2) = resets.idle_time s1 id has1 in
        let (s3, others) = create_cores-Returns s2 vccs has2 here in
        (
          s3,
          create_cores-lem host cpus s s2 s3 v vccs (remote_core_of v) (map remote_core_of vccs)
              (create_core-lem host cpus s s1 s2 id vcc (levels id) (has id) e made
                (remote_reset_idle_time-lem host cpus s1 s2 id vcc e done))
              others,
        )

  -- Where the resets of the server's objects return and the levels of each core have distinct
  -- identifiers, making a topology that is a client of a server returns: its tree is the tree that the
  -- server built, and it has an object for each of the server's virtual cores, in the server's order
  -- and with the identifiers of its levels.
  pub create_topology-build_cpu_vector :
      (resets : Resets) (coord : List VirtualCoreCoordinates) (s : S)
      → Has s
      → (s' : S) × (create_topology (call host (build_cpu_vector coord)) s
          ≡ ok (
            s',
            (
              build_cpu_vector coord,
              map remote_core_of (all_virtual_cores (build_cpu_vector coord)),
            ),
          ))
  create_topology-build_cpu_vector resets coord s has =
      let cpus = build_cpu_vector coord in
      let same = build_cpu_vector-all_virtual_cores coord in
      let (s', e) =
        create_cores-Returns cpus resets s (all_virtual_cores cpus) has
          (All-places _ (all_virtual_cores cpus) (λ i v at. found coord same i v at)) in
      (s', create_topology-lem host cpus s s' _ same e)
    where
      found :
          (coord : List VirtualCoreCoordinates)
          → build_cpu_vector (all_virtual_cores (build_cpu_vector coord)) ≡ build_cpu_vector coord
          → (i : ℕ) (v : VirtualCoreCoordinates)
          → get_elem? (all_virtual_cores (build_cpu_vector coord)) i ≡ some v
          → (vcc : VirtualCoreCoordinates) × (get_virtual_core
                (build_cpu_vector coord)
                v.virtual_core_id
              ≡ some vcc)
      found coord same i v at =
          let (vcc, e, q) = get_virtual_core-build_cpu_vector _ i v at in
          (vcc, ap (λ t. get_virtual_core t v.virtual_core_id) (sym same) ∙ e)
