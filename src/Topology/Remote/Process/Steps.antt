-- ===== src/Topology/Remote/Process/Steps.antt =====
-- What the calls that a client's constructors make come to on the server.
use mammut.Common.{
  ℕ, zero, suc, ◌≡◌, refl, ap, ◌∙◌, inl, inr, true, Bool-cases, some, List, [], ◌∷◌, All, get_elem?,
  ◌==◌, ==_iff, Result, ok, ok-injective, throw, ◌>>=◌, arith,
}
use mammut.Utils.Vectors.{contains, Distinct}
use mammut.Server.{told}
use mammut.Topology.Coordinates.{VirtualCoreCoordinates}
use mammut.Topology.Tree.{Cpu, build_cpu_vector, get_virtual_core, all_virtual_cores}
use mammut.Topology.Messages.{as_coordinates, as_level_ids}
use mammut.Topology.Remote.{
  VirtualCoreRemote, IdleLevelRemote, create_level, create_levels, create_core, create_cores,
  create_topology, remote_reset_time, remote_reset_count, remote_reset_idle_time,
}
use mammut.Topology.Remote.Process.{Host, process_message, call, process_virtual_core}
use mammut.Topology.Remote.Process.Runs.{
  LevelOp, CoreOp, local_level, local_core, remote_level, remote_core, writes,
}
use mammut.Topology.Remote.Process.Refinement.{remote_level-local_level, remote_core-local_core}

pub contains-place :
    (ls : List ℕ) (id : ℕ) → contains ls id ≡ true → (i : ℕ) × (get_elem? ls i ≡ some id)
unfolding contains
contains-place [] id h = cc
contains-place (l ∷ ls) id h = elim (Bool-cases (l == id)) [
  | inl e ↦ (zero, ap some ((==_iff l id).0 e))
  | inr e ↦ let (i, at) = contains-place ls id (ground (arith, h, e)) in (suc i, at)
]

pub All-places :
    {A : Type 0} (P : A → Type 0) (xs : List A)
    → ((i : ℕ) (x : A) → get_elem? xs i ≡ some x → P x)
    → All P xs
All-places P [] h = tt
All-places P (x ∷ xs) h = (h zero x refl, All-places P xs (λ i y at. h (suc i) y at))

module _ {S Time : Type 0} (host : Host S Time) where
  strip :
      (r : Result S) (s' : S)
      → ◌>>=◌ {A = S × Unit {0}} r (λ x. ok (x, tt)) ≡ ok (s', tt)
      → r ≡ ok s'
  strip (ok x) s' e = ap (λ q. ok q.0) (ok-injective e)
  strip (throw x) s' e = cc

  module _ (cpus : List Cpu) where
    pub remote_reset_time-lem :
        (s s' : S) (l : IdleLevelRemote) (vcc : VirtualCoreCoordinates) (i : ℕ)
        → get_virtual_core cpus l.virtual_core_id ≡ some vcc
        → Distinct (host.get_idle_levels s l.virtual_core_id)
        → get_elem? (host.get_idle_levels s l.virtual_core_id) i ≡ some l.level_id
        → host.level_reset_time s l.virtual_core_id i ≡ ok s'
        → remote_reset_time (call host cpus) s l ≡ ok s'
    unfolding remote_level local_level writes told
    remote_reset_time-lem s s' l vcc i e d at done =
        strip _ s'
          (remote_level-local_level host cpus LevelOp.reset_time s l vcc i e d at ∙ rw done refl)

    pub remote_reset_count-lem :
        (s s' : S) (l : IdleLevelRemote) (vcc : VirtualCoreCoordinates) (i : ℕ)
        → get_virtual_core cpus l.virtual_core_id ≡ some vcc
        → Distinct (host.get_idle_levels s l.virtual_core_id)
        → get_elem? (host.get_idle_levels s l.virtual_core_id) i ≡ some l.level_id
        → host.level_reset_count s l.virtual_core_id i ≡ ok s'
        → remote_reset_count (call host cpus) s l ≡ ok s'
    unfolding remote_level local_level writes told
    remote_reset_count-lem s s' l vcc i e d at done =
        strip _ s'
          (remote_level-local_level host cpus LevelOp.reset_count s l vcc i e d at ∙ rw done refl)

    pub remote_reset_idle_time-lem :
        (s s' : S) (id : ℕ) (vcc : VirtualCoreCoordinates)
        → get_virtual_core cpus id ≡ some vcc
        → host.reset_idle_time s id ≡ ok s'
        → remote_reset_idle_time (call host cpus) s id ≡ ok s'
    unfolding remote_core local_core writes told
    remote_reset_idle_time-lem s s' id vcc e done =
        strip _ s'
          (remote_core-local_core host cpus CoreOp.reset_idle_time s id vcc e ∙ rw done refl)

    pub create_level-lem :
        (s s1 s2 : S) (id level_id : ℕ)
        → remote_reset_time
            (call host cpus)
            s
            (record { virtual_core_id = id; level_id = level_id })
          ≡ ok s1
        → remote_reset_count
            (call host cpus)
            s1
            (record { virtual_core_id = id; level_id = level_id })
          ≡ ok s2
        → create_level (call host cpus) s id level_id
          ≡ ok (s2, record { virtual_core_id = id; level_id = level_id })
    unfolding create_level
    create_level-lem s s1 s2 id level_id t n = rw (t, n) refl

    pub create_levels-lem :
        (s s1 s2 : S) (id level_id : ℕ) (ls : List ℕ)
        → create_level (call host cpus) s id level_id
          ≡ ok (s1, record { virtual_core_id = id; level_id = level_id })
        → create_levels (call host cpus) s1 id ls ≡ ok s2
        → create_levels (call host cpus) s id (level_id ∷ ls) ≡ ok s2
    unfolding create_levels
    create_levels-lem s s1 s2 id level_id ls e q = rw (e, q) refl

    pub create_core-lem :
        (s s1 s2 : S) (id : ℕ) (vcc : VirtualCoreCoordinates) (ls : List ℕ)
        → host.get_idle_levels s id ≡ ls
        → get_virtual_core cpus id ≡ some vcc
        → create_levels (call host cpus) s id ls ≡ ok s1
        → remote_reset_idle_time (call host cpus) s1 id ≡ ok s2
        → create_core (call host cpus) s id
          ≡ ok (s2, record { virtual_core_id = id; idle_levels = ls })
    unfolding create_core call process_message process_virtual_core told as_level_ids
    create_core-lem s s1 s2 id vcc ls levels e made done = rw (e, levels, made, done) refl

    pub create_cores-lem :
        (s s1 s2 : S) (vcc : VirtualCoreCoordinates) (vccs : List VirtualCoreCoordinates)
        (made : VirtualCoreRemote) (others : List VirtualCoreRemote)
        → create_core (call host cpus) s vcc.virtual_core_id ≡ ok (s1, made)
        → create_cores (call host cpus) s1 vccs ≡ ok (s2, others)
        → create_cores (call host cpus) s (vcc ∷ vccs) ≡ ok (s2, made ∷ others)
    unfolding create_cores
    create_cores-lem s s1 s2 vcc vccs made others e q = rw (e, q) refl

    pub create_topology-lem :
        (s s' : S) (made : List VirtualCoreRemote)
        → build_cpu_vector (all_virtual_cores cpus) ≡ cpus
        → create_cores (call host cpus) s (all_virtual_cores cpus) ≡ ok (s', made)
        → create_topology (call host cpus) s ≡ ok (s', (cpus, made))
    unfolding create_topology call process_message told as_coordinates
    create_topology-lem s s' made same e = rw (same, e) refl
