-- ===== src/Topology/Remote/Linux/Served.antt =====
-- An idle level of a server on Linux as its client sees it, through both ends of the protocol.
use mammut.Common.{
  ℕ, zero, suc, ◌-◌, ◌%◌, ◌^◌, ◌≤◌, ◌≡◌, refl, sym, ◌∙◌, ap, some, List, [], ◌∷◌, get_elem?,
  get_elem?-set_self, get_elem?-some, set, ==_self, ok,
}
use mathlib.Core.Option.{some-injective}
use mammut.Utils.Vectors.{Distinct}
use mammut.Topology.Coordinates.{VirtualCoreCoordinates}
use mammut.Topology.Tree.{Cpu, get_virtual_core}
use mammut.Topology.IdleLevels.{Attribute, IdleLevel, get_time, reset_time}
use mammut.Topology.IdleLevels.Elapsed.{Shows, get_time-reset_time}
use mammut.Server.{told}
use mammut.Topology.Remote.{IdleLevelRemote}
use mammut.Topology.Remote.Process.Runs.{LevelOp, local_level, remote_level, reads, writes}
use mammut.Topology.Remote.Process.Refinement.{remote_level-local_level}
use mammut.Topology.Remote.Linux.{
  Platform, level_ids, State, put_level, put_files, at_level, linux_host,
}

level_ids-get_elem? :
    (ls : List IdleLevel) (i : ℕ) (l : IdleLevel)
    → get_elem? ls i ≡ some l
    → get_elem? (level_ids ls) i ≡ some l.level_id
unfolding level_ids
level_ids-get_elem? [] i l e = cc
level_ids-get_elem? (x ∷ ls) zero l e = ap (λ y. some y.level_id) (some-injective _ _ e)
level_ids-get_elem? (x ∷ ls) (suc i) l e = level_ids-get_elem? ls i l e

level_ids-set :
    (ls : List IdleLevel) (i : ℕ) (l l' : IdleLevel)
    → get_elem? ls i ≡ some l
    → l'.level_id ≡ l.level_id
    → level_ids (set ls i l') ≡ level_ids ls
unfolding level_ids
level_ids-set [] i l l' e q = refl
level_ids-set (x ∷ ls) zero l l' e q =
    ap (λ id. id ∷ level_ids ls) (q ∙ sym (ap (λ y. y.level_id) (some-injective _ _ e)))
level_ids-set (x ∷ ls) (suc i) l l' e q = ap (λ ids. x.level_id ∷ ids) (level_ids-set ls i l l' e q)

module _ {F : Type 0} (p : Platform F) (cpus : List Cpu) where
  served-reset_time :
      (s : State p) (r : IdleLevelRemote) (vcc : VirtualCoreCoordinates) (i : ℕ) (l l' : IdleLevel)
      → get_virtual_core cpus r.virtual_core_id ≡ some vcc
      → Distinct (level_ids (s.idle_levels r.virtual_core_id))
      → get_elem? (s.idle_levels r.virtual_core_id) i ≡ some l
      → l.level_id ≡ r.level_id
      → reset_time p.level_files p.string_to_int s.files l ≡ ok l'
      → remote_level (linux_host p) cpus LevelOp.reset_time s r
        ≡ ok (put_level p s r.virtual_core_id i l', tt)
  unfolding local_level writes told linux_host at_level
  served-reset_time s r vcc i l l' e d at same done =
      remote_level-local_level (linux_host p) cpus LevelOp.reset_time s r vcc i e d
        (level_ids-get_elem? _ i l at ∙ ap some same)
      ∙ rw (at, done) refl

  served-get_time :
      (s : State p) (r : IdleLevelRemote) (vcc : VirtualCoreCoordinates) (i : ℕ) (l : IdleLevel)
      (t : ℕ)
      → get_virtual_core cpus r.virtual_core_id ≡ some vcc
      → Distinct (level_ids (s.idle_levels r.virtual_core_id))
      → get_elem? (s.idle_levels r.virtual_core_id) i ≡ some l
      → l.level_id ≡ r.level_id
      → get_time p.level_files p.string_to_int s.files l ≡ ok t
      → remote_level (linux_host p) cpus LevelOp.get_time s r ≡ ok (s, t)
  unfolding local_level reads told linux_host at_level
  served-get_time s r vcc i l t e d at same done =
      remote_level-local_level (linux_host p) cpus LevelOp.get_time s r vcc i e d
        (level_ids-get_elem? _ i l at ∙ ap some same)
      ∙ rw (at, done) refl

  -- Where the core of a remote level is a core of the server, whose levels have distinct identifiers
  -- and are one of them at the place `i`, resetting the time of the remote level and reading it once
  -- the machine's files have gone on from t0 to t1 gives t1 - t0 modulo 2^32.
  pub remote_get_time-remote_reset_time :
      (s : State p) (r : IdleLevelRemote) (vcc : VirtualCoreCoordinates) (i : ℕ) (l : IdleLevel)
      (f : F) (t0 t1 : ℕ)
      → get_virtual_core cpus r.virtual_core_id ≡ some vcc
      → Distinct (level_ids (s.idle_levels r.virtual_core_id))
      → get_elem? (s.idle_levels r.virtual_core_id) i ≡ some l
      → l.level_id ≡ r.level_id
      → Shows p.level_files p.string_to_int s.files l Attribute.time_file t0
      → Shows p.level_files p.string_to_int f l Attribute.time_file t1
      → t0 ≤ t1
      → (s' : State p) × (remote_level (linux_host p) cpus LevelOp.reset_time s r ≡ ok (s', tt))
        × (remote_level (linux_host p) cpus LevelOp.get_time (put_files p s' f) r
            ≡ ok (put_files p s' f, (t1 - t0) % 2 ^ 32))
  unfolding put_level put_files
  remote_get_time-remote_reset_time s r vcc i l f t0 t1 e d at same before after h =
      let (l', done, kept, now, exact) =
        get_time-reset_time p.level_files p.string_to_int s.files f l t0 t1 before after h in
      let core = r.virtual_core_id in
      (
        put_level p s core i l',
        served-reset_time s r vcc i l l' e d at same done,
        served-get_time (put_files p (put_level p s core i l') f) r vcc i l' _ e
            (rw (==_self core, level_ids-set (s.idle_levels core) i l l' at kept) d)
            (rw (==_self core)
              (get_elem?-set_self (s.idle_levels core) i l' (get_elem?-some _ i l at)))
            (kept ∙ same) now,
      )
