-- ===== src/Task/ExecutionUnits/Examples.antt =====
-- A process 7 with the threads 7 and 8, whose nice value and whose masks are the state.
use mammut.Common.{
  ℕ, zero, suc, ap, ok-injective, ◌+◌, ◌-◌, ◌≡◌, refl, sym, max, arith, true, false, ◌&&◌, some,
  none, List, [], ◌∷◌, ◌++◌, All, replicate, leb, ltb, ◌==◌, ==_self, ==_false, if◌then◌else◌, ok,
  throw, Error, Text, codes,
}
use mammut.Common.Int.{ℤ, pos, negsuc}
use mammut.Utils.Vectors.{contains}
use mammut.Utils.Strings.{is_number, all_digits, isdigit, split, split_loop}
use mammut.Utils.Strings.Split.{join, LastNonempty}
use mammut.Task.ExecutionUnits.{
  TaskPath, ExecutionUnit, System, CpuSet, cpu_set, get_virtual_core_ids, get_priority,
  set_priority, move, get_active_threads_identifiers, get_set_priority_identifiers, get_up_time,
  units_in, identifiers, is_active, reset_core_usage, get_virtual_core_id,
}
use mammut.Task.ExecutionUnits.Priorities.{clamp, Renices, get_priority-set_priority, stat_gone}
use mammut.Task.ExecutionUnits.Affinities.{AffinityLaws, get_virtual_core_ids-move}

record Tasks : Type 0 where
  nice : ℤ
  masks : ℕ → CpuSet

abbrev code_nice : ℤ → Text
code_nice (pos n) = (100 + n) ∷ []
code_nice (negsuc n) = (200 + n) ∷ []

abbrev read_nice : Text → ℤ
read_nice [] = pos 0
read_nice (c ∷ t) = if leb 200 c then negsuc (c - 200) else pos (c - 100)

abbrev digit : Text → ℕ
digit [] = 0
digit (c ∷ t) = c - 48

abbrev fields : ℤ → List Text
fields n = replicate 18 (48 ∷ []) ++ code_nice (clamp n) ∷ []

abbrev system : System Tasks
system = record {
  exists_dir = λ s path. true;
  stat = λ s path. some (join 32 (fields s.nice));
  uptime = λ s. some (codes "5 1");
  processes = λ s. some [];
  tasks = λ s path. some (codes "7" ∷ codes "x" ∷ codes "8" ∷ []);
  renice = λ s n ids. ok (record s { nice = n }, 0);
  get_affinity = λ s id. some (λ c. s.masks id c && true);
  set_affinity = λ s id set. (record s { masks = λ t. if id == t then set else s.masks t }, true);
  online_processors = λ s. 4;
  kill = λ s id signal. (s, true);
}

abbrev process : ExecutionUnit
process = record {
  id = 7;
  path = TaskPath.of_process 7;
  last_up_time = pos 0;
  last_cpu_time = pos 0;
}

abbrev tasks : Tasks
tasks = record { nice = pos 0; masks = λ id c. true }

code_nice-free : (n : ℤ) → contains (code_nice (clamp n)) 32 ≡ false
unfolding contains
code_nice-free (pos n) = ground arith
code_nice-free (negsuc n) = ground arith

zeros-free :
    (n : ℕ) (ts : List Text)
    → All (λ t. contains t 32 ≡ false) ts
    → All (λ t. contains t 32 ≡ false) (replicate n (48 ∷ []) ++ ts)
unfolding contains
zeros-free zero ts free = free
zeros-free (suc n) ts free = (refl, zeros-free n ts free)

code_nice-Nonempty : (n : ℤ) → LastNonempty (fields n)
unfolding LastNonempty
code_nice-Nonempty (pos n) = tt
code_nice-Nonempty (negsuc n) = tt

read_nice-code_nice : (n : ℤ) → read_nice (code_nice (clamp n)) ≡ clamp n
read_nice-code_nice (pos n) = ground arith
read_nice-code_nice (negsuc n) = ground arith

renices : Renices system read_nice digit process
unfolding contains
renices s s' n ids done own =
    let e : n ≡ s'.nice = ap (λ r. r.0.nice) (ok-injective done) in
    (
      fields n,
      record {
        line = ap (λ m. some (join 32 (fields m))) (sym e);
        free = zeros-free 18 (code_nice (clamp n) ∷ []) (code_nice-free n, tt);
        last = code_nice-Nonempty n;
      },
      (code_nice (clamp n), refl, read_nice-code_nice n),
    )

get_priority-set_priority_example :
    (set_priority system read_nice digit tasks process 0
      ≡ ok (record tasks { nice = pos 20 }, true))
    × (get_priority system read_nice digit (record tasks { nice = pos 20 }) process
        ≡ ok (some (max 1 0)))
unfolding get_set_priority_identifiers get_active_threads_identifiers units_in identifiers is_number
    all_digits isdigit contains
get_priority-set_priority_example =
    get_priority-set_priority system read_nice digit process tasks (record tasks { nice = pos 20 })
      0 (7 ∷ 8 ∷ []) renices refl refl refl (omega arith)

laws : AffinityLaws system (λ c. true)
laws = record {
  sets = λ s id set h. rw (==_self id) refl;
  refuses = λ s id set h. absurd cc;
  keeps = λ s id other set ne. rw (==_false id other (λ q. ne (sym q))) refl;
  online = λ s id set. refl;
}

get_virtual_core_ids-move_example :
    (s' : Tasks) × (move system read_nice digit tasks process (2 ∷ 5 ∷ []) ≡ ok (s', true))
    × ((l : List ℕ) × (get_virtual_core_ids system read_nice digit s' process ≡ some l)
        × ((c : ℕ)
            → contains l c
              ≡ ((contains (2 ∷ 5 ∷ []) c && ltb c 1024) && true) && (leb 0 c && ltb c (0 + 4))))
    × ((t : ℕ)
        → contains (7 ∷ 8 ∷ []) t ≡ true
        → ((x : Tasks) → (system.set_affinity x t (cpu_set (2 ∷ 5 ∷ []))).1 ≡ true)
        → system.get_affinity s' t ≡ some (λ c. cpu_set (2 ∷ 5 ∷ []) c && true))
unfolding get_active_threads_identifiers units_in identifiers is_number all_digits isdigit
get_virtual_core_ids-move_example =
    get_virtual_core_ids-move system read_nice digit (λ c. true) laws tasks
      (record tasks { masks = λ t. if 7 == t then cpu_set (2 ∷ 5 ∷ []) else tasks.masks t }) process
      7 (2 ∷ 5 ∷ []) (7 ∷ 8 ∷ []) refl refl refl

abbrev ended : System Tasks
ended = record system { exists_dir = λ s path. false; stat = λ s path. none }

stat_gone_run :
    (is_active ended read_nice digit tasks process ≡ false
      → (get_priority ended read_nice digit tasks process ≡ ok none)
        × (get_virtual_core_id ended read_nice digit tasks process ≡ ok none)
        × (reset_core_usage ended read_nice digit tasks process
            ≡ ok (record process { last_up_time = pos 0 }, false)))
    × (is_active ended read_nice digit tasks process ≡ true
        → (get_priority ended read_nice digit tasks process ≡ throw Error.open_failed)
          × (get_virtual_core_id ended read_nice digit tasks process ≡ throw Error.open_failed)
          × (reset_core_usage ended read_nice digit tasks process ≡ throw Error.open_failed))
unfolding get_up_time split split_loop
stat_gone_run = stat_gone ended read_nice digit tasks process (pos 0) refl refl
