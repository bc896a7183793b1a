-- ===== src/Task/Throttler/Schedules.antt =====
-- Any sequence of calls of the throttler's clients and of the two locked parts of its rounds, in
-- any order: what is handed out, and how long a round sleeps.
use mammut.Common.{
  ℕ, ◌*◌, ◌≤◌, ◌≡◌, refl, inl, inr, false, List, [], ◌∷◌, arith, Bool-cases, Option-cases, ◌∙◌,
}
use mammut.Common.Int.{add_nat, le_nat}
use native.Mathlib.Nat.{mul-le-mul_right}
use mammut.Task.Throttler.{
  Throttler, remove_found, full, start, lookup, present, remove_process, add_all, remove_all, drain,
  Answers, terminated, slept, erase_all, finish, throttle, remove_throttling,
  set_throttling_interval, stop,
}
use mammut.Task.Throttler.Shares.{
  total, total-erase_all, present-erase_all, Covered, Pending, Pending-append, add_all-Covered,
  remove_all-Covered,
}

-- One call, or one locked part of a round. A client throttles a process only when it is neither
-- among the throttled processes nor among those to add; one that has been asked to be released stays
-- among them until a round takes it out.
pub data Step : Throttler → Throttler → Type 0 where
  throttled :
      {t : Throttler} (p v : ℕ)
      → present p t.values ≡ false
      → present p t.to_add ≡ false
      → Step t (throttle t p v).0
  released : {t : Throttler} (p : ℕ) → Step t (remove_throttling t p)
  retimed : {t : Throttler} (n : ℕ) → Step t (set_throttling_interval t n)
  stopped : {t : Throttler} → Step t (stop t)
  drained : {t : Throttler} → Step t (drain t)
  finished : {t : Throttler} (a : Answers) → Step t (finish a t)

pub data Reach : Throttler → Type 0 where
  started : Reach start
  next : {t u : Throttler} → Reach t → Step t u → Reach u

pub record Invariant (t : Throttler) : Type 0 where
  pub covered : Covered t.sum t.values
  pub pending : Pending t.values t.to_add

Pending-erase_all : (qs : List ℕ) (m xs : List (ℕ × ℕ)) → Pending m xs → Pending (erase_all qs m) xs
Pending-erase_all qs m [] h = tt
Pending-erase_all qs m ((p, v) ∷ xs) (a, b, rest) =
    (present-erase_all p qs m a, b, Pending-erase_all qs m xs rest)

remove_process-to_add : (t : Throttler) (p : ℕ) → (remove_process t p).to_add ≡ t.to_add
unfolding remove_process remove_found
remove_process-to_add t p = elim (Option-cases (lookup p t.values)) [
  | inl e ↦ rw e refl
  | inr (v, e) ↦ rw e refl
]

remove_all-to_add : (ps : List ℕ) (t : Throttler) → (remove_all t ps).to_add ≡ t.to_add
unfolding remove_all
remove_all-to_add [] t = refl
remove_all-to_add (p ∷ ps) t = remove_all-to_add ps (remove_process t p) ∙ remove_process-to_add t p

drain-Invariant : (t : Throttler) → Invariant t → Invariant (drain t)
unfolding drain
drain-Invariant t i = record {
  covered =
      remove_all-Covered (add_all t t.to_add).to_remove
        (record (add_all t t.to_add) { to_add = [] })
        (add_all-Covered t.to_add t i.pending i.covered);
  pending =
      rw
        (remove_all-to_add (add_all t t.to_add).to_remove
          (record (add_all t t.to_add) { to_add = [] }))
        tt;
}

Step-Invariant : (t u : Throttler) → Step t u → Invariant t → Invariant u
unfolding throttle remove_throttling set_throttling_interval stop finish
Step-Invariant t u (Step.throttled p v a b) i = elim (Bool-cases (le_nat (add_nat t.sum v) full)) [
  | inl e ↦
      rw (a, e)
        (record {
          covered = i.covered;
          pending = Pending-append t.values t.to_add p v i.pending a b;
        })
  | inr e ↦ rw (a, e) i
]
Step-Invariant t u (Step.released p) i = record { covered = i.covered; pending = i.pending }
Step-Invariant t u (Step.retimed n) i = record { covered = i.covered; pending = i.pending }
Step-Invariant t u Step.stopped i = record { covered = i.covered; pending = i.pending }
Step-Invariant t u Step.drained i = drain-Invariant t i
Step-Invariant t u (Step.finished a) i = record {
  covered = record {
    not_negative = i.covered.not_negative;
    enough = omega (arith, i.covered.enough, total-erase_all (terminated a t.values) t.values);
    bounded = i.covered.bounded;
  };
  pending = Pending-erase_all (terminated a t.values) t.values t.to_add i.pending;
}

reach-Invariant : (t : Throttler) → Reach t → Invariant t
reach-Invariant t Reach.started = record {
  covered = record { not_negative = refl; enough = omega arith; bounded = omega arith };
  pending = tt;
}
reach-Invariant t (Reach.next {t = before} r s) =
    Step-Invariant before t s (reach-Invariant before r)

slept-total :
    (a : Answers) (interval : ℕ) (m : List (ℕ × ℕ)) → slept a interval m ≤ total m * interval
unfolding slept
slept-total a interval [] = omega arith
slept-total a interval ((p, v) ∷ m) = ground (arith, slept-total a interval m)

-- In any order of calls and rounds in which each process is throttled only when it is neither among
-- the throttled processes (`_throttlingValues`) nor among those to add, the percentages handed out
-- are covered by `_sumPercentages`, which stays between 0 and 100%.
pub reach-Covered : (t : Throttler) → Reach t → Covered t.sum t.values
reach-Covered t r = let i = reach-Invariant t r in i.covered

-- In any order of calls and rounds in which each process is throttled only when it is neither among
-- the throttled processes (`_throttlingValues`) nor among those to add, the shares of the interval
-- that a round sleeps for its processes add up to no more than the interval.
pub slept-le_interval :
    (t : Throttler) (a : Answers) → Reach t → slept a t.interval t.values ≤ full * t.interval
slept-le_interval t a r =
    let c = reach-Covered t r in
    let share : total t.values ≤ full = omega (arith, c.enough, c.bounded) in
    omega (arith, slept-total a t.interval t.values, mul-le-mul_right t.interval share)
