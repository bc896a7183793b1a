-- ===== src/Task/Throttler/Examples.antt =====
-- Runs of the throttler.
use mammut.Common.{ℕ, ◌*◌, ◌≤◌, ◌≡◌, ◌⊎◌, refl, true, false, [], ◌∷◌, ◌++◌, ok, throw, Error, arith}
use mammut.Common.Int.{pos}
use mammut.Task.Throttler.{
  Throttler, full, start, present, drain, Answers, slept, finish, throttle, remove_throttling,
  throttle_process,
}
use mammut.Task.Throttler.Shares.{Covered}
use mammut.Task.Throttler.Schedules.{Step, Reach, reach-Covered, slept-le_interval}
use mammut.Task.Throttler.Calls.{Accepts, throttle_process-cases, drain-remove_throttling}
use mammut.Task.Throttler.Faults.{retarget_unchecked, terminated_reserved}

-- Processes 1 and 2 at 30% and 60%, taken up by a round.
abbrev two_throttled : Throttler
two_throttled = drain (throttle (throttle start 1 3000).0 2 6000).0

two_throttled-Reach : Reach two_throttled
unfolding throttle present
two_throttled-Reach =
    Reach.next
      (Reach.next (Reach.next Reach.started (Step.throttled 1 3000 refl refl))
        (Step.throttled 2 6000 refl refl))
      Step.drained

abbrev all_run : Answers
all_run = record { continued = λ p. true; stopped = λ p. true }

abbrev all_gone : Answers
all_gone = record { continued = λ p. false; stopped = λ p. false }

reach-Covered_example : Covered two_throttled.sum two_throttled.values
reach-Covered_example = reach-Covered two_throttled two_throttled-Reach

slept-le_interval_example :
    slept all_run two_throttled.interval two_throttled.values ≤ full * two_throttled.interval
slept-le_interval_example = slept-le_interval two_throttled all_run two_throttled-Reach

throttle_process-cases_example :
    ((share : ℕ) × (pos 2000 ≡ pos share)
      × Accepts two_throttled 7 3 3 share
      × (throttle_process two_throttled 7 3 3 true (pos 2000)
          ≡ ok (record two_throttled { to_add = two_throttled.to_add ++ (3, share) ∷ [] }, true)))
    ⊎ (((share : ℕ) → pos 2000 ≡ pos share → Accepts two_throttled 7 3 3 share → ⊥)
        × (e : Error) × (throttle_process two_throttled 7 3 3 true (pos 2000) ≡ throw e))
throttle_process-cases_example = throttle_process-cases two_throttled 7 3 3 (pos 2000) true

drain-remove_throttling_run : drain (remove_throttling (drain (throttle start 1 3000).0) 1) ≡ start
unfolding present
drain-remove_throttling_run = drain-remove_throttling start 1 3000 refl refl refl refl

retarget_unchecked_example :
    let a = throttle start 1 1000 in
    let b = throttle (drain a.0) 1 10000 in
    let c = throttle (drain b.0) 2 9000 in
    let d = drain c.0 in
    (a.1 ≡ true)
    × (b.1 ≡ true)
    × (c.1 ≡ true)
    × (d.values ≡ (1, 10000) ∷ (2, 9000) ∷ [])
    × (d.sum ≡ pos 10000)
retarget_unchecked_example = retarget_unchecked 1 2 1000 10000 9000 (omega arith) (omega arith)

terminated_reserved_example :
    let t = finish all_gone (drain (throttle start 1 8000).0) in
    (t.values ≡ []) × (throttle t 2 5000 ≡ (t, false))
terminated_reserved_example =
    terminated_reserved 1 2 8000 5000 all_gone (omega arith) (omega arith) refl
