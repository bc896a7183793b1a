-- ===== src/Task/Throttler/Faults.antt =====
-- Calls after which `_sumPercentages` and the percentages handed out part.
use mammut.Common.{ℕ, ◌+◌, ◌≤◌, ◌<◌, ◌≡◌, ◌≢◌, true, false, ◌&&◌, [], ◌∷◌, arith}
use mammut.Common.Int.{pos}
use mammut.Task.Throttler.{
  full, start, present, update, insert, erase, add_process, add_all, remove_all, drain, Answers,
  terminated, erase_all, finish, throttle,
}

-- Throttle one process at `v`, again at `w` and another at `u`, each taken up by a round, where
-- only `v + u` is at most 100%: all are accepted and both processes run, for `w` and `u`, whatever
-- their sum, while `_sumPercentages` holds `v + u`.
pub retarget_unchecked :
    (p q v w u : ℕ)
    → p < q
    → v + u ≤ full
    → let a = throttle start p v in
      let b = throttle (drain a.0) p w in
      let c = throttle (drain b.0) q u in
      let d = drain c.0 in
      (a.1 ≡ true)
      × (b.1 ≡ true)
      × (c.1 ≡ true)
      × (d.values ≡ (p, w) ∷ (q, u) ∷ [])
      × (d.sum ≡ pos (v + u))
unfolding throttle drain add_all add_process remove_all present insert update
retarget_unchecked p q v w u lt fits = ground arith

-- Throttle a process at `v`, which then terminates in a round: nothing is throttled any more, and
-- yet a process that wants more than 100% less `v` is refused.
pub terminated_reserved :
    (p q v w : ℕ) (a : Answers)
    → v ≤ full
    → full < v + w
    → a.continued p && a.stopped p ≡ false
    → let t = finish a (drain (throttle start p v).0) in
      (t.values ≡ []) × (throttle t q w ≡ (t, false))
unfolding throttle drain add_all add_process remove_all present insert finish terminated erase_all
    erase
terminated_reserved p q v w a fits over ended = ground (arith, ended)

-- Two processes whose percentages fit one by one but not together, throttled in the same round:
-- both calls answer `true`, and the round throttles only the first.
pub throttle_dropped :
    (p q v w : ℕ)
    → p ≢ q
    → v ≤ full
    → w ≤ full
    → full < v + w
    → let a = throttle start p v in
      let b = throttle a.0 q w in
      (a.1 ≡ true) × (b.1 ≡ true) × ((drain b.0).values ≡ (p, v) ∷ []) × ((drain b.0).sum ≡ pos v)
unfolding throttle drain add_all add_process remove_all present insert
throttle_dropped p q v w ne fits fits' over = ground arith
