-- ===== src/Utils/Monitor/Notifications.antt =====
-- The runs of a monitor, with the notifications and the waits that ended with one.
use mammut.Common.{ℕ, suc, ◌+◌, ◌≤◌, ◌≡◌, ◌⊎◌, Bool, true, false, some, get_elem?, replicate, arith}
use mammut.Utils.Monitor.{
  Code, Phase, Monitor, check, after_check, is_timed_out, wait_result, enter, resume, release,
  notify,
}

-- 1 for a wait that ends with the answer true.
unfoldable pub successes : Bool × Phase → ℕ
successes (p, Phase.returned true) = 1
successes (p, _) = 0

-- The states that some threads reach, after `n` notifications and `k` waits that answered true.
pub data Run : Monitor → ℕ → ℕ → Type 0 where
  created :
      (threads : ℕ)
      → Run (record { predicate = false; threads = replicate threads Phase.outside }) 0 0
  entered :
      {m : Monitor} {n k : ℕ} (i : ℕ) (timed : Bool)
      → (get_elem? m.threads i ≡ some Phase.outside)
        ⊎ ((b : Bool) × (get_elem? m.threads i ≡ some (Phase.returned b)))
        ⊎ (get_elem? m.threads i ≡ some Phase.threw)
      → Run m n k
      → Run (enter m i timed) n (k + successes (check timed m.predicate Code.woken))
  released :
      {m : Monitor} {n k : ℕ} (i : ℕ) (timed : Bool) (rc : Code)
      → get_elem? m.threads i ≡ some (Phase.blocked timed)
      → Run m n k
      → Run (release m i timed rc) n k
  resumed :
      {m : Monitor} {n k : ℕ} (i : ℕ) (timed : Bool) (rc : Code)
      → get_elem? m.threads i ≡ some (Phase.released timed rc)
      → Run m n k
      → Run (resume m i timed rc) n (k + successes (check timed m.predicate rc))
  notified : {m : Monitor} {n k : ℕ} → Run m n k → Run (notify m) (suc n) k

bit : Bool → ℕ
bit true = 1
bit false = 0

-- A wait that answers true takes the predicate's notification with it.
successes-check :
    (timed predicate : Bool) (rc : Code)
    → successes (check timed predicate rc) + bit ((check timed predicate rc).0) ≤ bit predicate
unfolding successes check bit is_timed_out wait_result
successes-check true true Code.woken = omega arith
successes-check true true Code.timed_out = omega arith
successes-check true true Code.failed = omega arith
successes-check true false Code.woken = omega arith
successes-check true false Code.timed_out = omega arith
successes-check true false Code.failed = omega arith
successes-check false true Code.woken = omega arith
successes-check false true Code.timed_out = omega arith
successes-check false true Code.failed = omega arith
successes-check false false Code.woken = omega arith
successes-check false false Code.timed_out = omega arith
successes-check false false Code.failed = omega arith

Run-bounded : {m : Monitor} {n k : ℕ} → Run m n k → k + bit m.predicate ≤ n
unfolding bit enter resume release notify after_check
Run-bounded (created threads) = omega arith
Run-bounded (entered {m = m} i timed at r) =
    omega (arith, Run-bounded r, successes-check timed m.predicate Code.woken)
Run-bounded (released i timed rc at r) = Run-bounded r
Run-bounded (resumed {m = m} i timed rc at r) =
    omega (arith, Run-bounded r, successes-check timed m.predicate rc)
Run-bounded (notified {m = m} r) = omega (arith, Run-bounded r)

-- However the threads of a monitor are scheduled and wherever their waits on the condition end, the
-- calls of `wait` that return and the calls of `timedWait` that return true are at most as many as
-- the notifications; where the predicate is set, they are fewer.
pub Run-successes : {m : Monitor} {n k : ℕ} → Run m n k → (k ≤ n) × (m.predicate ≡ true → suc k ≤ n)
unfolding bit
Run-successes {m = m} r =
    (omega (arith, Run-bounded r), λ e. omega (arith, rw e at (Run-bounded r)))
