-- ===== src/Utils/Monitor.antt =====
-- Class Monitor of src/utils.cpp. Its mutex makes what a thread does between two waits one step; a
-- wait on the condition ends when it likes, with or without a notification, as POSIX lets it.
pub mod Deadline
pub mod Notifications
mod Examples
use mammut.Common.{
  ℕ, zero, suc, ◌+◌, ◌-◌, ◌*◌, ◌/◌, ◌%◌, ◌≡◌, ◌⊎◌, Bool, true, false, not, ◌&&◌, Option, some, none,
  List, [], ◌∷◌, get_elem?, set, ltb, ◌==◌, if◌then◌else◌,
}

-- What `pthread_cond_wait` or `pthread_cond_timedwait` returns: 0, `ETIMEDOUT`, or another code.
pub data Code : Type 0 where
  woken : Code
  timed_out : Code
  failed : Code

-- Where a thread is in `wait`, with no limit of time, or in `timedWait`.
pub data Phase : Type 0 where
  outside : Phase
  blocked : Bool → Phase  -- inside the wait on the condition, timed or not
  released : Bool → Code → Phase  -- out of it with its code, before it has the mutex
  returned : Bool → Phase  -- out of the function, which answered that
  threw : Phase  -- out of the function by an exception

pub record Monitor : Type 0 where
  pub predicate : Bool
  pub threads : List Phase

is_timed_out : Code → Bool
is_timed_out Code.woken = false
is_timed_out Code.timed_out = true
is_timed_out Code.failed = false

-- The end of `wait` (false) or `timedWait` (true), by the last code. `wait` returns nothing, which
-- counts as true here, and throws for every code but 0.
pub wait_result : Bool → Code → Phase
wait_result timed Code.woken = Phase.returned true
wait_result true Code.timed_out = Phase.returned false
wait_result false Code.timed_out = Phase.threw
wait_result timed Code.failed = Phase.threw

-- The test of the loop, then the way out of it: `_predicate = false` and the answer.
pub check : Bool → Bool → Code → Bool × Phase
check timed predicate rc =
    if not predicate && not (timed && is_timed_out rc)
    then (predicate, Phase.blocked timed)
    else (false, wait_result timed rc)

-- The thread's place and the predicate after a test.
after_check : Monitor → ℕ → Bool × Phase → Monitor
after_check m i (predicate, phase) = record {
  predicate = predicate;
  threads = set m.threads i phase;
}

-- `wait` or `timedWait` up to the first wait on the condition.
pub enter : Monitor → ℕ → Bool → Monitor
enter m i timed = after_check m i (check timed m.predicate Code.woken)

-- The thread has the mutex back after a wait on the condition.
pub resume : Monitor → ℕ → Bool → Code → Monitor
resume m i timed rc = after_check m i (check timed m.predicate rc)

-- A wait on the condition ends.
pub release : Monitor → ℕ → Bool → Code → Monitor
release m i timed rc = record m { threads = set m.threads i (Phase.released timed rc) }

-- `notifyOne` and `notifyAll`: which waits they end is up to the condition.
pub notify : Monitor → Monitor
notify m = record m { predicate = true }

-- `Monitor::predicate`
pub read_predicate : Monitor → Bool
read_predicate m = m.predicate

-- A moment as `gettimeofday` gives it, and a deadline.
pub record TimeVal : Type 0 where
  pub tv_sec : ℕ
  pub tv_usec : ℕ

pub record TimeSpec : Type 0 where
  pub tv_sec : ℕ
  pub tv_nsec : ℕ

-- The deadline that `timedWait` computes, for a number of milliseconds that is not negative.
pub deadline : TimeVal → ℕ → TimeSpec
deadline now milliseconds =
    let nsec = now.tv_usec * 1000 + milliseconds % 1000 * 1000000 in
    let sec = now.tv_sec + milliseconds / 1000 in
    if ltb nsec 1000000000
    then record { tv_sec = sec; tv_nsec = nsec }
    else record { tv_sec = suc sec; tv_nsec = nsec - 1000000000 }
