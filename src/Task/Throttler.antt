-- ===== src/Task/Throttler.antt =====
-- Class ThrottlerThread of src/task/task-linux.cpp, the thread that runs each throttled process for
-- a share of every interval, and the calls of ProcessHandlerLinux that reach it. A percentage is
-- counted in hundredths, so 100.0 is 10000; the rounding of sums of `double` is not modelled. The
-- handler of a process is a number, and `_throttlingValues` lists the handlers in rising order.
pub mod Shares
pub mod Schedules
pub mod Calls
pub mod Faults
mod Examples
use mammut.Common.{
  ℕ, zero, suc, ◌+◌, ◌*◌, ◌/◌, ◌≤◌, ◌<◌, ◌≡◌, Bool, true, false, not, ◌&&◌, ◌||◌, Option, some,
  none, List, [], ◌∷◌, ◌++◌, ltb, leb, ◌==◌, if◌then◌else◌, Error, Result, ok, throw,
}
use mammut.Common.Int.{ℤ, pos, negsuc, add_nat, sub_nat, le_nat}

abbrev pub full : ℕ
full = 10000

pub record Throttler : Type 0 where
  pub run_flag : Bool
  pub interval : ℕ
  pub sum : ℤ
  pub values : List (ℕ × ℕ)
  pub to_add : List (ℕ × ℕ)
  pub to_remove : List ℕ

-- The constructor; the interval is 100000 microseconds.
abbrev pub start : Throttler
start = record {
  run_flag = true;
  interval = 100000;
  sum = pos 0;
  values = [];
  to_add = [];
  to_remove = [];
}

pub lookup : ℕ → List (ℕ × ℕ) → Option ℕ
lookup p [] = none
lookup p ((q, v) ∷ m) = if q == p then some v else lookup p m

pub present : ℕ → List (ℕ × ℕ) → Bool
present p [] = false
present p ((q, v) ∷ m) = q == p || present p m

-- `it->second = percentage`
pub update : ℕ → ℕ → List (ℕ × ℕ) → List (ℕ × ℕ)
update p v [] = []
update p v ((q, w) ∷ m) = if q == p then (q, v) ∷ m else (q, w) ∷ update p v m

-- `insert` of a key that is not there.
pub insert : ℕ → ℕ → List (ℕ × ℕ) → List (ℕ × ℕ)
insert p v [] = (p, v) ∷ []
insert p v ((q, w) ∷ m) = if ltb p q then (p, v) ∷ (q, w) ∷ m else (q, w) ∷ insert p v m

pub erase : ℕ → List (ℕ × ℕ) → List (ℕ × ℕ)
erase p [] = []
erase p ((q, w) ∷ m) = if q == p then m else (q, w) ∷ erase p m

-- `addProcess`
pub add_process : Throttler → ℕ × ℕ → Throttler
add_process t (p, percentage) =
    if present p t.values
    then record t { values = update p percentage t.values }
    else if le_nat (add_nat t.sum percentage) full
    then record t { values = insert p percentage t.values; sum = add_nat t.sum percentage }
    else t

remove_found : Option ℕ → ℕ → Throttler → Throttler
remove_found none p t = t
remove_found (some v) p t = record t { sum = sub_nat t.sum v; values = erase p t.values }

-- `removeProcess`
pub remove_process : Throttler → ℕ → Throttler
unfolding remove_found
remove_process t p = remove_found (lookup p t.values) p t

pub add_all : Throttler → List (ℕ × ℕ) → Throttler
add_all t [] = t
add_all t (x ∷ xs) = add_all (add_process t x) xs

pub remove_all : Throttler → List ℕ → Throttler
remove_all t [] = t
remove_all t (p ∷ ps) = remove_all (remove_process t p) ps

-- The first locked part of a round of `run`.
pub drain : Throttler → Throttler
drain t =
    let added = record (add_all t t.to_add) { to_add = [] } in
    record (remove_all added added.to_remove) { to_remove = [] }

-- What `sendSignal` answers for each process in a round: `false` once it has terminated.
pub record Answers : Type 0 where
  pub continued : ℕ → Bool
  pub stopped : ℕ → Bool

-- The loop over the processes: those that turn out to have terminated.
pub terminated : Answers → List (ℕ × ℕ) → List ℕ
terminated a [] = []
terminated a ((p, v) ∷ m) =
    if a.continued p && a.stopped p then terminated a m else p ∷ terminated a m

-- What the loop sleeps: a share of the interval for each process that continues. It is counted in
-- parts of which `full` are a microsecond, so nothing is rounded.
pub slept : Answers → ℕ → List (ℕ × ℕ) → ℕ
slept a interval [] = 0
slept a interval ((p, v) ∷ m) = (if a.continued p then v * interval else 0) + slept a interval m

pub erase_all : List ℕ → List (ℕ × ℕ) → List (ℕ × ℕ)
erase_all [] m = m
erase_all (p ∷ ps) m = erase_all ps (erase p m)

-- The second locked part of a round.
pub finish : Answers → Throttler → Throttler
finish a t = record t { values = erase_all (terminated a t.values) t.values }

-- `throttle`, with its result.
pub throttle : Throttler → ℕ → ℕ → Throttler × Bool
throttle t p percentage =
    if not (present p t.values) && not (le_nat (add_nat t.sum percentage) full)
    then (t, false)
    else (record t { to_add = t.to_add ++ (p, percentage) ∷ [] }, true)

-- `removeThrottling`
pub remove_throttling : Throttler → ℕ → Throttler
remove_throttling t p = record t { to_remove = t.to_remove ++ p ∷ [] }

-- `setThrottlingInterval`
pub set_throttling_interval : Throttler → ℕ → Throttler
set_throttling_interval t n = record t { interval = n }

-- `stop`
pub stop : Throttler → Throttler
stop t = record t { run_flag = false }

-- `ProcessHandlerLinux::throttle`, for the process that calls, and whether the target is active
-- afterwards.
pub throttle_process : Throttler → ℕ → ℕ → ℕ → Bool → ℤ → Result (Throttler × Bool)
throttle_process t self pid handler active percentage =
    if pid == self then throw Error.self_throttling else elim percentage [
      | negsuc n ↦ throw Error.bad_percentage
      | pos share ↦
          if share == 0 || ltb full share
          then throw Error.bad_percentage
          else let (t', accepted) = throttle t handler share in
            if accepted then ok (t', active) else throw Error.exceeds_percentage
    ]
