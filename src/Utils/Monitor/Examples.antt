-- ===== src/Utils/Monitor/Examples.antt =====
-- Two threads, one of which waits.
use mammut.Common.{◌+◌, ◌*◌, ◌≤◌, ◌<◌, ◌≡◌, refl, inl, true, false, replicate, arith}
use mammut.Utils.Monitor.{
  Code, Phase, Monitor, TimeVal, deadline, check, after_check, is_timed_out, enter, release, notify,
}
use mammut.Utils.Monitor.Deadline.{deadline_lem}
use mammut.Utils.Monitor.Notifications.{Run, successes, Run-successes}

abbrev clock : TimeVal
clock = record { tv_sec = 100; tv_usec = 900000 }

deadline_lem_run :
    ((deadline clock 2500).tv_nsec < 1000000000)
    × ((deadline clock 2500).tv_sec * 1000000000 + (deadline clock 2500).tv_nsec
        ≡ clock.tv_sec * 1000000000 + clock.tv_usec * 1000 + 2500 * 1000000)
deadline_lem_run = deadline_lem clock 2500 (omega arith)

abbrev two_threads : Monitor
two_threads = record { predicate = false; threads = replicate 2 Phase.outside }

-- The first thread has entered a timed wait, whose time is over.
late : Run (release (enter two_threads 0 true) 0 true Code.timed_out) 0 0
unfolding enter release check after_check is_timed_out successes
late = Run.released 0 true Code.timed_out refl (Run.entered 0 true (inl refl) (Run.created 2))

notified-Run : Run (notify (release (enter two_threads 0 true) 0 true Code.timed_out)) 1 0
notified-Run = Run.notified late

Run-successes_example :
    (0 ≤ 1)
    × ((notify (release (enter two_threads 0 true) 0 true Code.timed_out)).predicate ≡ true → 1 ≤ 1)
unfolding notify
Run-successes_example = Run-successes notified-Run
