-- ===== src/Utils/Monitor/Deadline.antt =====
-- The deadline of `timedWait`.
use mammut.Common.{ℕ, ◌+◌, ◌*◌, ◌%◌, ◌<◌, ◌≡◌, Bool-cases, inl, inr, ltb, arith}
use mammut.Utils.Monitor.{TimeVal, deadline}

-- For a moment of less than 10 ^ 6 microseconds, the deadline has less than 10 ^ 9 nanoseconds, and
-- is the moment and the milliseconds later, to the nanosecond.
pub deadline_lem :
    (now : TimeVal) (ms : ℕ)
    → now.tv_usec < 1000000
    → ((deadline now ms).tv_nsec < 1000000000)
      × ((deadline now ms).tv_sec * 1000000000 + (deadline now ms).tv_nsec
          ≡ now.tv_sec * 1000000000 + now.tv_usec * 1000 + ms * 1000000)
unfolding deadline
deadline_lem now ms h =
    elim (Bool-cases (ltb (now.tv_usec * 1000 + ms % 1000 * 1000000) 1000000000)) [
      | inl q ↦ rw q (ground arith)
      | inr q ↦ rw q (ground arith)
    ]
