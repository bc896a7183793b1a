-- ===== src/Communicator/Tcp.antt =====
-- `CommunicatorTcp::send` and `receive` of src/communicator-tcp.cpp, on a connected socket whose
-- `read` and `write` are the system calls.
pub mod Reads
use mammut.Common.{
  ℕ, zero, suc, ◌-◌, ◌≤◌, ◌<◌, ◌≡◌, Bool, true, false, Option, some, none, List, [], ◌∷◌, ◌++◌,
  length, ◌==◌, if◌then◌else◌, Error, Result, ok, throw,
}
use mammut.Communicator.{Wire}

-- What `read` answers: the bytes it stored, none of them at the end of the stream, or -1.
pub data Read (S : Type 0) : Type 0 where
  got : List ℕ → S → Read S
  failed : Read S

pub record Socket (S : Type 0) : Type 1 where
  pub read : S → ℕ → Read S
  pub write : S → List ℕ → Option ℕ × S

module _ {S : Type 0} (socket : Socket S) where
  written : ℕ → Option ℕ × S → Result S
  written n (none, s) = throw Error.write_short
  written n (some count, s) = if count == n then ok s else throw Error.write_short

  -- `send`
  pub send_bytes : S → List ℕ → Result S
  unfolding written
  send_bytes s message = written (length message) (socket.write s message)

  -- The loop of `receive`, for at most `fuel` rounds: `left` bytes are wanted and `message` is there.
  pub receive_loop : ℕ → S → ℕ → List ℕ → Result (Option (List ℕ) × S)
  receive_loop zero s left message =
      if left == 0 then ok (some message, s) else throw Error.read_failed
  receive_loop (suc fuel) s left message =
      if left == 0 then ok (some message, s) else elim (socket.read s left) [
        | Read.failed ↦ throw Error.read_failed
        | Read.got [] s' ↦ ok (none, s')
        | Read.got (b ∷ bytes) s' ↦
            receive_loop fuel s' (left - length (b ∷ bytes)) (message ++ b ∷ bytes)
      ]

  -- `receive`: each round reads a byte at least, so as many rounds as bytes are enough.
  pub receive_bytes : S → ℕ → Result (Option (List ℕ) × S)
  receive_bytes s message_length = receive_loop message_length s message_length []

  pub wire : Wire S
  wire = record { send_bytes = send_bytes; receive_bytes = receive_bytes }
