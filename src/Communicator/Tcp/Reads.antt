-- ===== src/Communicator/Tcp/Reads.antt =====
-- `CommunicatorTcp::receive` puts together what `read` hands out in pieces.
use mammut.Common.{
  ℕ, zero, suc, ◌+◌, ◌-◌, ◌≤◌, ◌<◌, ◌≡◌, refl, sym, ap, ap₂, ◌∙◌, some, List, [], ◌∷◌, ◌++◌, length,
  length-append, ==_false, ok, arith,
}
use mathlib.Core.List.{append_assoc, append-nil, nil≢cons, head-eq_of_cons-eq, tail-eq_of_cons-eq}
use mammut.Communicator.Tcp.{got, Socket, receive_loop, receive_bytes}

-- One call of `read` for `n` bytes on a stream of `bytes`: some of the first ones, and none only at
-- the end.
pub record Piece {S : Type 0} (socket : Socket S) (pending : S → List ℕ) (s : S) (n : ℕ)
    : Type 0 where
  pub piece : List ℕ
  pub after : S
  pub answer : socket.read s n ≡ got piece after
  pub split : pending s ≡ piece ++ pending after
  pub at_most : length piece ≤ n
  pub ended : piece ≡ [] → pending s ≡ []

-- The bytes of a list that come after a shorter list it starts with.
append-split :
    (xs ys us vs : List ℕ)
    → xs ++ ys ≡ us ++ vs
    → length us ≤ length xs
    → (t : List ℕ) × (xs ≡ us ++ t) × (vs ≡ t ++ ys)
append-split xs ys [] vs e le = (xs, refl, sym e)
append-split [] ys (u ∷ us) vs e le = absurd (omega arith)
append-split (x ∷ xs) ys (u ∷ us) vs e le =
    let (t, p, q) = append-split xs ys us vs (tail-eq_of_cons-eq e) (omega arith) in
    (t, ap₂ ◌∷◌ (head-eq_of_cons-eq e) p, q)

module _ {S : Type 0} (socket : Socket S) (pending : S → List ℕ)
    (reads : (s : S) (n : ℕ) → 0 < n → Piece socket pending s n) where
  -- The loop reads exactly the bytes wanted, in `fuel` rounds.
  Reads : ℕ → Type 0
  Reads fuel =
      (s : S) (xs rest message : List ℕ)
      → length xs ≤ fuel
      → pending s ≡ xs ++ rest
      → (s' : S) × (receive_loop socket fuel s (length xs) message ≡ ok (some (message ++ xs), s'))
        × (pending s' ≡ rest)

  receive_loop-got :
      (fuel : ℕ) (s after : S) (left b : ℕ) (bytes message : List ℕ)
      → 0 < left
      → socket.read s left ≡ got (b ∷ bytes) after
      → receive_loop socket (suc fuel) s left message
        ≡ receive_loop socket fuel after (left - length (b ∷ bytes)) (message ++ b ∷ bytes)
  unfolding receive_loop
  receive_loop-got fuel s after zero b bytes message pos a = absurd (omega arith)
  receive_loop-got fuel s after (suc left) b bytes message pos a =
      rw (==_false (suc left) 0 (omega arith), a) refl

  rest_of_round :
      (fuel : ℕ) (s s' : S) (whole message piece t : List ℕ) (n : ℕ)
      → whole ≡ piece ++ t
      → n ≡ length t
      → receive_loop socket fuel s (length t) (message ++ piece)
        ≡ ok (some ((message ++ piece) ++ t), s')
      → receive_loop socket fuel s n (message ++ piece) ≡ ok (some (message ++ whole), s')
  rest_of_round fuel s s' whole message piece t n here left returns =
      rw (left, returns, here, append_assoc message piece t) refl

  round :
      (fuel : ℕ) (s : S) (x : ℕ) (xs rest message piece : List ℕ) (after : S)
      → Reads fuel
      → length xs ≤ fuel
      → pending s ≡ (x ∷ xs) ++ rest
      → socket.read s (suc (length xs)) ≡ got piece after
      → pending s ≡ piece ++ pending after
      → length piece ≤ suc (length xs)
      → (piece ≡ [] → pending s ≡ [])
      → (s' : S) × (receive_loop socket (suc fuel) s (suc (length xs)) message
          ≡ ok (some (message ++ x ∷ xs), s'))
        × (pending s' ≡ rest)
  unfolding Reads
  round fuel s x xs rest message [] after ih le e a split at_most ended =
      absurd (nil≢cons (sym (ended refl) ∙ e))
  round fuel s x xs rest message (b ∷ bytes) after ih le e a split at_most ended =
      let (t, here, later) =
        append-split (x ∷ xs) rest (b ∷ bytes) (pending after) (sym e ∙ split) at_most in
      let len : suc (length xs) ≡ suc (length bytes) + length t =
        ap length here ∙ length-append (b ∷ bytes) t in
      let (s', returns, done) = ih after t rest (message ++ b ∷ bytes) (omega (arith, len)) later in
      (
        s',
        receive_loop-got fuel s after (suc (length xs)) b bytes message (omega arith) a
            ∙ rest_of_round fuel after s' (x ∷ xs) message (b ∷ bytes) t
                (suc (length xs) - length (b ∷ bytes)) here (omega (arith, len)) returns,
        done,
      )

  receive_loop-Reads : (fuel : ℕ) → Reads fuel
  unfolding receive_loop Reads
  receive_loop-Reads zero s [] rest message le e = (s, rw (append-nil message) refl, e)
  receive_loop-Reads (suc fuel) s [] rest message le e = (s, rw (append-nil message) refl, e)
  receive_loop-Reads zero s (x ∷ xs) rest message le e = absurd (omega arith)
  receive_loop-Reads (suc fuel) s (x ∷ xs) rest message le e =
      let r : Piece socket pending s (suc (length xs)) = reads s (suc (length xs)) (omega arith) in
      round fuel s x xs rest message r.piece r.after (receive_loop-Reads fuel) (omega arith) e
        r.answer r.split r.at_most r.ended

  -- On a socket whose `read` never fails and hands out the stream in any pieces, `receive` returns
  -- exactly as many bytes as it is asked for, in order, if that many arrive before the stream ends.
  pub receive_bytes-here :
      (s : S) (xs rest : List ℕ)
      → pending s ≡ xs ++ rest
      → (s' : S) × (receive_bytes socket s (length xs) ≡ ok (some xs, s')) × (pending s' ≡ rest)
  unfolding receive_bytes Reads
  receive_bytes-here s xs rest e = receive_loop-Reads (length xs) s xs rest [] (omega arith) e
