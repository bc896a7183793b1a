-- ===== src/Communicator/Examples.antt =====
-- A channel in memory, and a message over it.
use mammut.Common.{
  ℕ, ◌+◌, ◌*◌, ◌/◌, ◌%◌, ◌^◌, ◌<◌, ◌≡◌, refl, ap, true, Option, some, none, List, [], ◌∷◌, ◌++◌,
  length, length-append, take, drop, leb, if◌then◌else◌, Result, ok, arith,
}
use mammut.Communicator.{Wire, NetworkOrder, send_header, send, receive}
use mammut.Communicator.Framing.{OrderLaws, Takes, Gives, frame, send-frame, receive-send}
use mammut.Communicator.Tcp.{Read, got, Socket, receive_bytes}
use mammut.Communicator.Tcp.Reads.{Piece, receive_bytes-here}

-- Four bytes, the most significant one first.
abbrev big_endian : NetworkOrder
big_endian = record {
  htonl = λ n. n / 2 ^ 24 ∷ n / 2 ^ 16 % 2 ^ 8 ∷ n / 2 ^ 8 % 2 ^ 8 ∷ n % 2 ^ 8 ∷ [];
  ntohl = word;
}
  where
    word : List ℕ → ℕ
    word (a ∷ b ∷ c ∷ d ∷ []) = a * 2 ^ 24 + b * 2 ^ 16 + c * 2 ^ 8 + d
    word _ = 0

big_endian-OrderLaws : OrderLaws big_endian
big_endian-OrderLaws = record { four = λ n. refl; back = λ n h. ground arith }

-- The bytes on the way.
take_if : ℕ → List ℕ → Result (Option (List ℕ) × List ℕ)
take_if n s = if leb n (length s) then ok (some (take n s), drop n s) else ok (none, [])

abbrev memory : Wire (List ℕ)
memory = record { send_bytes = λ s xs. ok (s ++ xs); receive_bytes = λ s n. take_if n s }

memory-Takes : Takes memory (λ s. s)
memory-Takes s xs = (s ++ xs, refl, refl)

take_if-append : (xs rest : List ℕ) → take_if (length xs) (xs ++ rest) ≡ ok (some xs, rest)
unfolding take_if
take_if-append xs rest = rw (fits, take-length xs rest, drop-length xs rest) refl
  where
    take-length : (xs rest : List ℕ) → take (length xs) (xs ++ rest) ≡ xs
    take-length [] [] = refl
    take-length [] (r ∷ rest) = refl
    take-length (x ∷ xs) rest = ap (◌∷◌ x) (take-length xs rest)

    drop-length : (xs rest : List ℕ) → drop (length xs) (xs ++ rest) ≡ rest
    drop-length [] rest = refl
    drop-length (x ∷ xs) rest = drop-length xs rest

    fits : leb (length xs) (length (xs ++ rest)) ≡ true
    fits = ground (arith, length-append xs rest)

memory-Gives : Gives memory (λ s. s)
memory-Gives s xs rest e = (rest, rw e (take_if-append xs rest), refl)

-- The name "a" and the text "bc".
abbrev sent : List ℕ
sent = 0 ∷ 0 ∷ 0 ∷ 1 ∷ 97 ∷ 0 ∷ 0 ∷ 0 ∷ 2 ∷ 98 ∷ 99 ∷ []

frame_of_message :
    (s' : List ℕ) × (send big_endian memory [] (97 ∷ []) (98 ∷ 99 ∷ []) ≡ ok s')
    × (s' ≡ [] ++ frame big_endian (97 ∷ []) (98 ∷ 99 ∷ []))
frame_of_message =
    send-frame big_endian memory (λ s. s) memory-Takes [] (97 ∷ []) (98 ∷ 99 ∷ []) (omega arith)
      (omega arith)

receive-send_example :
    (r' : List ℕ) × (receive big_endian memory (sent ++ 7 ∷ []) []
      ≡ ok (some (97 ∷ [], 98 ∷ 99 ∷ []), r'))
    × (r' ≡ 7 ∷ [])
unfolding send send_header
receive-send_example =
    receive-send big_endian memory (λ s. s) memory (λ s. s) big_endian-OrderLaws memory-Takes
      memory-Gives [] sent (sent ++ 7 ∷ []) (97 ∷ []) (98 ∷ 99 ∷ []) (7 ∷ []) (omega arith)
      (omega arith) refl refl refl

-- A socket that hands out one byte at a time.
one_byte : List ℕ → Read (List ℕ)
one_byte [] = got [] []
one_byte (b ∷ bytes) = got (b ∷ []) bytes

abbrev slow : Socket (List ℕ)
slow = record { read = λ s n. one_byte s; write = λ s xs. (some (length xs), s) }

slow-reads : (s : List ℕ) (n : ℕ) → 0 < n → Piece slow (λ s. s) s n
unfolding one_byte
slow-reads [] n pos = record {
  piece = [];
  after = [];
  answer = refl;
  split = refl;
  at_most = omega arith;
  ended = λ e. refl;
}
slow-reads (b ∷ bytes) n pos = record {
  piece = b ∷ [];
  after = bytes;
  answer = refl;
  split = refl;
  at_most = omega arith;
  ended = λ e. cc;
}

receive_bytes-here_example :
    (s' : List ℕ) × (receive_bytes slow (1 ∷ 2 ∷ 3 ∷ []) 2 ≡ ok (some (1 ∷ 2 ∷ []), s'))
    × (s' ≡ 3 ∷ [])
receive_bytes-here_example =
    receive_bytes-here slow (λ s. s) slow-reads (1 ∷ 2 ∷ 3 ∷ []) (1 ∷ 2 ∷ []) (3 ∷ []) refl
