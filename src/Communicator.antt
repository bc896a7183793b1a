-- ===== src/Communicator.antt =====
-- Class Communicator of src/communicator.cpp: messages framed by the lengths of their type's name
-- and of their text. The bytes go through the two virtual functions of `Wire`.
pub mod Tcp
pub mod Framing
mod Examples
use mammut.Common.{
  ℕ, zero, suc, ◌%◌, ◌^◌, Bool, true, false, not, Option, some, none, List, [], ◌∷◌, length, ◌==◌,
  if◌then◌else◌, Error, Result, ok, throw, ◌>>=◌, text_eq,
}

-- What a byte channel with state `S` offers. `receive_bytes` gives none where it returns false.
pub record Wire (S : Type 0) : Type 1 where
  pub send_bytes : S → List ℕ → Result S
  pub receive_bytes : S → ℕ → Result (Option (List ℕ) × S)

-- `htonl` and `ntohl`, to and from the four bytes in memory.
pub record NetworkOrder : Type 0 where
  pub htonl : ℕ → List ℕ
  pub ntohl : List ℕ → ℕ

-- A protobuf message as `send` sees it.
pub record Message : Type 0 where
  pub type_name : List ℕ
  pub serialized : List ℕ

-- A received header, or message.
Header : Type 0
Header = List ℕ × ℕ

module _ (order : NetworkOrder) {S : Type 0} (wire : Wire S) where
  -- `sendHeader`, with both lengths cut to 32 bits.
  pub send_header : S → List ℕ → ℕ → Result S
  send_header s message_id message_length =
      wire.send_bytes s (order.htonl (length message_id % 2 ^ 32)) >>= λ s1.
      (if length message_id == 0 then ok s1 else wire.send_bytes s1 message_id) >>= λ s2.
      wire.send_bytes s2 (order.htonl (message_length % 2 ^ 32))

  -- `send(messageId, message)`
  pub send : S → List ℕ → List ℕ → Result S
  send s message_id message =
      send_header s message_id (length message) >>= λ s1. wire.send_bytes s1 message

  -- `send(message)`
  pub send_message : S → Message → Result S
  send_message s m =
      send_header s m.type_name (length m.serialized) >>= λ s1. wire.send_bytes s1 m.serialized

  -- The end of a part that must be there.
  must : Option (List ℕ) × S → Result (List ℕ × S)
  must (none, s) = throw Error.truncated_receive
  must (some bytes, s) = ok (bytes, s)

  -- The name of the message; one of no bytes leaves the caller's string as it was.
  receive_id : S → List ℕ → ℕ → Result (List ℕ × S)
  receive_id s given id_length =
      if id_length == 0 then ok (given, s) else (wire.receive_bytes s id_length >>= must)

  receive_lengths : List ℕ → Option (List ℕ) × S → Result (Option (List ℕ × ℕ) × S)
  receive_lengths given (none, s) = ok (none, s)
  receive_lengths given (some bytes, s) = receive_id s given (order.ntohl bytes) >>= λ named.
      wire.receive_bytes named.1 4 >>= must >>= λ sized.
      ok (some (named.0, order.ntohl sized.0), sized.1)

  -- `receiveHeader`
  pub receive_header : S → List ℕ → Result (Option (List ℕ × ℕ) × S)
  receive_header s given = wire.receive_bytes s 4 >>= receive_lengths given

  receive_body : Option (List ℕ × ℕ) × S → Result (Option (List ℕ × List ℕ) × S)
  receive_body (none, s) = ok (none, s)
  receive_body (some (message_id, message_length), s) =
      wire.receive_bytes s message_length >>= must >>= λ body.
      ok (some (message_id, body.0), body.1)

  -- `receive(messageId, message)`
  pub receive : S → List ℕ → Result (Option (List ℕ × List ℕ) × S)
  receive s given = receive_header s given >>= receive_body

  -- What `remoteCall` makes of the answer.
  answer : List ℕ → (List ℕ → Option (List ℕ)) → Option (List ℕ × List ℕ) × S → Result (List ℕ × S)
  answer expected parse (none, s) = throw Error.connection_closed
  answer expected parse (some (message_id, message), s) =
      if text_eq message_id []
      then throw Error.remote_exception
      else if not (text_eq message_id expected)
      then throw Error.message_mismatch
      else elim (parse message) [ none ↦ throw Error.unparsable | some r ↦ ok (r, s) ]

  -- `remoteCall`; `parse` is protobuf's `ParseFromString` for the expected type.
  pub remote_call : S → Message → List ℕ → (List ℕ → Option (List ℕ)) → Result (List ℕ × S)
  remote_call s request expected parse =
      send_message s request >>= λ s1. receive s1 [] >>= answer expected parse
