-- ===== src/Communicator/Framing.antt =====
-- What one side sends, the other side receives.
use mammut.Common.{
  ℕ, suc, ◌^◌, ◌<◌, ◌≡◌, refl, sym, ap, subst, ◌∙◌, some, List, [], ◌∷◌, ◌++◌, length, ◌==◌,
  ==_false, ok-injective, if◌then◌else◌, ok, arith,
}
use mathlib.Core.List.{append_assoc, append-nil}
use native.Mathlib.Nat.{mod-eq_of_lt}
use mammut.Communicator.{
  Wire, NetworkOrder, send_header, send, must, receive_id, receive_lengths, receive_header,
  receive_body, receive,
}

-- `htonl` gives four bytes, from which `ntohl` has the number back.
pub record OrderLaws (order : NetworkOrder) : Type 0 where
  pub four : (n : ℕ) → length (order.htonl n) ≡ 4
  pub back : (n : ℕ) → n < 2 ^ 32 → order.ntohl (order.htonl n) ≡ n

-- A channel that takes every byte it is given.
abbrev pub Takes : {S : Type 0} → Wire S → (S → List ℕ) → Type 0
Takes {S = S} wire sent =
    (s : S) (xs : List ℕ) → (s' : S) × (wire.send_bytes s xs ≡ ok s') × (sent s' ≡ sent s ++ xs)

-- A channel that hands out as many bytes as are asked for, while they last.
abbrev pub Gives : {S : Type 0} → Wire S → (S → List ℕ) → Type 0
Gives {S = S} wire pending =
    (s : S) (xs rest : List ℕ)
    → pending s ≡ xs ++ rest
    → (s' : S) × (wire.receive_bytes s (length xs) ≡ ok (some xs, s')) × (pending s' ≡ rest)

-- The bytes of a message on the channel.
pub frame : NetworkOrder → List ℕ → List ℕ → List ℕ
frame order message_id message =
    order.htonl (length message_id) ++ (message_id ++ (order.htonl (length message) ++ message))

send-steps :
    (order : NetworkOrder) {S : Type 0} (wire : Wire S) (s s1 s2 s3 s4 : S)
    (message_id message : List ℕ)
    → length message_id < 2 ^ 32
    → length message < 2 ^ 32
    → wire.send_bytes s (order.htonl (length message_id)) ≡ ok s1
    → (if length message_id == 0 then ok s1 else wire.send_bytes s1 message_id) ≡ ok s2
    → wire.send_bytes s2 (order.htonl (length message)) ≡ ok s3
    → wire.send_bytes s3 message ≡ ok s4
    → send order wire s message_id message ≡ ok s4
unfolding send send_header
send-steps order wire s s1 s2 s3 s4 message_id message id_fits fits e1 e2 e3 e4 =
    rw (mod-eq_of_lt id_fits, mod-eq_of_lt fits, e1, e2, e3) e4

send_id :
    {S : Type 0} (wire : Wire S) (sent : S → List ℕ)
    → Takes wire sent
    → (s : S) (message_id : List ℕ)
    → (s' : S) × ((if length message_id == 0 then ok s else wire.send_bytes s message_id) ≡ ok s')
      × (sent s' ≡ sent s ++ message_id)
send_id wire sent takes s [] = (s, refl, rw (append-nil (sent s)) refl)
send_id wire sent takes s (x ∷ xs) =
    let (s', e, p) = takes s (x ∷ xs) in (s', rw (==_false (suc (length xs)) 0 (omega arith)) e, p)

chain :
    (a b c d e w x y z : List ℕ)
    → b ≡ a ++ w
    → c ≡ b ++ x
    → d ≡ c ++ y
    → e ≡ d ++ z
    → e ≡ a ++ (w ++ (x ++ (y ++ z)))
chain a b c d e w x y z p q r s =
    rw
      (
        s,
        r,
        q,
        p,
        append_assoc ((a ++ w) ++ x) y z,
        append_assoc (a ++ w) x (y ++ z),
        append_assoc a w (x ++ (y ++ z)),
      )
      refl

-- On a channel that takes every byte, sending a message whose name and text have less than 2 ^ 32
-- bytes returns, and has put the frame on the channel: the name's length, the name, the text's
-- length and the text, each length as `htonl` lays it out.
pub send-frame :
    (order : NetworkOrder) {S : Type 0} (wire : Wire S) (sent : S → List ℕ)
    → Takes wire sent
    → (s : S) (message_id message : List ℕ) → length message_id < 2 ^ 32
    → length message < 2 ^ 32
    → (s' : S) × (send order wire s message_id message ≡ ok s')
      × (sent s' ≡ sent s ++ frame order message_id message)
unfolding frame
send-frame order wire sent takes s message_id message id_fits fits =
    let (s1, e1, p1) = takes s (order.htonl (length message_id)) in
    let (s2, e2, p2) = send_id wire sent takes s1 message_id in
    let (s3, e3, p3) = takes s2 (order.htonl (length message)) in
    let (s4, e4, p4) = takes s3 message in
    (
      s4,
      send-steps order wire s s1 s2 s3 s4 message_id message id_fits fits e1 e2 e3 e4,
      chain (sent s) (sent s1) (sent s2) (sent s3) (sent s4) (order.htonl (length message_id))
          message_id (order.htonl (length message)) message p1 p2 p3 p4,
    )

receive-steps :
    (order : NetworkOrder) {S : Type 0} (wire : Wire S) (s s1 s2 s3 s4 : S)
    (message_id message size name : List ℕ)
    → wire.receive_bytes s 4 ≡ ok (some name, s1)
    → receive_id order wire s1 [] (order.ntohl name) ≡ ok (message_id, s2)
    → wire.receive_bytes s2 4 ≡ ok (some size, s3)
    → wire.receive_bytes s3 (order.ntohl size) ≡ ok (some message, s4)
    → receive order wire s [] ≡ ok (some (message_id, message), s4)
unfolding receive receive_header receive_body receive_lengths must
receive-steps order wire s s1 s2 s3 s4 message_id message size name e1 e2 e3 e4 =
    rw (e1, e2, e3, e4) refl

receive_id-given :
    (order : NetworkOrder) {S : Type 0} (wire : Wire S) (pending : S → List ℕ)
    → Gives wire pending
    → (s : S) (message_id rest : List ℕ) → pending s ≡ message_id ++ rest
    → (s' : S) × (receive_id order wire s [] (length message_id) ≡ ok (message_id, s'))
      × (pending s' ≡ rest)
unfolding receive_id must
receive_id-given order wire pending gives s [] rest e = (s, refl, e)
receive_id-given order wire pending gives s (x ∷ xs) rest e =
    let (s', r, p) = gives s (x ∷ xs) rest e in
    (s', rw (==_false (suc (length xs)) 0 (omega arith), r) refl, p)

frame-append :
    (order : NetworkOrder) (message_id message rest : List ℕ)
    → frame order message_id message ++ rest
      ≡ order.htonl (length message_id)
        ++ (message_id ++ (order.htonl (length message) ++ (message ++ rest)))
unfolding frame
frame-append order message_id message rest =
    rw
      (
        append_assoc (order.htonl (length message_id))
            (message_id ++ (order.htonl (length message) ++ message)) rest,
        append_assoc message_id (order.htonl (length message) ++ message) rest,
        append_assoc (order.htonl (length message)) message rest,
      )
      refl

receive-frame :
    (order : NetworkOrder) (laws : OrderLaws order) {S : Type 0} (wire : Wire S)
    (pending : S → List ℕ)
    → Gives wire pending
    → (s : S) (message_id message rest : List ℕ) → length message_id < 2 ^ 32
    → length message < 2 ^ 32
    → pending s ≡ frame order message_id message ++ rest
    → (s' : S) × (receive order wire s [] ≡ ok (some (message_id, message), s'))
      × (pending s' ≡ rest)
receive-frame order laws wire pending gives s message_id message rest id_fits fits e =
    let name : List ℕ = order.htonl (length message_id) in
    let size : List ℕ = order.htonl (length message) in
    let (s1, e1, p1) =
      gives s name (message_id ++ (size ++ (message ++ rest)))
        (e ∙ frame-append order message_id message rest) in
    let (s2, e2, p2) =
      receive_id-given order wire pending gives s1 message_id (size ++ (message ++ rest)) p1 in
    let (s3, e3, p3) = gives s2 size (message ++ rest) p2 in
    let (s4, e4, p4) = gives s3 message rest p3 in
    (
      s4,
      receive-steps order wire s s1 s2 s3 s4 message_id message size name
          (subst (λ n. wire.receive_bytes s n ≡ ok (some name, s1)) (laws.four (length message_id))
            e1)
          (subst (λ n. receive_id order wire s1 [] n ≡ ok (message_id, s2))
            (sym (laws.back (length message_id) id_fits)) e2)
          (subst (λ n. wire.receive_bytes s2 n ≡ ok (some size, s3)) (laws.four (length message))
            e3)
          (subst (λ n. wire.receive_bytes s3 n ≡ ok (some message, s4))
            (sym (laws.back (length message) fits)) e4),
      p4,
    )

-- Over a channel that loses nothing, `htonl` and `ntohl` being inverse on 32 bits: who receives the
-- bytes that sending a message put on the channel, with more behind them, has its name and text
-- back and leaves the bytes behind them. Name and text have less than 2 ^ 32 bytes each.
pub receive-send :
    (order : NetworkOrder) {S R : Type 0} (out : Wire S) (sent : S → List ℕ) (inward : Wire R)
    (pending : R → List ℕ)
    → OrderLaws order
    → Takes out sent
    → Gives inward pending
    → (s s' : S) (r : R) (message_id message rest : List ℕ) → length message_id < 2 ^ 32
    → length message < 2 ^ 32
    → sent s ≡ []
    → send order out s message_id message ≡ ok s'
    → pending r ≡ sent s' ++ rest
    → (r' : R) × (receive order inward r [] ≡ ok (some (message_id, message), r'))
      × (pending r' ≡ rest)
receive-send order out sent inward pending laws takes gives s s' r message_id message rest id_fits
      fits fresh e came =
    let (s'', returns, written) =
      send-frame order out sent takes s message_id message id_fits fits in
    let same : sent s' ≡ frame order message_id message =
      ap sent (ok-injective (sym e ∙ returns))
      ∙ written
      ∙ ap (λ (xs : List ℕ). xs ++ frame order message_id message) fresh in
    receive-frame order laws inward pending gives r message_id message rest id_fits fits
      (came ∙ ap (λ (xs : List ℕ). xs ++ rest) same)
