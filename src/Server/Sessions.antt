-- ===== src/Server/Sessions.antt =====
-- A client that sends some requests, reads the answers and closes the connection.
pub mod Ends
mod Examples
use mammut.Common.{
  ℕ, zero, suc, ◌<◌, ◌≡◌, refl, sym, subst, ap, ◌∙◌, ◌⊎◌, inl, inr, Bool, true, false, Bool-cases,
  Option, Option-cases, some, none, List, [], ◌∷◌, ◌++◌, length, All, if◌then◌else◌, Error, Result,
  Result-cases, ok, throw, Text, text_eq, arith,
}
use mathlib.Core.List.{append_assoc, append-nil}
use mathlib.Core.Option.{some-injective}
use mammut.Utils.Strings.{get_module_name_from_message_id}
use mammut.Server.{
  Handler, Channel, Turn, is_runtime_error, find, after_exception, on_exception, after_response,
  respond, dispatch, on_receive, turn, goes_on, run,
}

abbrev pub Message : Type 0
Message = Text × Text

-- What a handler leaves alone.
abbrev pub Quiet : {W : Type 0} → (W → List Message) → (W → List Message) → Handler W → Type 0
Quiet {W = W} inbox outbox h =
    (w : W) (a b : Text) → (inbox ((h w a b).0) ≡ inbox w) × (outbox ((h w a b).0) ≡ outbox w)

-- A connection with the requests that the client has sent, after which it closes, and the answers
-- that the server has sent; every sent answer arrives, and a module does not use the connection.
pub record Queues {W : Type 0} (channel : Channel W) (modules : List (Text × Handler W))
    (inbox outbox : W → List Message) : Type 0 where
  pub ended :
      (w : W)
      → inbox w ≡ []
      → (w' : W) × (channel.receive w ≡ (w', ok none)) × (outbox w' ≡ outbox w)
  pub taken :
      (w : W) (r : Message) (rs : List Message)
      → inbox w ≡ r ∷ rs
      → (w' : W) × (channel.receive w ≡ (w', ok (some r)))
        × (inbox w' ≡ rs)
        × (outbox w' ≡ outbox w)
  pub sent :
      (w : W) (a b : Text)
      → (w' : W) × (channel.send w a b ≡ (w', ok tt))
        × (inbox w' ≡ inbox w)
        × (outbox w' ≡ outbox w ++ (a, b) ∷ [])
  pub quiet : All (λ m. Quiet inbox outbox (m.1)) modules

find-Quiet :
    {W : Type 0} (channel : Channel W) (inbox outbox : W → List Message)
    (modules : List (Text × Handler W)) (module_name : Text) (h : Handler W)
    → All (λ m. Quiet inbox outbox (m.1)) modules
    → find channel modules module_name ≡ some h
    → Quiet inbox outbox h
unfolding find
find-Quiet channel inbox outbox [] m h quiet e = cc
find-Quiet channel inbox outbox ((name, h') ∷ modules) m h (quiet, more) e =
    elim (Bool-cases (text_eq name m)) [
      | inl p ↦ subst (Quiet inbox outbox) (some-injective _ _ (rw p at e)) quiet
      | inr p ↦ find-Quiet channel inbox outbox modules m h more (rw p at e)
    ]

module _ {W : Type 0} (channel : Channel W) (modules : List (Text × Handler W)) where
  -- An answer to a request: an exception, or what the module that its name names answers to it.
  pub data Answers (r a : Message) : Type 0 where
    exception : a.0 ≡ [] → Answers r a
    response :
        (module_name : Text) (h : Handler W) (w w' : W)
        → get_module_name_from_message_id r.0 ≡ ok module_name
        → find channel modules module_name ≡ some h
        → h w r.0 r.1 ≡ (w', ok (some a))
        → Answers r a

  -- Answers to the first requests, in their order.
  pub data Replies : List Message → List Message → Type 0 where
    no_more : (rs : List Message) → Replies rs []
    reply :
        (r a : Message) (rs answers : List Message)
        → Answers r a
        → Replies rs answers
        → Replies (r ∷ rs) (a ∷ answers)

  module _ (inbox outbox : W → List Message) (q : Queues channel modules inbox outbox) where
    -- A round took one request, and sent an answer to it or ended the session.
    pub Took : Message → List Message → List Message → W × Turn → Type 0
    Took r rs out p =
        (inbox p.0 ≡ rs)
        × (((a : Message) × (goes_on channel p.1 ≡ true)
              × (outbox p.0 ≡ out ++ a ∷ [])
              × Answers r a)
            ⊎ ((p.1 ≡ Turn.fatal_processing) × (outbox p.0 ≡ out)))

    on_exception-Took :
        (r : Message) (rs out : List Message) (w : W) (e : Error)
        → inbox w ≡ rs
        → outbox w ≡ out
        → Took r rs out (on_exception channel w e)
    unfolding on_exception after_exception Took goes_on
    on_exception-Took r rs out w e i o = elim (Bool-cases (is_runtime_error e)) [
      | inl h ↦
          let (w', s, i', o') = q.sent w [] (channel.what e) in
          rw (h, s)
            (
              i' ∙ i,
              inl (
                ([], channel.what e),
                refl,
                o' ∙ ap (λ x. x ++ ([], channel.what e) ∷ []) o,
                Answers.exception refl,
              ),
            )
      | inr h ↦ rw h (i, inr (refl, o))
    ]

    respond-Took :
        (r : Message) (rs out : List Message) (module_name : Text) (h : Handler W) (w w1 : W)
        (x : Result (Option Message))
        → get_module_name_from_message_id r.0 ≡ ok module_name
        → find channel modules module_name ≡ some h
        → h w r.0 r.1 ≡ (w1, x)
        → inbox w1 ≡ rs
        → outbox w1 ≡ out
        → Took r rs out (respond channel (w1, x))
    unfolding respond after_response Took goes_on
    respond-Took r rs out m h w w1 (throw e) named found p i o = on_exception-Took r rs out w1 e i o
    respond-Took r rs out m h w w1 (ok none) named found p i o =
        on_exception-Took r rs out w1 Error.processing_failed i o
    respond-Took r rs out m h w w1 (ok (some a)) named found p i o =
        let (w2, s, i2, o2) = q.sent w1 a.0 a.1 in
        rw s (
          i2 ∙ i,
          inl (a, refl, o2 ∙ ap (λ x. x ++ a ∷ []) o, Answers.response m h w w1 named found p),
        )

    handler-Took :
        (r : Message) (rs out : List Message) (module_name : Text) (h : Handler W) (w : W)
        → get_module_name_from_message_id r.0 ≡ ok module_name
        → find channel modules module_name ≡ some h
        → inbox w ≡ rs
        → outbox w ≡ out
        → Took r rs out (respond channel (h w r.0 r.1))
    handler-Took r rs out m h w named found i o =
        let quiet = find-Quiet channel inbox outbox modules m h q.quiet found in
        respond-Took r rs out m h w ((h w r.0 r.1).0) ((h w r.0 r.1).1) named found refl
          ((quiet w r.0 r.1).0 ∙ i) ((quiet w r.0 r.1).1 ∙ o)

    pub turn-Took :
        (w : W) (r : Message) (rs : List Message)
        → inbox w ≡ r ∷ rs
        → Took r rs (outbox w) (turn channel modules w)
    unfolding turn on_receive dispatch
    turn-Took w r rs e =
        let (w1, t, i, o) = q.taken w r rs e in
        elim (Result-cases (get_module_name_from_message_id r.0)) [
          | inl (x, named) ↦ rw (t, named) (on_exception-Took r rs (outbox w) w1 x i o)
          | inr (m, named) ↦ elim (Option-cases (find channel modules m)) [
            | inl found ↦
                rw (t, named, dispatch, found)
                  (on_exception-Took r rs (outbox w) w1 Error.not_activated i o)
            | inr (h, found) ↦
                rw (t, named, dispatch, found) (handler-Took r rs (outbox w) m h w1 named found i o)
          ]
        ]
