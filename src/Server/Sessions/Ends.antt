-- ===== src/Server/Sessions/Ends.antt =====
-- The end of a session, by induction on the requests that are left.
use mammut.Common.{
  ℕ, zero, suc, ◌<◌, ◌≡◌, refl, sym, ap, ◌∙◌, ◌⊎◌, inl, inr, true, Option, some, List, [], ◌∷◌,
  ◌++◌, length, if◌then◌else◌, Text, arith,
}
use mathlib.Core.List.{append_assoc, append-nil}
use mammut.Server.{Handler, Channel, Turn, on_receive, turn, goes_on, run}
use mammut.Server.Sessions.{Message, Queues, Answers, Replies, Took, turn-Took}

module _ {W : Type 0} (channel : Channel W) (modules : List (Text × Handler W)) where
  module _ (inbox outbox : W → List Message) (q : Queues channel modules inbox outbox) where
    -- How a session ends, with the answers sent.
    pub record Ended (w : W) (end : Option (W × Turn)) : Type 0 where
      pub last : W
      pub how : Turn
      pub over : end ≡ some (last, how)
      pub answers : List Message
      pub on_the_way : outbox last ≡ outbox w ++ answers
      pub in_order : Replies channel modules (inbox w) answers
      pub complete :
          ((how ≡ Turn.closed) × (length answers ≡ length (inbox w)))
          ⊎ ((how ≡ Turn.fatal_processing) × (length answers < length (inbox w)))

    -- After a round that was answered, the rest of the session follows.
    Ended-cons :
        (w w1 : W) (r : Message) (rs : List Message) (a : Message) (end : Option (W × Turn))
        → inbox w ≡ r ∷ rs
        → inbox w1 ≡ rs
        → outbox w1 ≡ outbox w ++ a ∷ []
        → Answers channel modules r a
        → Ended w1 end
        → Ended w end
    Ended-cons w w1 r rs a end i i1 o1 answer e = record {
      last = e.last;
      how = e.how;
      over = e.over;
      answers = a ∷ e.answers;
      on_the_way = e.on_the_way ∙ rw o1 (append_assoc (outbox w) (a ∷ []) e.answers);
      in_order = rw i (Replies.reply r a rs e.answers answer (rw i1 at e.in_order));
      complete =
          longer e.how e.answers (inbox w) (inbox w1)
            (ap length i ∙ sym (ap (λ x. suc (length x)) i1)) e.complete;
    }
      where
        longer :
            (t : Turn) (xs before after : List Message)
            → length before ≡ suc (length after)
            → ((t ≡ Turn.closed) × (length xs ≡ length after))
              ⊎ ((t ≡ Turn.fatal_processing) × (length xs < length after))
            → ((t ≡ Turn.closed) × (length (a ∷ xs) ≡ length before))
              ⊎ ((t ≡ Turn.fatal_processing) × (length (a ∷ xs) < length before))
        longer t xs before after h (inl (p, l)) = inl (p, omega arith)
        longer t xs before after h (inr (p, l)) = inr (p, omega arith)

    run-from :
        (rs : List Message) (fuel : ℕ) (w : W)
        → inbox w ≡ rs
        → length rs < fuel
        → Ended w (run channel fuel modules w)
    unfolding run turn on_receive goes_on Took
    run-from rs zero w i h = absurd (omega arith)
    run-from [] (suc fuel) w i h =
        let (w1, t, o) = q.ended w i in
        record {
          last = w1;
          how = Turn.closed;
          over = rw t refl;
          answers = [];
          on_the_way = o ∙ sym (append-nil (outbox w));
          in_order = Replies.no_more (inbox w);
          complete = inl (refl, sym (ap length i));
        }
    run-from (r ∷ rs) (suc fuel) w i h =
        let (i1, outcome) = turn-Took channel modules inbox outbox q w r rs i in
        after (turn channel modules w) i1 outcome
          (run-from rs fuel ((turn channel modules w).0) i1 (omega arith))
      where
        after :
            (p : W × Turn)
            → inbox p.0 ≡ rs
            → ((a : Message) × (goes_on channel p.1 ≡ true)
                × (outbox p.0 ≡ outbox w ++ a ∷ [])
                × Answers channel modules r a)
              ⊎ ((p.1 ≡ Turn.fatal_processing) × (outbox p.0 ≡ outbox w))
            → Ended p.0 (run channel fuel modules p.0)
            → Ended w (if goes_on channel p.1 then run channel fuel modules p.0 else some p)
        after (w1, t) i1 (inl (a, on, o1, answer)) rest =
            rw on (Ended-cons w w1 r rs a _ i i1 o1 answer rest)
        after (w1, t) i1 (inr (how, o1)) rest = record {
          last = w1;
          how = Turn.fatal_processing;
          over = rw how refl;
          answers = [];
          on_the_way = o1 ∙ sym (append-nil (outbox w));
          in_order = Replies.no_more (inbox w);
          complete = inr (refl, omega (arith, ap length i));
        }

    -- A session with a client that sends some requests and closes the connection is over after one
    -- round more than there are requests. The answers are one for each of the first requests, in
    -- their order: an exception, or what the module that the request names answered. The session
    -- ended because the connection was closed, and every request has its answer, or on an exception
    -- that is no `std::runtime_error`, and then not every request has one.
    pub run-Ended :
        (fuel : ℕ) (w : W) → length (inbox w) < fuel → Ended w (run channel fuel modules w)
    run-Ended fuel w h = run-from (inbox w) fuel w refl h
