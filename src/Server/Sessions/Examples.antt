-- ===== src/Server/Sessions/Examples.antt =====
-- A client that asks a module, asks for one that is not there, and closes.
use mammut.Common.{refl, Option, some, none, List, [], ◌∷◌, ◌++◌, Result, ok, Text, codes, arith}
use mammut.Server.{Handler, Channel, run}
use mammut.Server.Sessions.{Message, Queues}
use mammut.Server.Sessions.Ends.{Ended, run-Ended}

-- What the client has sent and what it has been sent.
abbrev Wire : Type 0
Wire = List Message × List Message

receive_first : List Message → List Message → Wire × Result (Option Message)
receive_first [] out = (([], out), ok none)
receive_first (r ∷ rs) out = ((rs, out), ok (some r))

abbrev memory : Channel Wire
memory = record {
  receive = λ w. receive_first w.0 w.1;
  send = λ w a b. ((w.0, w.1 ++ (a, b) ∷ []), ok tt);
  what = λ e. codes "error";
}

-- A module that answers with the request.
abbrev echo : Handler Wire
echo w a b = (w, ok (some (a, b)))

abbrev modules : List (Text × Handler Wire)
modules = (codes "cpufreq", echo) ∷ []

memory-Queues : Queues memory modules (λ w. w.0) (λ w. w.1)
unfolding receive_first
memory-Queues = record {
  ended = λ w e. ((w.0, w.1), rw e refl, refl);
  taken = λ w r rs e. ((rs, w.1), rw e refl, refl, refl);
  sent = λ w a b. (_, refl, refl, refl);
  quiet = (λ w a b. (refl, refl), tt);
}

abbrev client : Wire
client = ((codes "mammut.cpufreq.Get", []) ∷ (codes "mammut.energy.Get", []) ∷ [], [])

run-Ended_example :
    Ended memory modules (λ w. w.0) (λ w. w.1) memory-Queues client (run memory 3 modules client)
run-Ended_example =
    run-Ended memory modules (λ w. w.0) (λ w. w.1) memory-Queues 3 client (omega arith)
