-- ===== src/Energy/Counters/Remote/Serves.antt =====
-- The remote counters over the `processMessage` of a server's Energy.
use mammut.Common.{
  ℕ, ◌≡◌, refl, sym, ap, inl, inr, Bool, true, Option, some, none, List, [], ◌∷◌, Error, Result,
  Result-cases, ok, throw, ◌>>=◌,
}
use mammut.Server.{told, client_error}
use mammut.Energy.Msr.{JoulesCpu}
use mammut.Energy.Counters.{
  Counter, CounterCpus, Energy, plus, no_joules, components_loop, get_joules_components_all,
  CounterType, CounterReq, Response, used, answer_init, answer_reset, answer_get, results_loop,
  process_cpus, process_other, process_type, process_message,
}
use mammut.Energy.Counters.Remote.{
  as_bool, as_joules, as_results, sum_results, request, remote_init, remote_reset,
  remote_get_joules, has_request, create_cpus, remote_get_joules_components, created_plug,
  created_cpus, create,
}

-- `remoteCall` of a client of a server with some counters.
pub call : {S : Type 0} → Energy S → S → CounterReq → Result (S × Response)
call e s r = elim (process_message e s r) [ none ↦ throw Error.remote_exception | some x ↦ told x ]

-- The counter at the plug or of the memory.
unfoldable pub generic : {S : Type 0} → Energy S → CounterType → Option (Counter S)
generic e CounterType.counter_plug = e.counter_plug
generic e CounterType.counter_memory = e.counter_memory
generic e CounterType.counter_cpus = none

rebind :
    {A B C : Type 0} (r : Result A) (f : A → B) (g : B → C)
    → (r >>= (λ a. ok (f a)) >>= (λ b. ok (g b))) ≡ (r >>= λ a. ok (g (f a)))
rebind (ok a) f g = refl
rebind (throw e) f g = refl

-- What is sure to throw after a call throws with it.
fails :
    {A B : Type 0} (r : Result A) (k : A → Result B)
    → ((a : A) → (x : Error) × (k a ≡ throw x))
    → (x : Error) × ((r >>= k) ≡ throw x)
fails (ok a) k h = h a
fails (throw e) k h = (e, refl)

-- The answers of the server as the client reads them.
read_init :
    {S : Type 0} (r : Result (S × Bool))
    → (told (r >>= λ p. ok (p.0, Response.res_bool (some p.1))) >>= as_bool) ≡ told r
unfolding told as_bool
read_init (ok (s, b)) = refl
read_init (throw e) = refl

read_reset :
    {S : Type 0} (r : Result S)
    → (told (r >>= λ s. ok (s, Response.res_bool (some true))) >>= as_bool >>= λ p. ok p.0) ≡ told r
unfolding told as_bool
read_reset (ok s) = refl
read_reset (throw e) = refl

read_get :
    {S : Type 0} (r : Result (S × ℕ))
    → (told (r >>= λ p. ok (p.0, Response.res_get_generic p.1)) >>= as_joules) ≡ told r
unfolding told as_joules
read_get (ok (s, j)) = refl
read_get (throw e) = refl

module _ {S : Type 0} where
  sum-results_loop :
      (c : CounterCpus S) (s : S) (jc : JoulesCpu) (ids : List ℕ)
      → (results_loop c s ids >>= λ r. ok (r.0, sum_results jc r.1)) ≡ components_loop c s jc ids
  unfolding results_loop sum_results components_loop
  sum-results_loop c s jc [] = refl
  sum-results_loop c s jc (id ∷ ids) = elim (Result-cases (c.get_joules_components s id)) [
    | inl (x, h) ↦ rw h refl
    | inr (read, h) ↦
        rw (h, sym (sum-results_loop c read.0 (plus jc read.1) ids))
          (rebind (results_loop c read.0 ids) _ _)
  ]

  -- The joules that a remote client sums up over the answer for all CPUs are those that the server's
  -- `getJoulesComponentsAll` gives, with the same effect on the server, and the same exceptions,
  -- each as the client meets it.
  pub remote_get_joules_components-all :
      (e : Energy S) (c : CounterCpus S) (s : S)
      → e.counter_cpus ≡ some c
      → remote_get_joules_components (call e) s ≡ told (get_joules_components_all c s)
  unfolding call process_message process_type process_cpus used as_results
      remote_get_joules_components get_joules_components_all told request
  remote_get_joules_components-all e c s h = elim (Result-cases (results_loop c s c.cpus)) [
    | inl (x, q) ↦ rw (h, q) (rw q at (ap told (sum-results_loop c s no_joules c.cpus)))
    | inr (r, q) ↦ rw (h, q) (rw q at (ap told (sum-results_loop c s no_joules c.cpus)))
  ]

  -- A remote counter at the plug or of the memory resets, reads and starts the server's counter, if
  -- the server has it, with the same results.
  pub remote_counter-lem :
      (e : Energy S) (type : CounterType) (c : Counter S) (s : S)
      → generic e type ≡ some c
      → (remote_init (call e) type s ≡ told (c.init s))
        × (remote_reset (call e) type s ≡ told (c.reset s))
        × (remote_get_joules (call e) type s ≡ told (c.get_joules s))
  unfolding call generic process_message process_type process_other used answer_init answer_reset
      answer_get as_bool as_joules remote_init remote_reset remote_get_joules told request
  remote_counter-lem e CounterType.counter_cpus c s h = cc
  remote_counter-lem e CounterType.counter_plug c s h =
      (rw h (read_init (c.init s)), rw h (read_reset (c.reset s)), rw h (read_get (c.get_joules s)))
  remote_counter-lem e CounterType.counter_memory c s h =
      (rw h (read_init (c.init s)), rw h (read_reset (c.reset s)), rw h (read_get (c.get_joules s)))

  -- A client cannot make a remote Energy for a server without a counter of the CPUs: the
  -- constructor of CounterCpusRemote makes the server use a null pointer before its `init` can say
  -- that there is no such counter.
  pub create-no_cpus :
      (e : Energy S) (s : S)
      → e.counter_cpus ≡ none
      → (create_cpus (call e) s ≡ throw Error.uninitialised)
        × (x : Error) × (create (call e) s ≡ throw x)
  unfolding call process_message process_type process_cpus used as_bool has_request create_cpus
      created_cpus create told client_error
  create-no_cpus e s h =
      let no_cpus : (w : S) → created_cpus (call e) w ≡ throw Error.uninitialised =
        λ w. rw h refl in
      let (x, p) = fails (created_plug (call e) s) _ (λ p.
        fails (remote_init (call e) CounterType.counter_memory p.0) _
          (λ m. (Error.uninitialised, rw (no_cpus m.0) refl))) in
      (rw h refl, x, p)
