-- ===== src/Energy/PowerCaps/Examples.antt =====
-- A machine of two sockets with the caps of the package and of the memory.
use mammut.Common.{
  ℕ, ◌+◌, ◌≡◌, ◌≢◌, refl, sym, ap, ◌∙◌, ◌⊎◌, inl, inr, Bool, true, false, ◌&&◌, Bool-cases, Option,
  some, none, List, [], ◌∷◌, ◌==◌, ==_self, ==_false, All, if◌then◌else◌, Error, ok, throw,
}
use mathlib.Core.Option.{some-injective}
use mammut.Utils.Vectors.{contains, Distinct}
use mammut.Energy.PowerCaps.{Limit, PowerCap, Raplcap, PowerCapper, get_rollback_point, rollback}
use mammut.Energy.PowerCaps.Restores.{
  seen, Apart, Laws, Refused, zones, Readable, Restored, rollback-get_rollback_point_caps,
}

-- What the machine holds of a zone of a socket.
record Zone : Type 0 where
  first : Limit
  second : Limit
  enabled : Bool

abbrev State : Type 0
State = ℕ → ℕ → Zone

abbrev put : State → ℕ → ℕ → Zone → State
put s i z v j y = if i == j && z == y then v else s j y

abbrev with_limits : Zone → Option Limit → Option Limit → Zone
with_limits v none none = v
with_limits v (some a) none = record v { first = a }
with_limits v none (some b) = record v { second = b }
with_limits v (some a) (some b) = record v { first = a; second = b }

abbrev machine : Raplcap State
machine = record {
  get_limits = λ s i z. some ((s i z).first, (s i z).second);
  set_limits = λ s i z a b. some (put s i z (with_limits (s i z) a b));
  is_zone_enabled = λ s i z. (s i z).enabled;
  set_zone_enabled = λ s i z b. some (put s i z (record (s i z) { enabled = b }));
  is_zone_supported = λ s i z. true;
}

put_self : (s : State) (i z : ℕ) (v : Zone) → put s i z v i z ≡ v
put_self s i z v = rw (==_self i, ==_self z) refl

put-apart : (s : State) (i z j y : ℕ) (v : Zone) → (j ≢ i) ⊎ (y ≢ z) → put s i z v j y ≡ s j y
put-apart s i z j y v (inl ne) = rw (==_false i j (λ q. ne (sym q))) refl
put-apart s i z j y v (inr ne) = elim (Bool-cases (i == j)) [
  | inl q ↦ rw (q, ==_false z y (λ p. ne (sym p))) refl
  | inr q ↦ rw q refl
]

abbrev seen_of : Zone → Option (Limit × Limit) × Bool
seen_of v = (some (v.first, v.second), v.enabled)

-- A call that answered a state has put its zone there.
put-told :
    (s s' : State) (i z : ℕ) (v : Zone)
    → some (put s i z v) ≡ some s'
    → (seen machine s' i z ≡ seen_of v) × Apart machine s s' i z
put-told s s' i z v e =
    let q : put s i z v ≡ s' = some-injective _ _ e in
    (
      ap (λ t. seen_of (t i z)) (sym q) ∙ ap seen_of (put_self s i z v),
      λ j y ne. ap (λ t. seen_of (t j y)) (sym q) ∙ ap seen_of (put-apart s i z j y v ne),
    )

machine-Laws : Laws machine
machine-Laws = record {
  sets_first = λ s s' i z l k a b gave now e.
      let (at, kept) = put-told s s' i z _ e in
      (
        at ∙ ap (λ (o : Limit × Limit). (some (l, o.1), (s i z).enabled)) (some-injective _ _ now),
        kept,
      );
  sets_second = λ s s' i z l k a b gave now e.
      let (at, kept) = put-told s s' i z _ e in
      (
        at ∙ ap (λ (o : Limit × Limit). (some (o.0, k), (s i z).enabled)) (some-injective _ _ now),
        kept,
      );
  enables = λ s s' i z b e. put-told s s' i z _ e;
}

abbrev limit_of : ℕ → Limit
limit_of w = record { watts = w; seconds = 1 }

abbrev before : State
before i z = record { first = limit_of (90 + i); second = limit_of 120; enabled = z == 0 }

abbrev later : State
later i z = record { first = limit_of 40; second = limit_of 40; enabled = true }

-- There is no cap at the plug.
abbrev cappers : List (Option PowerCapper)
cappers =
    some (record { zone = 0; sockets = 2 }) ∷ some (record { zone = 1; sockets = 2 }) ∷ none ∷ []

readable : (s : State) → All (Readable machine s) cappers
unfolding Readable
readable s = (λ j lt. (_, _, refl), (λ j lt. (_, _, refl), (tt, tt)))

rollback-get_rollback_point_caps_example :
    (rows : List (List (PowerCap × PowerCap))) × (get_rollback_point machine before cappers
      ≡ ok rows)
    × (((s' : State) × (rollback machine later cappers rows ≡ ok s')
          × All (Restored machine before s') cappers
          × ((j y : ℕ)
              → contains (zones machine cappers) y ≡ false
              → seen machine s' j y ≡ seen machine later j y))
        ⊎ ((rollback machine later cappers rows ≡ throw Error.write_failed)
            × (j z : ℕ) × (contains (zones machine cappers) z ≡ true)
            × Refused machine before j z))
unfolding Distinct contains zones
rollback-get_rollback_point_caps_example =
    rollback-get_rollback_point_caps machine machine-Laws before later cappers (refl, (refl, tt))
      (readable before) (readable later)
