-- ===== src/Task/Throttler/Calls.antt =====
-- What a call of `throttle` accepts, and what `removeThrottling` gives back.
use mammut.Common.{
  ℕ, ◌≤◌, ◌<◌, ◌≡◌, refl, ap, ◌≢◌, ◌⊎◌, inl, inr, Bool, true, false, ◌||◌, some, List, [], ◌∷◌,
  ◌++◌, ltb, ◌==◌, arith, Bool-cases, ok, throw, Error,
}
use mammut.Common.Int.{ℤ, pos, negsuc, pos_part, add_nat, le_nat, sub_nat-add_nat}
use mammut.Task.Throttler.{
  Throttler, full, lookup, present, insert, erase, add_process, remove_found, remove_process,
  add_all, remove_all, drain, throttle, remove_throttling, throttle_process,
}

-- The conditions under which `ProcessHandlerLinux::throttle` does not throw.
pub record Accepts (t : Throttler) (self pid handler percentage : ℕ) : Type 0 where
  pub other : pid ≢ self
  pub positive : 0 < percentage
  pub at_most_full : percentage ≤ full
  pub fits : present handler t.values || le_nat (add_nat t.sum percentage) full ≡ true

throttle_share-cases :
    (t : Throttler) (self pid handler percentage : ℕ) (active : Bool)
    → (Accepts t self pid handler percentage
        × (throttle_process t self pid handler active (pos percentage)
            ≡ ok (record t { to_add = t.to_add ++ (handler, percentage) ∷ [] }, active)))
      ⊎ ((Accepts t self pid handler percentage → ⊥)
          × (e : Error) × (throttle_process t self pid handler active (pos percentage) ≡ throw e))
unfolding throttle_process throttle
throttle_share-cases t self pid handler percentage active = elim (Bool-cases (pid == self)) [
  | inl same ↦ inr (λ a. a.other (ground arith), Error.self_throttling, ground (arith, same))
  | inr other ↦ elim (Bool-cases (percentage == 0 || ltb full percentage)) [
    | inl bad ↦ inr (
      λ a. ground (arith, a.positive, a.at_most_full),
      Error.bad_percentage,
      ground (arith, other, bad),
    )
    | inr good ↦
        elim (Bool-cases (present handler t.values || le_nat (add_nat t.sum percentage) full)) [
          | inl fits ↦ inl (
            record {
              other = ground arith;
              positive = ground arith;
              at_most_full = ground arith;
              fits = fits;
            },
            ground arith,
          )
          | inr over ↦ inr (
            λ a. ground (arith, a.fits, over),
            Error.exceeds_percentage,
            ground (arith, other, good, over),
          )
        ]
  ]
]

-- `ProcessHandlerLinux::throttle` returns, with the request appended to the pending ones and
-- nothing else changed, where the target is another process, the percentage is above 0 and at most
-- 100, and the process is throttled already or its share still fits. Otherwise it throws.
pub throttle_process-cases :
    (t : Throttler) (self pid handler : ℕ) (percentage : ℤ) (active : Bool)
    → ((share : ℕ) × (percentage ≡ pos share)
        × Accepts t self pid handler share
        × (throttle_process t self pid handler active percentage
            ≡ ok (record t { to_add = t.to_add ++ (handler, share) ∷ [] }, active)))
      ⊎ (((share : ℕ) → percentage ≡ pos share → Accepts t self pid handler share → ⊥)
          × (e : Error) × (throttle_process t self pid handler active percentage ≡ throw e))
unfolding throttle_process
throttle_process-cases t self pid handler (pos share) active =
    elim (throttle_share-cases t self pid handler share active) [
      | inl (accepts, returns) ↦ inl (share, refl, accepts, returns)
      | inr (refuses, e, throws) ↦
          inr (λ share' q a. let same = ap pos_part q in refuses (rw same a), e, throws)
    ]
throttle_process-cases t self pid handler (negsuc n) active = elim (Bool-cases (pid == self)) [
  | inl same ↦ inr (λ share q a. cc, Error.self_throttling, rw same refl)
  | inr other ↦ inr (λ share q a. cc, Error.bad_percentage, rw other refl)
]

lookup-insert :
    (p v : ℕ) (m : List (ℕ × ℕ)) → present p m ≡ false → lookup p (insert p v m) ≡ some v
unfolding lookup insert present
lookup-insert p v [] h = ground arith
lookup-insert p v ((q, w) ∷ m) h = ground (arith, lookup-insert p v m)

erase-insert : (p v : ℕ) (m : List (ℕ × ℕ)) → present p m ≡ false → erase p (insert p v m) ≡ m
unfolding erase insert present
erase-insert p v [] h = ground arith
erase-insert p v ((q, w) ∷ m) h = ground (arith, erase-insert p v m)

-- A process that is not throttled and whose share fits, throttled and released again with a round
-- after each call, and nothing pending: the throttler is back in its state.
pub drain-remove_throttling :
    (t : Throttler) (p v : ℕ)
    → present p t.values ≡ false
    → le_nat (add_nat t.sum v) full ≡ true
    → t.to_add ≡ []
    → t.to_remove ≡ []
    → drain (remove_throttling (drain (throttle t p v).0) p) ≡ t
unfolding throttle remove_throttling drain add_all add_process remove_all remove_process
    remove_found
drain-remove_throttling t p v fresh fits a b = ground (
  arith,
  fresh,
  fits,
  a,
  b,
  lookup-insert p v t.values fresh,
  erase-insert p v t.values fresh,
  sub_nat-add_nat t.sum v,
)
