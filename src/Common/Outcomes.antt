-- ===== src/Common/Outcomes.antt =====
-- The result of code that may throw: a value, or the exception's message as a constructor.
use mathlib.Core.Path.{◌≡◌, refl, ap}
use mathlib.Core.Logic.{◌⊎◌, inl, inr}
use mathlib.Core.Option.{Option, none, some}

-- What the modelled code throws (`std::runtime_error` unless the constructor says otherwise).
pub data Error : Type 0 where
  registers_not_present : Error
  invalid_counter : Error
  out_of_range : Error
  no_domain : Error
  write_failed : Error
  open_failed : Error
  rollback_governor : Error
  rollback_frequency : Error
  rollback_bounds : Error
  wrong_modulation : Error
  truncated_receive : Error
  connection_closed : Error
  remote_exception : Error
  message_mismatch : Error
  unparsable : Error
  write_short : Error
  read_failed : Error
  bad_percentage : Error
  exceeds_percentage : Error
  self_throttling : Error
  wrong_message_id : Error
  not_activated : Error
  processing_failed : Error
  unsupported_remote : Error
  no_unit : Error
  no_levels : Error
  already_started : Error
  uninitialised : Error  -- no exception: memory that was never written is used, or an index is out of range

pub data Result {ℓ} (A : Type ℓ) : Type ℓ where
  throw : Error → Result A
  ok : A → Result A

-- An exception skips what comes after it.
infixl 5 ◌>>=◌
abbrev pub ◌>>=◌ {κ ℓ} : {B : Type κ} {A : Type ℓ} → Result B → (B → Result A) → Result A
throw error >>= after = throw error
ok value >>= after = after value

abbrev pub or_throw {ℓ} : {A : Type ℓ} → Error → Option A → Result A
or_throw e none = throw e
or_throw e (some a) = ok a

pub Result-cases {ℓ} :
    {A : Type ℓ} (r : Result A) → ((e : Error) × (r ≡ throw e)) ⊎ ((a : A) × (r ≡ ok a))
Result-cases (ok a) = inr (a, refl)
Result-cases (throw e) = inl (e, refl)

pub ok-injective {ℓ} : {A : Type ℓ} {a b : A} → ok a ≡ ok b → a ≡ b
ok-injective {a = a} e = ap (value a) e
  where
    value : {A : Type ℓ} → A → Result A → A
    value d (ok a) = a
    value d (throw e) = d

-- What a call that returned is made of.
pub >>=-eq-ok {κ ℓ} :
    {B : Type κ} {A : Type ℓ} (r : Result B) (after : B → Result A) {a : A}
    → (r >>= after) ≡ ok a
    → (b : B) × (r ≡ ok b) × (after b ≡ ok a)
>>=-eq-ok (throw error) after h = cc
>>=-eq-ok (ok value) after h = (value, refl, h)
