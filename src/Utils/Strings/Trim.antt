-- ===== src/Utils/Strings/Trim.antt =====
-- Trimming a string.
mod Examples
use mammut.Common.{
  ℕ, ◌≡◌, refl, sym, ap, ◌∙◌, inl, inr, Bool, true, false, ◌&&◌, List, [], ◌∷◌, ◌++◌, Bool-cases,
  if◌then◌else◌, Text, arith,
}
use mathlib.Core.List.{append_assoc, append-nil}
use mammut.Utils.Strings.{isspace, ltrim, keep, rtrim, trim}

pub all_spaces : Text → Bool
all_spaces [] = true
all_spaces (c ∷ s) = isspace c && all_spaces s

pub first_is_space : Text → Bool
first_is_space [] = false
first_is_space (c ∷ s) = isspace c

pub last_is_space : Text → Bool
last_is_space [] = false
last_is_space (c ∷ []) = isspace c
last_is_space (c ∷ d ∷ s) = last_is_space (d ∷ s)

ltrim-lem :
    (s : Text)
    → (a : Text) × (all_spaces a ≡ true) × (a ++ ltrim s ≡ s) × (first_is_space (ltrim s) ≡ false)
unfolding ltrim all_spaces first_is_space
ltrim-lem [] = ([], refl, refl, refl)
ltrim-lem (c ∷ s) = elim (Bool-cases (isspace c)) [
  | inl h ↦ let (a, p, e, f) = ltrim-lem s in (c ∷ a, rw h p, rw h (ap (◌∷◌ c) e), rw h f)
  | inr h ↦ ([], refl, rw h refl, rw h h)
]

last-ltrim : (s : Text) → last_is_space s ≡ false → last_is_space (ltrim s) ≡ false
unfolding ltrim last_is_space
last-ltrim [] h = refl
last-ltrim (c ∷ []) h = rw h h
last-ltrim (c ∷ d ∷ s) h = elim (Bool-cases (isspace c)) [
  | inl q ↦ rw q (last-ltrim (d ∷ s) h)
  | inr q ↦ rw q h
]

keep-lem :
    (c : ℕ) (s : Text)
    → last_is_space s ≡ false
    → (b : Text) × (all_spaces b ≡ true)
      × (keep c s ++ b ≡ c ∷ s)
      × (last_is_space (keep c s) ≡ false)
unfolding keep all_spaces last_is_space
keep-lem c (d ∷ s) h = ([], refl, rw (append-nil s) refl, h)
keep-lem c [] h = elim (Bool-cases (isspace c)) [
  | inl q ↦ (c ∷ [], rw q refl, rw q refl, rw q refl)
  | inr q ↦ ([], refl, rw q refl, rw q q)
]

all_spaces-append :
    (a b : Text) → all_spaces a ≡ true → all_spaces b ≡ true → all_spaces (a ++ b) ≡ true
unfolding all_spaces
all_spaces-append [] b h k = k
all_spaces-append (c ∷ a) b h k = ground (arith, all_spaces-append a b (ground arith) k)

rtrim-lem :
    (s : Text)
    → (b : Text) × (all_spaces b ≡ true) × (rtrim s ++ b ≡ s) × (last_is_space (rtrim s) ≡ false)
unfolding rtrim all_spaces last_is_space
rtrim-lem [] = ([], refl, refl, refl)
rtrim-lem (c ∷ s) =
    let (b, p, e, l) = rtrim-lem s in
    let (b', p', e', l') = keep-lem c (rtrim s) l in
    (
      b' ++ b,
      all_spaces-append b' b p' p,
      sym (append_assoc (keep c (rtrim s)) b' b) ∙ (ap (λ x. x ++ b) e' ∙ ap (◌∷◌ c) e),
      l',
    )

-- A trimmed string is the string without some white space before it and after it, and neither
-- begins nor ends with white space.
pub trim-lem :
    (s : Text)
    → (a b : Text) × (all_spaces a ≡ true)
      × (all_spaces b ≡ true)
      × (a ++ trim s ++ b ≡ s)
      × (first_is_space (trim s) ≡ false)
      × (last_is_space (trim s) ≡ false)
unfolding trim
trim-lem s =
    let (b, p, e, l) = rtrim-lem s in
    let (a, q, f, first) = ltrim-lem (rtrim s) in
    (a, b, q, p, ap (λ x. x ++ b) f ∙ e, first, last-ltrim (rtrim s) l)
