-- ===== src/Utils/Strings/Names.antt =====
-- The names of messages, mammut.<module>.<type>.
use mammut.Common.{
  ℕ, ◌≡◌, refl, ◌⊎◌, true, false, List, [], ◌∷◌, ◌++◌, All, Bool-cases, inl, inr, ok, ok-injective,
  Text, codes, text_eq, text_eq_iff,
}
use mammut.Utils.Vectors.{contains}
use mammut.Utils.Strings.{split, named, get_module_name_from_message_id}
use mammut.Utils.Strings.Split.{join, LastNonempty, split-join, join-split}

-- The name of a message of a module.
pub message_name : Text → Text → Text
message_name module_name type_name = join 46 (codes "mammut" ∷ module_name ∷ type_name ∷ [])

text_eq_refl : (s : Text) → text_eq s s ≡ true
text_eq_refl s = (text_eq_iff s s).1 refl

named-ok :
    (ts : List Text) (m : Text) → named ts ≡ ok m → (r : Text) × (ts ≡ codes "mammut" ∷ m ∷ r ∷ [])
unfolding named
named-ok [] m e = cc
named-ok (a ∷ []) m e = cc
named-ok (a ∷ b ∷ []) m e = cc
named-ok (a ∷ b ∷ c ∷ d ∷ ts) m e = cc
named-ok (a ∷ b ∷ c ∷ []) m e = elim (Bool-cases (text_eq a (codes "mammut"))) [
  | inl h ↦ (c, rw (ok-injective (rw h at e), (text_eq_iff a (codes "mammut")).0 h) refl)
  | inr h ↦ let q = rw h at e in cc
]

-- The module is read from a name whose parts hold no dot and whose type is not empty.
pub get_module_name-message_name :
    (m : Text) (c : ℕ) (t : Text)
    → contains m 46 ≡ false
    → contains (c ∷ t) 46 ≡ false
    → get_module_name_from_message_id (message_name m (c ∷ t)) ≡ ok m
unfolding get_module_name_from_message_id message_name named contains LastNonempty text_eq
get_module_name-message_name m c t h1 h2 =
    rw (split-join 46 (codes "mammut" ∷ m ∷ (c ∷ t) ∷ []) (refl, (h1, (h2, tt))) tt) refl

-- A name from which a module is read is that of a message of this module, or has one more dot at
-- its end, and the module's name holds no dot.
pub message_name-get_module_name :
    (message_id m : Text)
    → get_module_name_from_message_id message_id ≡ ok m
    → (t : Text) × (contains m 46 ≡ false)
      × ((message_name m t ≡ message_id) ⊎ (message_name m t ++ 46 ∷ [] ≡ message_id))
unfolding get_module_name_from_message_id message_name
message_name-get_module_name id m e =
    let (t, q) = named-ok (split id 46) m e in
    let (free, joined) = join-split 46 id in (t, second t q free, rw q at joined)
  where
    second :
        (t : Text)
        → split id 46 ≡ codes "mammut" ∷ m ∷ t ∷ []
        → All (λ x. contains x 46 ≡ false) (split id 46)
        → contains m 46 ≡ false
    second t q free = let (h, (h', more)) = rw q at free in h'
