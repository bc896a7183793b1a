-- ===== src/Topology/Coordinates/Unique.antt =====
-- The ids that the constructor gives to physical cores are unique.
use mammut.Common.{
  ℕ, zero, suc, ◌≤◌, ◌<◌, ◌≡◌, ◌↔◌, refl, sym, ap, ap₂, subst, ◌∙◌, inl, inr, true, ◌&&◌, Option,
  some, none, List, [], ◌∷◌, get_elem?, ◌==◌, arith, Bool-cases,
}
use mathlib.Core.Option.{some-injective}
use mammut.Topology.Coordinates.{VirtualCoreCoordinates, Entry, find, place, coordinates}

-- Every id of the map is below `next_id`, and the entries before another have other ids.
abbrev Below : ℕ → List Entry → Type 0
Below n [] = Unit {0}
Below n (e ∷ es) = (e.unique_id < n) × Below e.unique_id es

find-Below : (p c n id : ℕ) (es : List Entry) → Below n es → find p c es ≡ some id → id < n
unfolding find
find-Below p c n id [] b h = cc
find-Below p c n id (e ∷ es) (lt, b) h = ground (arith, find-Below p c e.unique_id id es b)

find-injective :
    (p c p' c' n id : ℕ) (es : List Entry)
    → Below n es
    → find p c es ≡ some id
    → find p' c' es ≡ some id
    → (p ≡ p') × (c ≡ c')
unfolding find
find-injective p c p' c' n id [] b h h' = cc
find-injective p c p' c' n id (e ∷ es) (lt, b) h h' = ground (
  arith,
  find-injective p c p' c' e.unique_id id es b,
  find-Below p c e.unique_id id es b,
  find-Below p' c' e.unique_id id es b,
)

-- The map at the end of the loop, and the next id.
final : List VirtualCoreCoordinates → List Entry → ℕ → List Entry × ℕ
final [] seen next_id = (seen, next_id)
final (vcc ∷ vccs) seen next_id =
    let (placed, seen', next_id') =
      place vcc (find vcc.cpu_id vcc.physical_core_id seen) seen next_id in
    final vccs seen' next_id'

Below-suc : (n m : ℕ) (es : List Entry) → n ≤ m → Below n es → Below m es
Below-suc n m [] le b = tt
Below-suc n m (e ∷ es) le (lt, b) = (omega arith, b)

-- A new pair in front of a map that lacks it hides no other.
find-new :
    (vcc : VirtualCoreCoordinates) (p c n id : ℕ) (seen : List Entry)
    → find vcc.cpu_id vcc.physical_core_id seen ≡ none
    → find p c seen ≡ some id
    → find p c
        (record { package_id = vcc.cpu_id; core_id = vcc.physical_core_id; unique_id = n } ∷ seen)
      ≡ some id
unfolding find
find-new vcc p c n id seen e h = elim (Bool-cases (vcc.cpu_id == p && vcc.physical_core_id == c)) [
  | inl same ↦ clash (ap₂ (λ (a b : ℕ). find a b seen) (sym (left same)) (sym (right same)) ∙ e)
  | inr other ↦ rw other h
]
  where
    left : vcc.cpu_id == p && vcc.physical_core_id == c ≡ true → vcc.cpu_id ≡ p
    left same = ground arith

    right : vcc.cpu_id == p && vcc.physical_core_id == c ≡ true → vcc.physical_core_id ≡ c
    right same = ground arith

    clash : {A : Type 0} → find p c seen ≡ none → A
    clash absent = cc

-- What one round does, whatever `find` answers.
record Round (vcc placed : VirtualCoreCoordinates) (seen seen' : List Entry) (n n' : ℕ)
    : Type 0 where
  below : Below n seen → Below n' seen'
  keeps : (p c id : ℕ) → find p c seen ≡ some id → find p c seen' ≡ some id
  here : find vcc.cpu_id vcc.physical_core_id seen' ≡ some placed.physical_core_id
  cpu : placed.cpu_id ≡ vcc.cpu_id
  virtual : placed.virtual_core_id ≡ vcc.virtual_core_id

find-here :
    (vcc : VirtualCoreCoordinates) (n : ℕ) (seen : List Entry)
    → find vcc.cpu_id vcc.physical_core_id
        (record { package_id = vcc.cpu_id; core_id = vcc.physical_core_id; unique_id = n } ∷ seen)
      ≡ some n
unfolding find
find-here vcc n seen = ground arith

place-Round :
    (o : Option ℕ) (vcc : VirtualCoreCoordinates) (seen : List Entry) (n : ℕ)
    → find vcc.cpu_id vcc.physical_core_id seen ≡ o
    → Round vcc (place vcc o seen n).0 seen (place vcc o seen n).1 n (place vcc o seen n).2
unfolding place
place-Round none vcc seen n e = record {
  below = λ b. (omega arith, b);
  keeps = λ p c id h. find-new vcc p c n id seen e h;
  here = find-here vcc n seen;
  cpu = refl;
  virtual = refl;
}
place-Round (some id) vcc seen n e = record {
  below = λ b. b;
  keeps = λ p c i h. h;
  here = e;
  cpu = refl;
  virtual = refl;
}

round :
    (vcc : VirtualCoreCoordinates) (seen : List Entry) (n : ℕ)
    → let r = place vcc (find vcc.cpu_id vcc.physical_core_id seen) seen n in
      Round vcc r.0 seen r.1 n r.2
round vcc seen n = place-Round (find vcc.cpu_id vcc.physical_core_id seen) vcc seen n refl

final-Below :
    (vccs : List VirtualCoreCoordinates) (seen : List Entry) (n : ℕ)
    → Below n seen
    → Below (final vccs seen n).1 (final vccs seen n).0
unfolding final
final-Below [] seen n b = b
final-Below (vcc ∷ vccs) seen n b = final-Below vccs _ _ ((round vcc seen n).below b)

find-final :
    (vccs : List VirtualCoreCoordinates) (p c n id : ℕ) (seen : List Entry)
    → find p c seen ≡ some id
    → find p c (final vccs seen n).0 ≡ some id
unfolding final
find-final [] p c n id seen h = h
find-final (vcc ∷ vccs) p c n id seen h =
    find-final vccs p c _ id _ ((round vcc seen n).keeps p c id h)

-- Each core of the result has the id of its pair in the final map.
record Placed (end : List Entry) (vcc placed : VirtualCoreCoordinates) : Type 0 where
  id : find vcc.cpu_id vcc.physical_core_id end ≡ some placed.physical_core_id
  cpu : placed.cpu_id ≡ vcc.cpu_id
  virtual : placed.virtual_core_id ≡ vcc.virtual_core_id

coordinates-Placed :
    (vccs : List VirtualCoreCoordinates) (seen : List Entry) (n i : ℕ)
    (vcc placed : VirtualCoreCoordinates)
    → get_elem? vccs i ≡ some vcc
    → get_elem? (coordinates vccs seen n) i ≡ some placed
    → Placed (final vccs seen n).0 vcc placed
unfolding coordinates final
coordinates-Placed [] seen n i vcc placed at there = cc
coordinates-Placed (v ∷ vccs) seen n zero vcc placed at there =
    let r = round v seen n in
    subst (λ w. Placed (final (v ∷ vccs) seen n).0 w placed) (some-injective _ _ at)
      (subst (λ w. Placed (final (v ∷ vccs) seen n).0 v w) (some-injective _ _ there)
        (record {
          id = find-final vccs v.cpu_id v.physical_core_id _ _ _ r.here;
          cpu = r.cpu;
          virtual = r.virtual;
        }))
coordinates-Placed (v ∷ vccs) seen n (suc i) vcc placed at there =
    coordinates-Placed vccs _ _ i vcc placed at there

-- The coordinates of two virtual cores, as the files give them and as the constructor has them:
-- package and virtual core id are kept, and the ids of the physical cores are the same exactly when
-- the package and the core id of the files are.
pub coordinates_unique :
    (vccs : List VirtualCoreCoordinates) (i j : ℕ) (x y x' y' : VirtualCoreCoordinates)
    → get_elem? vccs i ≡ some x
    → get_elem? vccs j ≡ some y
    → get_elem? (coordinates vccs [] 0) i ≡ some x'
    → get_elem? (coordinates vccs [] 0) j ≡ some y'
    → (x'.cpu_id ≡ x.cpu_id)
      × (x'.virtual_core_id ≡ x.virtual_core_id)
      × ((x'.physical_core_id ≡ y'.physical_core_id)
          ↔ ((x.cpu_id ≡ y.cpu_id) × (x.physical_core_id ≡ y.physical_core_id)))
coordinates_unique vccs i j x y x' y' at_x at_y at_x' at_y' =
    let p = coordinates-Placed vccs [] 0 i x x' at_x at_x' in
    let q = coordinates-Placed vccs [] 0 j y y' at_y at_y' in
    (
      p.cpu,
      p.virtual,
      (
        (λ e.
            find-injective x.cpu_id x.physical_core_id y.cpu_id y.physical_core_id _ _ _
              (final-Below vccs [] 0 tt) p.id (q.id ∙ ap some (sym e))),
        (λ e.
            some-injective _ _
              (sym p.id ∙ ap₂ (λ (a b : ℕ). find a b (final vccs [] 0).0) e.0 e.1 ∙ q.id)),
      ),
    )
