-- ===== src/Topology/ProcFiles/Laws.antt =====
-- Which lines of /proc/stat and of /proc/cpuinfo the answers come from.
use mammut.Common.{
  ℕ, ◌≡◌, ◌==◌, Option-cases, refl, inl, inr, Bool, true, false, Bool-cases, Option, some, none,
  List, [], ◌∷◌, ◌++◌, All, Result-cases, ok, ◌>>=◌, Text, codes, starts_with, find_text, arith,
}
use mammut.Common.Int.{ℤ}
use mammut.Topology.ProcFiles.{
  Doubles, occurs, find_condition, stat_field, stat_loop, get_proc_stat_time, flag_loop, has_flag,
}

-- No line has the text in it.
abbrev pub Without : Text → List Text → Type 0
Without t = All (λ line. occurs line t ≡ false)

module _ (string_to_int : Text → ℤ) (type : ℕ) (name : Text) where
  stat_loop-Without :
      (lines : List Text) (field : Option ℤ)
      → Without name lines
      → stat_loop string_to_int type name lines field ≡ ok field
  unfolding stat_loop
  stat_loop-Without [] field w = refl
  stat_loop-Without (line ∷ lines) field (h, w) = rw h (stat_loop-Without lines field w)

  -- Each of the lines with the name has the field.
  abbrev pub Full : List Text → Type 0
  Full = All (λ line. (n : ℤ) × (stat_field string_to_int type line ≡ ok n))

  stat_loop-last :
      (before : List Text) (line : Text) (after : List Text) (field : Option ℤ)
      → Full before
      → occurs line name ≡ true
      → Without name after
      → stat_loop string_to_int type name (before ++ line ∷ after) field
        ≡ (stat_field string_to_int type line >>= λ n. ok (some n))
  unfolding stat_loop
  stat_loop-last [] line after field full h w =
      elim (Result-cases (stat_field string_to_int type line)) [
        | inl (x, e) ↦ rw (h, e) refl
        | inr (n, e) ↦ rw (h, e) (stat_loop-Without after (some n) w)
      ]
  stat_loop-last (l ∷ before) line after field ((n, e), full) h w =
      elim (Bool-cases (occurs l name)) [
        | inl o ↦ rw (o, e) (stat_loop-last before line after (some n) full h w)
        | inr o ↦ rw o (stat_loop-last before line after field full h w)
      ]

-- Where the lines before it have the field, getProcStatTime answers with the field of the last line
-- in which `cpu` and the number of the core occur, be the line that of this core or of another.
pub get_proc_stat_time-last :
    (doubles : Doubles) (string_to_int : Text → ℤ) (int_to_string : ℕ → Text) (core type : ℕ)
    (before : List Text) (line : Text) (after : List Text)
    → Full string_to_int type (codes "cpu" ++ int_to_string core) before
    → occurs line (codes "cpu" ++ int_to_string core) ≡ true
    → Without (codes "cpu" ++ int_to_string core) after
    → get_proc_stat_time doubles string_to_int int_to_string (before ++ line ∷ after) core type
      ≡ (stat_field string_to_int type line >>= λ n. ok (doubles.microseconds n))
unfolding get_proc_stat_time
get_proc_stat_time-last doubles string_to_int int_to_string core type before line after full h w =
    elim (Result-cases (stat_field string_to_int type line)) [
      | inl (x, e) ↦
          rw (stat_loop-last string_to_int type _ before line after none full h w, e) refl
      | inr (n, e) ↦
          rw (stat_loop-last string_to_int type _ before line after none full h w, e) refl
    ]

processor-find_condition :
    (line id : Text)
    → starts_with line (codes "processor") ≡ true
    → find_condition line (32 ∷ id) ≡ true
unfolding find_condition find_text starts_with
processor-find_condition [] id h = cc
processor-find_condition (c ∷ line) id h =
    let no_space : (c == 32) ≡ false = ground (arith, h) in
    elim (Option-cases (find_text line (32 ∷ id))) [
      | inl e ↦ rw (find_condition, no_space, e) (ground arith)
      | inr (i, e) ↦ rw (find_condition, no_space, e) (ground arith)
    ]

flag_loop-any :
    (id id' flag_name : Text) (lines : List Text) (proc_found : Bool)
    → flag_loop id flag_name lines proc_found ≡ flag_loop id' flag_name lines proc_found
unfolding flag_loop
flag_loop-any id id' flag_name [] proc_found = refl
flag_loop-any id id' flag_name (line ∷ lines) true =
    rw (flag_loop-any id id' flag_name lines true) refl
flag_loop-any id id' flag_name (line ∷ lines) false =
    elim (Bool-cases (starts_with line (codes "processor"))) [
      | inl h ↦
          rw (h, processor-find_condition line id h, processor-find_condition line id' h)
            (flag_loop-any id id' flag_name lines true)
      | inr h ↦ rw h (flag_loop-any id id' flag_name lines false)
    ]

-- hasFlag answers the same for all the virtual cores: the number of the core is looked for with
-- `find` as a condition, which holds at every line that begins with `processor`.
pub has_flag-any :
    (int_to_string : ℕ → Text) (file : Option (List Text)) (core core' : ℕ) (flag_name : Text)
    → has_flag int_to_string file core flag_name ≡ has_flag int_to_string file core' flag_name
unfolding has_flag
has_flag-any int_to_string none core core' flag_name = refl
has_flag-any int_to_string (some lines) core core' flag_name =
    flag_loop-any (int_to_string core) (int_to_string core') flag_name lines false
