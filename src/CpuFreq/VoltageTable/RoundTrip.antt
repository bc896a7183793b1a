-- ===== src/CpuFreq/VoltageTable/RoundTrip.antt =====
-- Loading a voltage table that was dumped.
use mammut.Common.{
  ℕ, ◌<◌, ◌^◌, ◌≡◌, refl, ap, ◌∙◌, arith, true, false, some, [], ◌∷◌, ◌++◌, All, ◌==◌, ok, Text,
}
use mathlib.Core.List.{append_assoc}
use mammut.Utils.Vectors.{contains}
use mammut.Utils.Strings.{split}
use mammut.Utils.Strings.Split.{join, LastNonempty, split-join}
use mammut.CpuFreq.VoltageTable.{
  Key, key_lt, VoltageTable, insert_entry, Formats, field_at, load_fields, load_line, load_loop,
  load_voltage_table, dump_entry, dump_entries, dump_voltage_table,
}

-- A text is a field of a line: it is not empty, does not begin with `#`, and has no semicolon.
abbrev pub IsField : Text → Type 0
IsField [] = ⊥
IsField (c ∷ t) = ((c == 35) ≡ false) × (contains (c ∷ t) 59 ≡ false)

-- Numbers below 2^31 are read as they were written.
pub record WritesUint {V : Type 0} (formats : Formats V) : Type 0 where
  pub field : (n : ℕ) → IsField (formats.write_uint n)
  pub read : (n : ℕ) → n < 2 ^ 31 → formats.string_to_int (formats.write_uint n) ≡ n

-- An entry whose numbers are read as they are written, and whose voltage is written as a field.
pub record Kept {V : Type 0} (formats : Formats V) (entry : Key × V) : Type 0 where
  pub cores : entry.0.0 < 2 ^ 31
  pub frequency : entry.0.1 < 2 ^ 31
  pub field : IsField (formats.write_double entry.1)

-- The table with each voltage as it is read after it was written with the digits of a stream.
abbrev pub read_back : {V : Type 0} → Formats V → VoltageTable V → VoltageTable V
read_back formats [] = []
read_back formats ((k, v) ∷ m) =
    (k, formats.string_to_double (formats.write_double v)) ∷ read_back formats m

-- The keys rise, above the given one.
abbrev pub Above : {V : Type 0} → Key → VoltageTable V → Type 0
Above k [] = Unit
Above k ((l, v) ∷ m) = (key_lt k l ≡ true) × Above l m

abbrev pub Rising : {V : Type 0} → VoltageTable V → Type 0
Rising [] = Unit
Rising ((k, v) ∷ m) = Above k m

key_lt_trans : (k l m : Key) → key_lt k l ≡ true → key_lt l m ≡ true → key_lt k m ≡ true
unfolding key_lt
key_lt_trans (a, b) (c, d) (e, f) h g = ground (arith, h, g)

key_lt_asym : (k l : Key) → key_lt k l ≡ true → key_lt l k ≡ false
unfolding key_lt
key_lt_asym (a, b) (c, d) h = ground (arith, h)

module _ {V : Type 0} where
  Below : VoltageTable V → Key → Type 0
  Below t k = All (λ e. key_lt e.0 k ≡ true) t

  insert_entry-Below :
      (t : VoltageTable V) (k : Key) (v : V) → Below t k → insert_entry k v t ≡ t ++ (k, v) ∷ []
  unfolding insert_entry Below
  insert_entry-Below [] k v below = refl
  insert_entry-Below ((l, w) ∷ t) k v (h, below) =
      rw (key_lt_asym l k h, h, insert_entry-Below t k v below) refl

  Below-next :
      (t : VoltageTable V) (k l : Key) (v : V)
      → Below t k
      → key_lt k l ≡ true
      → Below (t ++ (k, v) ∷ []) l
  unfolding Below
  Below-next [] k l v below h = (h, tt)
  Below-next ((m, w) ∷ t) k l v (b, below) h = (key_lt_trans m k l b h, Below-next t k l v below h)

  module _ (formats : Formats V) (writes : WritesUint formats) where
    load_line-field :
        (x rest : Text) (t : VoltageTable V)
        → IsField x
        → load_line formats (x ++ rest) t ≡ load_fields formats (split (x ++ rest) 59) t
    unfolding load_line
    load_line-field [] rest t f = elim f [ ]
    load_line-field (c ∷ x) rest t (h, free) = rw h refl

    IsField-free : (x : Text) → IsField x → contains x 59 ≡ false
    IsField-free [] f = elim f [ ]
    IsField-free (c ∷ x) (h, free) = free

    LastNonempty-field : (x y z : Text) → IsField z → LastNonempty (x ∷ y ∷ z ∷ [])
    unfolding LastNonempty
    LastNonempty-field x y [] f = elim f [ ]
    LastNonempty-field x y (c ∷ z) f = tt

    abbrev reread : V → V
    reread v = formats.string_to_double (formats.write_double v)

    load_line-dump_entry :
        (k : Key) (v : V) (t : VoltageTable V)
        → Kept formats (k, v)
        → load_line formats (dump_entry formats (k, v)) t
          ≡ ok (insert_entry k (formats.string_to_double (formats.write_double v)) t)
    unfolding dump_entry load_fields field_at join
    load_line-dump_entry (a, b) v t kept =
        let x = formats.write_uint a in
        let y = formats.write_uint b in
        let z = formats.write_double v in
        load_line-field x (59 ∷ (y ++ 59 ∷ z)) t (writes.field a)
        ∙ rw
            (split-join 59 (x ∷ y ∷ z ∷ [])
              (
                IsField-free x (writes.field a),
                (IsField-free y (writes.field b), (IsField-free z kept.field, tt)),
              )
              (LastNonempty-field x y z kept.field))
            (rw (writes.read a kept.cores, writes.read b kept.frequency) refl)

    load_loop-dump_entries :
        (k : Key) (v : V) (m t : VoltageTable V)
        → Below t k
        → Above k m
        → All (Kept formats) ((k, v) ∷ m)
        → load_loop formats (dump_entries formats ((k, v) ∷ m)) t
          ≡ ok (t ++ read_back formats ((k, v) ∷ m))
    unfolding load_loop dump_entries
    load_loop-dump_entries k v [] t below above (kept, all) =
        rw (load_line-dump_entry k v t kept, insert_entry-Below t k (reread v) below) refl
    load_loop-dump_entries k v ((l, w) ∷ m) t below (lt, above) (kept, all) =
        rw (load_line-dump_entry k v t kept, insert_entry-Below t k (reread v) below)
          (load_loop-dump_entries l w m (t ++ (k, reread v) ∷ [])
              (Below-next t k l (reread v) below lt) above all
            ∙ ap ok (append_assoc t ((k, reread v) ∷ []) (read_back formats ((l, w) ∷ m))))

    -- Where a `uint` below 2^31 is read as it is written, and is written without a semicolon and
    -- without a `#` at its front, loading the lines that dumpVoltageTable writes gives the numbers and
    -- frequencies of the table, each with its voltage as it reads after it was written, for a table in
    -- the order of its keys whose numbers are below 2^31 and whose voltages are written as fields.
    pub load-dump_voltage_table :
        (table : VoltageTable V)
        → Rising table
        → All (Kept formats) table
        → load_voltage_table formats (some (dump_voltage_table formats table))
          ≡ ok (read_back formats table)
    unfolding load_voltage_table dump_voltage_table load_loop load_line dump_entries Below
    load-dump_voltage_table [] rising kept = refl
    load-dump_voltage_table ((k, v) ∷ m) rising kept =
        load_loop-dump_entries k v m [] tt rising kept
