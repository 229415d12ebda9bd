-- ===== src/Frontend/Wire/Strings.antt =====
-- The string table: an id names its text, texts are stored once, and the records describe the bytes.
use luauc.Prelude.{
  ℕ, zero, suc, ◌+◌, ◌*◌, ◌%◌, ◌^◌, ◌≤◌, ◌<◌, ◌≡◌, ◌≢◌, ◌⊎◌, inl, inr, refl, sym, ap, ◌∙◌, true,
  false, Option, none, some, List, [], ◌∷◌, ◌++◌, arith, length, get_or, get_elem?, replicate,
  Option-cases, Bool-cases, length-append, get_elem?-snoc, get_elem?-lt, get_elem?-append_left,
  get_elem?-append_end, get_or-append_left, get_or-append_right,
}
use luauc.Prelude.Words.{no_id, uint32_max}
use luauc.Frontend.Wire.{
  append_record, append_bytes, put_u32, put_u64, StringTable, same_bytes, find_value, add_value,
  intern, at_limit, max_strings, max_snapshot_bytes,
}
use native.Mathlib.Nat.{add-zero, zero-add}
use luauc.Frontend.Wire.Bytes.{
  SameOutside, SameOutside-trans, SameOutside-widen, put_u32-SameOutside, put_u64-SameOutside,
  read_le, read_le-SameOutside, read_le-append, read_le-put_u32, read_le-put_u64,
}

pub same_bytes→eq : (a b : List ℕ) → same_bytes a b ≡ true → a ≡ b
unfolding same_bytes
same_bytes→eq [] [] h = refl
same_bytes→eq [] (y ∷ b) h = cc
same_bytes→eq (x ∷ a) [] h = cc
same_bytes→eq (x ∷ a) (y ∷ b) h = ground (arith, same_bytes→eq a b)

pub same_bytes_refl : (a : List ℕ) → same_bytes a a ≡ true
unfolding same_bytes
same_bytes_refl [] = refl
same_bytes_refl (x ∷ a) = ground (arith, same_bytes_refl a)

-- The index found is that of an equal value.
find_value-some :
    (values : List (List ℕ)) (start : ℕ) (text : List ℕ) (i : ℕ)
    → find_value start values text ≡ some i
    → (k : ℕ) × (i ≡ start + k) × (get_elem? values k ≡ some text)
unfolding find_value
find_value-some [] start text i h = cc
find_value-some (v ∷ vs) start text i h = elim (Bool-cases (same_bytes v text)) [
  | inl e ↦ (0, ground arith, ap some (same_bytes→eq v text e))
  | inr e ↦
      let (k, p, q) = find_value-some vs (start + 1) text i (rw e at h) in (suc k, omega arith, q)
]

find_value-none :
    (values : List (List ℕ)) (start : ℕ) (text : List ℕ) (i : ℕ)
    → find_value start values text ≡ none
    → get_elem? values i ≢ some text
unfolding find_value
find_value-none [] start text i h = λ e. cc
find_value-none (v ∷ vs) start text zero h = λ e. ground (arith, same_bytes_refl text)
find_value-none (v ∷ vs) start text (suc i) h = elim (Bool-cases (same_bytes v text)) [
  | inl e ↦ absurd (cc (rw e at h))
  | inr e ↦ find_value-none vs (start + 1) text i (rw e at h)
]

find_value_end :
    (values : List (List ℕ)) (start : ℕ) (text : List ℕ)
    → find_value start values text ≡ none
    → find_value start (values ++ (text ∷ [])) text ≡ some (start + length values)
unfolding find_value
find_value_end [] start text h = rw (same_bytes_refl text) (ap some (omega arith))
find_value_end (v ∷ vs) start text h = elim (Bool-cases (same_bytes v text)) [
  | inl e ↦ absurd (cc (rw e at h))
  | inr e ↦ rw e (find_value_end vs (start + 1) text (rw e at h) ∙ ap some (omega arith))
]

-- Record `i` of the table gives the place and the length of `value` in the string bytes.
pub record Describes (records bytes : List ℕ) (i : ℕ) (value : List ℕ) : Type 0 where
  pub length_word : read_le 4 records (16 * i + 8) ≡ length value
  pub fits : read_le 8 records (16 * i) + length value ≤ length bytes
  pub stored :
      (j : ℕ)
      → j < length value
      → get_or bytes (read_le 8 records (16 * i) + j) 0 ≡ get_or value j 0

pub record IsCoherent (table : StringTable) : Type 0 where
  pub few : length table.values ≤ max_strings
  pub small : length table.bytes.bytes ≤ max_snapshot_bytes
  pub record_width : table.records.record_size ≡ 16
  pub record_bytes : length table.records.bytes ≡ 16 * length table.values
  pub described :
      (i : ℕ) (value : List ℕ)
      → get_elem? table.values i ≡ some value
      → Describes table.records.bytes table.bytes.bytes i value
  pub distinct :
      (i j : ℕ) (value : List ℕ)
      → get_elem? table.values i ≡ some value
      → get_elem? table.values j ≡ some value
      → i ≡ j

-- The bytes of the records after one more entry, for a table of `n` bytes of records.
module _ (rb : List ℕ) (off len : ℕ) where
  blank : List ℕ
  blank = rb ++ replicate 16 0

  written : List ℕ
  unfolding blank
  written = put_u32 (put_u64 blank (length rb + 0) off) (length rb + 8) len

  length-blank : length blank ≡ length rb + 16
  unfolding blank
  length-blank = length-append rb (replicate 16 0)

  written-SameOutside : SameOutside (length rb) (length rb + 16) blank written
  unfolding written
  written-SameOutside =
      SameOutside-trans
        (SameOutside-widen (length rb + 0) (length rb + 0 + 8) (length rb) (length rb + 16)
          (omega arith) (omega arith) (put_u64-SameOutside blank (length rb + 0) off))
        (SameOutside-widen (length rb + 8) (length rb + 8 + 4) (length rb) (length rb + 16)
          (omega arith) (omega arith) (put_u32-SameOutside _ (length rb + 8) len))

  length-written : length written ≡ length rb + 16
  length-written = written-SameOutside.same_length ∙ length-blank

  read-written_old : (n at : ℕ) → at + n ≤ length rb → read_le n written at ≡ read_le n rb at
  unfolding blank
  read-written_old n at h =
      read_le-SameOutside n at (inl h) written-SameOutside
      ∙ read_le-append n rb (replicate 16 0) at h

  read-written-length : len < 2 ^ 32 → read_le 4 written (length rb + 8) ≡ len
  unfolding written
  read-written-length h =
      read_le-put_u32 _ (length rb + 8) len
        (omega (arith, (put_u64-SameOutside blank (length rb + 0) off).same_length, length-blank)) h

  read-written_offset : off < 2 ^ 64 → read_le 8 written (length rb) ≡ off
  unfolding written
  read-written_offset h =
      read_le-SameOutside 8 (length rb) (inl (omega arith))
        (put_u32-SameOutside (put_u64 blank (length rb + 0) off) (length rb + 8) len)
      ∙ ap (read_le 8 (put_u64 blank (length rb + 0) off)) (sym (add-zero (length rb)))
      ∙ read_le-put_u64 blank (length rb + 0) off (omega (arith, length-blank)) h

-- A table that does not hold `text` and has room for it.
module _ (table : StringTable) (text : List ℕ) (coherent : IsCoherent table)
    (absent : find_value 0 table.values text ≡ none) (room : length table.values < max_strings)
    (short : length text ≤ uint32_max)
    (fits : length table.bytes.bytes + length text ≤ max_snapshot_bytes) where
  added : StringTable
  added = (add_value table text).0

  added-records :
      added.records.bytes ≡ written table.records.bytes (length table.bytes.bytes) (length text)
  unfolding added add_value append_record written blank
  added-records =
      let width : length text % 2 ^ 32 ≡ length text = omega arith in
      rw (coherent.record_width, width)

  described_old :
      (i : ℕ) (value : List ℕ)
      → get_elem? table.values i ≡ some value
      → Describes added.records.bytes added.bytes.bytes i value
  unfolding added add_value append_bytes
  described_old i value e =
      let d = coherent.described i value e in
      let below : i < length table.values = get_elem?-lt table.values i e in
      let at_length =
        read-written_old table.records.bytes (length table.bytes.bytes) (length text) 4 (16 * i + 8)
          (omega (arith, coherent.record_bytes)) in
      let at_offset =
        read-written_old table.records.bytes (length table.bytes.bytes) (length text) 8 (16 * i)
          (omega (arith, coherent.record_bytes)) in
      rw added-records (record {
        length_word = at_length ∙ d.length_word;
        fits = omega (arith, at_offset, d.fits, length-append table.bytes.bytes text);
        stored = λ j h. rw at_offset (
            get_or-append_left table.bytes.bytes text (read_le 8 table.records.bytes (16 * i) + j) 0
              (omega (arith, d.fits))
            ∙ d.stored j h);
      })

  described_new : Describes added.records.bytes added.bytes.bytes (length table.values) text
  unfolding added add_value append_bytes
  described_new =
      let rb = table.records.bytes in
      let sb = length table.bytes.bytes in
      let at_length =
        rw coherent.record_bytes at (read-written-length rb sb (length text) (omega arith)) in
      let at_offset =
        rw coherent.record_bytes at
          (read-written_offset rb sb (length text) (omega (arith, coherent.small))) in
      rw added-records (record {
        length_word = at_length;
        fits = omega (arith, at_offset, length-append table.bytes.bytes text);
        stored = λ j h. rw at_offset (get_or-append_right table.bytes.bytes text j 0);
      })

  new_distinct :
      (i j : ℕ) (value : List ℕ)
      → get_elem? (table.values ++ (text ∷ [])) i ≡ some value
      → get_elem? (table.values ++ (text ∷ [])) j ≡ some value
      → i ≡ j
  new_distinct i j value p q =
      both (get_elem?-snoc table.values text i p) (get_elem?-snoc table.values text j q)
    where
      both :
          ((i < length table.values) × (get_elem? table.values i ≡ some value))
            ⊎ ((i ≡ length table.values) × (value ≡ text))
          → ((j < length table.values) × (get_elem? table.values j ≡ some value))
            ⊎ ((j ≡ length table.values) × (value ≡ text))
          → i ≡ j
      both (inl (_, a)) (inl (_, b)) = coherent.distinct i j value a b
      both (inl (_, a)) (inr (_, e)) =
          absurd (find_value-none table.values 0 text i absent (rw e at a))
      both (inr (_, e)) (inl (_, b)) =
          absurd (find_value-none table.values 0 text j absent (rw e at b))
      both (inr (a, _)) (inr (b, _)) = a ∙ sym b

  added-IsCoherent : IsCoherent added
  unfolding added add_value append_bytes append_record
  added-IsCoherent = record {
    few = omega (arith, length-append table.values (text ∷ []));
    small = omega (arith, length-append table.bytes.bytes text);
    record_width = coherent.record_width;
    record_bytes = omega (
      arith,
      ap length added-records,
      length-written table.records.bytes (length table.bytes.bytes) (length text),
      coherent.record_bytes,
      length-append table.values (text ∷ []),
    );
    described = λ i value e. elim (get_elem?-snoc table.values text i e) [
      | inl (_, a) ↦ described_old i value a
      | inr (a, b) ↦ rw (a, b) described_new
    ];
    distinct = new_distinct;
  }

-- The three ways that interning a text ends.
data Interned (table : StringTable) (text : List ℕ) : Type 0 where
  found :
      (k : ℕ)
      → get_elem? table.values k ≡ some text
      → intern table (some text) ≡ (table, k % 2 ^ 32)
      → Interned table text
  full :
      find_value 0 table.values text ≡ none
      → at_limit table text ≡ true
      → intern table (some text) ≡ (record table { failed = true }, no_id)
      → Interned table text
  fresh :
      find_value 0 table.values text ≡ none
      → at_limit table text ≡ false
      → intern table (some text) ≡ add_value table text
      → Interned table text

interned : (table : StringTable) (text : List ℕ) → Interned table text
unfolding intern
interned table text = elim (Option-cases (find_value 0 table.values text)) [
  | inr (i, e) ↦
      let (k, p, q) = find_value-some table.values 0 text i e in
      let same : i ≡ k = omega arith in found k q (rw (e, intern) (rw same))
  | inl e ↦ elim (Bool-cases (at_limit table text)) [
    | inl h ↦ full e h (rw (e, intern) (rw h))
    | inr h ↦ fresh e h (rw (e, intern) (rw h))
  ]
]

module _ (table : StringTable) (text : List ℕ) (h : at_limit table text ≡ false) where
  room_strings : length table.values < max_strings
  unfolding at_limit
  room_strings = ground arith

  room_text : length text ≤ uint32_max
  unfolding at_limit
  room_text = ground arith

  room_bytes : length table.bytes.bytes + length text ≤ max_snapshot_bytes
  unfolding at_limit
  room_bytes = ground arith

-- Interning keeps the table coherent, whatever the text and whether or not there is room for it.
pub intern-IsCoherent :
    (table : StringTable) (text : Option (List ℕ))
    → IsCoherent table
    → IsCoherent (intern table text).0
intern-IsCoherent table none c = unfold intern in c
intern-IsCoherent table (some text) c = elim (interned table text) [
  | found k _ e ↦ rw e c
  | full _ _ e ↦ rw e (record {
    few = c.few;
    small = c.small;
    record_width = c.record_width;
    record_bytes = c.record_bytes;
    described = c.described;
    distinct = c.distinct;
  })
  | fresh a h e ↦ rw e (
      unfold added in
      added-IsCoherent table text c a (room_strings table text h) (room_text table text h)
        (room_bytes table text h))
]

fresh_value :
    (table : StringTable) (text : List ℕ)
    → length table.values ≤ max_strings
    → get_elem? (add_value table text).0.values (add_value table text).1 ≡ some text
unfolding add_value
fresh_value table text h =
    let id : length table.values % 2 ^ 32 ≡ length table.values = omega arith in
    rw id (get_elem?-append_end table.values text [])

fresh_again :
    (table : StringTable) (text : List ℕ)
    → find_value 0 table.values text ≡ none
    → intern (add_value table text).0 (some text) ≡ add_value table text
unfolding intern add_value
fresh_again table text a = rw (find_value_end table.values 0 text a, intern) (rw zero-add)

-- In a coherent table, interning a text either gives an id under which the table then holds that text, and interning the
-- same text again changes nothing and gives the same id; or it only marks the table as failed, and
-- gives `no_id`, which happens exactly where the text is new and a limit is reached.
pub intern_twice :
    (table : StringTable) (text : List ℕ)
    → IsCoherent table
    → ((get_elem? (intern table (some text)).0.values (intern table (some text)).1 ≡ some text)
        × (intern (intern table (some text)).0 (some text) ≡ intern table (some text)))
      ⊎ ((intern table (some text) ≡ (record table { failed = true }, no_id))
          × (at_limit table text ≡ true)
          × ((i : ℕ) → get_elem? table.values i ≢ some text))
intern_twice table text c = elim (interned table text) [
  | found k p e ↦
      let id : k % 2 ^ 32 ≡ k = omega (arith, get_elem?-lt table.values k p, c.few) in
      inl (rw e (rw id p), rw e e)
  | full a h e ↦ inr (e, h, λ i. find_value-none table.values 0 text i a)
  | fresh a h e ↦ inl (rw e (fresh_value table text c.few), rw e (fresh_again table text a))
]

-- An id that the table has given keeps its text when any other text is interned.
pub intern_keeps :
    (table : StringTable) (text : List ℕ) (i : ℕ) (value : List ℕ)
    → get_elem? table.values i ≡ some value
    → get_elem? (intern table (some text)).0.values i ≡ some value
intern_keeps table text i value p = elim (interned table text) [
  | found k _ e ↦ rw e p
  | full _ _ e ↦ rw e p
  | fresh _ _ e ↦ rw e (
      unfold add_value in
      get_elem?-append_left table.values (text ∷ []) i (get_elem?-lt table.values i p) ∙ p)
]
