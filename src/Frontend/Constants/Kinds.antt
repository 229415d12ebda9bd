-- ===== src/Frontend/Constants/Kinds.antt =====
-- The kind in the record of a constant.
use luauc.Prelude.{
  ℕ, ◌+◌, ◌%◌, ◌^◌, ◌<◌, ◌≡◌, inl, inr, ◌∙◌, Option, none, some, List, [], ◌∷◌, arith,
  if◌then◌else◌, length, get_or, set, replicate, length-append, length-replicate, get_or-set_self,
  get_or-set_ne, get_or-append_left, Option-cases,
}
use luauc.Frontend.Wire.{SectionData, StringTable, append_record, record_count, put_u64, intern}
use luauc.Frontend.Wire.Bytes.{SameOutside, put_u32-SameOutside, put_u64-SameOutside}
use luauc.Frontend.Imports.{ImportDescriptor}
use luauc.Frontend.Protos.{ProtoRef, proto_id}
use luauc.Frontend.Constants.{
  Scalar, nil, boolean, number, integer, vector, string, compound, LoaderTable, LoaderConstant,
  scalar, table, function, unknown, table_items,
}
use luauc.Frontend.Constants.Records.{
  put_byte, put_word, serialize_table_constant, put_lanes, serialized, serialize_scalar,
  serialize_vm_constant,
}
use luauc.Frontend.Constants.Named.{scalar_kind, constant_kind}

-- A record starts at `offset` with its kind, and the bytes before it are kept.
pub record IsRecorded (offset kind : ℕ) (before after : List ℕ) : Type 0 where
  pub kind_byte : get_or after offset 0 ≡ kind
  pub earlier : (j : ℕ) → j < offset → get_or after j 0 ≡ get_or before j 0

module _ (offset kind : ℕ) (before : List ℕ) where
  -- What is written behind the first byte keeps the record.
  IsRecorded-behind :
      (lo hi : ℕ) (a b : List ℕ)
      → offset < lo
      → SameOutside lo hi a b
      → IsRecorded offset kind before a
      → IsRecorded offset kind before b
  IsRecorded-behind lo hi a b l s r = record {
    kind_byte = s.same_byte offset (inl l) ∙ r.kind_byte;
    earlier = λ j m. s.same_byte j (inl (omega arith)) ∙ r.earlier j m;
  }

  put_word-IsRecorded :
      (section : SectionData) (at value : ℕ)
      → offset < at
      → IsRecorded offset kind before section.bytes
      → IsRecorded offset kind before (put_word section at value).bytes
  put_word-IsRecorded section at value l r =
      IsRecorded-behind at (at + 4) section.bytes _ l (put_u32-SameOutside section.bytes at value) r

  put_lanes-IsRecorded :
      (section : SectionData) (at : ℕ) (lanes : List ℕ)
      → offset < at
      → IsRecorded offset kind before section.bytes
      → IsRecorded offset kind before (put_lanes section at lanes).bytes
  unfolding put_lanes
  put_lanes-IsRecorded section at [] l r = r
  put_lanes-IsRecorded section at (lane ∷ lanes) l r =
      put_lanes-IsRecorded (put_word section at lane) (at + 4) lanes (omega arith)
        (put_word-IsRecorded section at lane l r)

  put_byte-IsRecorded :
      (section : SectionData)
      → offset < length section.bytes
      → ((j : ℕ) → j < offset → get_or section.bytes j 0 ≡ get_or before j 0)
      → IsRecorded offset kind before (put_byte section offset kind).bytes
  put_byte-IsRecorded section l e = record {
    kind_byte = get_or-set_self section.bytes offset kind 0 l;
    earlier =
        λ j m. get_or-set_ne section.bytes offset j kind 0 (λ q. absurd (omega arith)) ∙ e j m;
  }

-- Where a record may be written: at the offset of the one that was just added.
record IsAdded (offset : ℕ) (before : List ℕ) (grown : SectionData) : Type 0 where
  pub inside : offset < length grown.bytes
  pub earlier : (j : ℕ) → j < offset → get_or grown.bytes j 0 ≡ get_or before j 0

append_record-IsAdded :
    (section : SectionData)
    → 0 < section.record_size
    → IsAdded (length section.bytes) section.bytes (append_record section).0
unfolding append_record
append_record-IsAdded section positive = record {
  inside = omega (
    arith,
    length-append section.bytes (replicate {A = ℕ} section.record_size 0),
    length-replicate {A = ℕ} section.record_size 0,
  );
  earlier = λ j l. get_or-append_left section.bytes (replicate section.record_size 0) j 0 l;
}

module _ (offset : ℕ) (before : List ℕ) (grown : SectionData)
    (added : IsAdded offset before grown) where
  started : (kind : ℕ) → IsRecorded offset kind before (put_byte grown offset kind).bytes
  started kind = put_byte-IsRecorded offset kind before grown added.inside added.earlier

  serialize_scalar-IsRecorded :
      (value : Scalar) (items section' items' : SectionData) (strings strings' : StringTable)
      → serialize_scalar value offset grown items strings ≡ serialized section' items' strings'
      → IsRecorded offset (scalar_kind value) before section'.bytes
  unfolding serialize_scalar
  serialize_scalar-IsRecorded nil items section' items' strings strings' h =
      let made : put_byte grown offset 0 ≡ section' = ground arith in rw (← made) (started 0)
  serialize_scalar-IsRecorded (boolean b) items section' items' strings strings' h =
      let made : put_word (put_byte grown offset 1) (offset + 4) (if b then 1 else 0) ≡ section' =
        ground arith in
      rw (← made) (
        put_word-IsRecorded offset 1 before (put_byte grown offset 1) (offset + 4) _ (omega arith)
          (started 1))
  serialize_scalar-IsRecorded (number bits) items section' items' strings strings' h =
      let made : record grown { bytes = put_u64 (set grown.bytes offset 2) (offset + 24) bits }
          ≡ section' =
        ground arith in
      rw (← made) (
        IsRecorded-behind offset 2 before (offset + 24) (offset + 24 + 8) (set grown.bytes offset 2)
          _ (omega arith) (put_u64-SameOutside (set grown.bytes offset 2) (offset + 24) bits)
          (started 2))
  serialize_scalar-IsRecorded (integer bits) items section' items' strings strings' h =
      let made : record grown { bytes = put_u64 (set grown.bytes offset 5) (offset + 24) bits }
          ≡ section' =
        ground arith in
      rw (← made) (
        IsRecorded-behind offset 5 before (offset + 24) (offset + 24 + 8) (set grown.bytes offset 5)
          _ (omega arith) (put_u64-SameOutside (set grown.bytes offset 5) (offset + 24) bits)
          (started 5))
  serialize_scalar-IsRecorded (vector lanes) items section' items' strings strings' h =
      let made : put_lanes (put_byte grown offset 3) (offset + 4) lanes ≡ section' = ground arith in
      rw (← made) (
        put_lanes-IsRecorded offset 3 before (put_byte grown offset 3) (offset + 4) lanes
          (omega arith) (started 3))
  serialize_scalar-IsRecorded (string text) items section' items' strings strings' h =
      let id = (intern strings (some text)).1 in
      let made : put_word (put_byte grown offset 4) (offset + 4) id ≡ section' = ground arith in
      rw (← made) (
        put_word-IsRecorded offset 4 before (put_byte grown offset 4) (offset + 4) _ (omega arith)
          (started 4))
  serialize_scalar-IsRecorded compound items section' items' strings strings' h = cc

  serialize_table_constant-IsRecorded :
      (constants : List LoaderConstant) (imports : List ImportDescriptor) (t : LoaderTable)
      (items section' items' : SectionData)
      → serialize_table_constant constants imports t offset grown items ≡ some (section', items')
      → IsRecorded offset 7 before section'.bytes
  unfolding serialize_table_constant
  serialize_table_constant-IsRecorded constants imports t items section' items' h =
      elim (Option-cases (table_items constants imports t)) [
        | inl n ↦ absurd (ground (arith, n))
        | inr (entries, e) ↦
            let first = put_word (put_byte grown offset 7) (offset + 4) (record_count items) in
            let made : put_word first (offset + 8) (length entries % 2 ^ 32) ≡ section' =
              ground (arith, e) in
            rw (← made) (
              put_word-IsRecorded offset 7 before first (offset + 8) _ (omega arith) (
                put_word-IsRecorded offset 7 before (put_byte grown offset 7) (offset + 4) _
                  (omega arith) (started 7)))
      ]

-- The kind of an import, whatever its constant is, and of any other constant.
abbrev pub recorded_kind : LoaderConstant → Option ImportDescriptor → ℕ
recorded_kind value (some import) = 6
recorded_kind value none = constant_kind value

-- The record that is added for a constant, an import or not, has the kind of it as its first byte,
-- and the bytes of the section before it are kept, whenever a record is added.
pub serialize_vm_constant-IsRecorded :
    (constants : List LoaderConstant) (imports : List ImportDescriptor) (protos : List ProtoRef)
    (value : LoaderConstant) (import : Option ImportDescriptor)
    (section items section' items' : SectionData) (strings strings' : StringTable)
    → 0 < section.record_size
    → serialize_vm_constant constants imports protos value import section items strings
      ≡ serialized section' items' strings'
    → IsRecorded (length section.bytes) (recorded_kind value import) section.bytes section'.bytes
unfolding serialize_vm_constant append_record
serialize_vm_constant-IsRecorded constants imports protos value (some import) section items section'
      items' strings strings' positive h =
    let offset = length section.bytes in
    let first =
      put_word (put_byte (append_record section).0 offset 6) (offset + 4) (record_count items) in
    let made : put_word first (offset + 8) import.count ≡ section' = ground arith in
    rw (← made) (
      put_word-IsRecorded offset 6 section.bytes first (offset + 8) _ (omega arith) (
        put_word-IsRecorded offset 6 section.bytes (put_byte (append_record section).0 offset 6)
          (offset + 4) _ (omega arith)
          (started offset section.bytes (append_record section).0
            (append_record-IsAdded section positive) 6)))
serialize_vm_constant-IsRecorded constants imports protos (scalar value) none section items section'
      items' strings strings' positive h =
    serialize_scalar-IsRecorded (length section.bytes) section.bytes (append_record section).0
      (append_record-IsAdded section positive) value items section' items' strings strings' h
serialize_vm_constant-IsRecorded constants imports protos (table t) none section items section'
      items' strings strings' positive h =
    elim (Option-cases (
      serialize_table_constant constants imports t (length section.bytes) (append_record section).0
        items)) [
          | inl n ↦ absurd (ground (arith, n))
          | inr ((s, i), e) ↦
              let same : s ≡ section' = ground (arith, e) in
              rw (← same) (
                serialize_table_constant-IsRecorded (length section.bytes) section.bytes
                  (append_record section).0 (append_record-IsAdded section positive) constants
                  imports t items s i e)
        ]
serialize_vm_constant-IsRecorded constants imports protos (function proto) none section items
      section' items' strings strings' positive h =
    elim (Option-cases (proto_id 0 protos proto)) [
      | inl n ↦ absurd (ground (arith, n))
      | inr (id, e) ↦
          let grown = (append_record section).0 in
          let offset = length section.bytes in
          let made : put_word (put_byte grown offset 8) (offset + 4) (id % 2 ^ 32) ≡ section' =
            ground (arith, e) in
          rw (← made) (
            put_word-IsRecorded offset 8 section.bytes (put_byte grown offset 8) (offset + 4) _
              (omega arith)
              (started offset section.bytes grown (append_record-IsAdded section positive) 8))
    ]
serialize_vm_constant-IsRecorded constants imports protos unknown none section items section' items'
      strings strings' positive h =
    cc
