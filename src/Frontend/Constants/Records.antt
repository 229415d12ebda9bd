-- ===== src/Frontend/Constants/Records.antt =====
-- The records of constants: `serializeTableConstant` and `serializeVmConstant` of
-- frontend/frontend_adapter.cpp.
use luauc.Prelude.{
  ℕ, ◌+◌, ◌*◌, ◌%◌, ◌^◌, ◌||◌, Option, none, some, List, [], ◌∷◌, ltb, ◌==◌, if◌then◌else◌, length,
  set, take,
}
use luauc.Prelude.Words.{uint32_max, no_id}
use luauc.Frontend.Wire.{
  SectionData, StringTable, append_record, record_count, put_u32, put_u64, intern,
  max_snapshot_bytes,
}
use luauc.Frontend.Imports.{ImportDescriptor}
use luauc.Frontend.Protos.{ProtoRef, proto_id}
use luauc.Frontend.Constants.{
  Scalar, LoaderTable, LoaderConstant, TableItem, table_items, nil, boolean, number, integer,
  vector, string, compound, scalar, table, function, unknown,
}

abbrev pub put_byte : SectionData → ℕ → ℕ → SectionData
put_byte section offset value = record section { bytes = set section.bytes offset value }

abbrev pub put_word : SectionData → ℕ → ℕ → SectionData
put_word section offset value = record section { bytes = put_u32 section.bytes offset value }

-- One item, by its two words.
unfoldable pub append_item : SectionData → ℕ → ℕ → SectionData
append_item items key value =
    let (grown, item) = append_record items in put_word (put_word grown item key) (item + 4) value

unfoldable pub append_items : SectionData → List TableItem → SectionData
append_items items [] = items
append_items items (item ∷ rest) = append_items (append_item items item.key item.value) rest

unfoldable pub serialize_table_constant :
    List LoaderConstant
    → List ImportDescriptor
    → LoaderTable
    → ℕ
    → SectionData
    → SectionData
    → Option (SectionData × SectionData)
serialize_table_constant constants imports t offset section items =
    elim (table_items constants imports t) [
      | none ↦ none
      | some entries ↦
          if ltb uint32_max (length entries)
            || ltb max_snapshot_bytes (length items.bytes + length entries * items.record_size)
          then none
          else some (
            put_word (put_word (put_byte section offset 7) (offset + 4) (record_count items))
                (offset + 8) (length entries % 2 ^ 32),
            append_items items entries,
          )
    ]

-- The string constants of an import.
unfoldable pub append_imports : SectionData → List ℕ → SectionData
append_imports items [] = items
append_imports items (id ∷ ids) = append_imports (append_item items id no_id) ids

abbrev pub import_ids : ImportDescriptor → List ℕ
import_ids import = take import.count (import.id0 ∷ import.id1 ∷ import.id2 ∷ [])

unfoldable pub put_lanes : SectionData → ℕ → List ℕ → SectionData
put_lanes section offset [] = section
put_lanes section offset (lane ∷ lanes) =
    put_lanes (put_word section offset lane) (offset + 4) lanes

-- The sections and the string table, or the status of the failure.
pub data Serialized : Type 0 where
  serialized : SectionData → SectionData → StringTable → Serialized
  resource_limit internal_error unsupported : Serialized

unfoldable pub serialize_scalar : Scalar → ℕ → SectionData → SectionData → StringTable → Serialized
serialize_scalar nil offset section items strings =
    serialized (put_byte section offset 0) items strings
serialize_scalar (boolean b) offset section items strings =
    serialized (put_word (put_byte section offset 1) (offset + 4) (if b then 1 else 0)) items
      strings
serialize_scalar (number bits) offset section items strings =
    serialized (record section { bytes = put_u64 (set section.bytes offset 2) (offset + 24) bits })
      items strings
serialize_scalar (integer bits) offset section items strings =
    serialized (record section { bytes = put_u64 (set section.bytes offset 5) (offset + 24) bits })
      items strings
serialize_scalar (vector lanes) offset section items strings =
    serialized (put_lanes (put_byte section offset 3) (offset + 4) lanes) items strings
serialize_scalar (string text) offset section items strings =
    let (strings', id) = intern strings (some text) in
    if id == no_id
    then resource_limit
    else serialized (put_word (put_byte section offset 4) (offset + 4) id) items strings'
serialize_scalar compound offset section items strings = unsupported

unfoldable pub serialize_vm_constant :
    List LoaderConstant
    → List ImportDescriptor
    → List ProtoRef
    → LoaderConstant
    → Option ImportDescriptor
    → SectionData
    → SectionData
    → StringTable
    → Serialized
serialize_vm_constant constants imports protos value (some import) section items strings =
    let (grown, offset) = append_record section in
    serialized
      (put_word (put_word (put_byte grown offset 6) (offset + 4) (record_count items)) (offset + 8)
        import.count)
      (append_imports items (import_ids import)) strings
serialize_vm_constant constants imports protos (scalar value) none section items strings =
    let (grown, offset) = append_record section in serialize_scalar value offset grown items strings
serialize_vm_constant constants imports protos (table t) none section items strings =
    let (grown, offset) = append_record section in
    elim (serialize_table_constant constants imports t offset grown items) [
      | none ↦ unsupported
      | some (section', items') ↦ serialized section' items' strings
    ]
serialize_vm_constant constants imports protos (function proto) none section items strings =
    let (grown, offset) = append_record section in
    elim (proto_id 0 protos proto) [
      | none ↦ internal_error
      | some id ↦
          serialized (put_word (put_byte grown offset 8) (offset + 4) (id % 2 ^ 32)) items strings
    ]
serialize_vm_constant constants imports protos unknown none section items strings = unsupported
