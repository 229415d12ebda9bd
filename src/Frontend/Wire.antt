-- ===== src/Frontend/Wire.antt =====
-- The byte writers, the records and the string table of frontend/frontend_adapter.cpp, and
-- `buildWireImage`, which lays the sections out in one image. A byte vector is a list of numbers.
pub mod Bytes
pub mod Strings
pub mod Directory
mod Image
mod Runs
use luauc.Prelude.{
  ℕ, zero, suc, ◌+◌, ◌*◌, ◌/◌, ◌%◌, ◌^◌, ◌≡◌, Bool, true, false, ◌||◌, Option, none, some, List, [],
  ◌∷◌, ◌++◌, arith, ltb, leb, ◌==◌, if◌then◌else◌, not, length, set, replicate, get_or,
}
use luauc.Prelude.Words.{uint32_max, no_id}

-- `for (shift = 0; shift < 8 * rounds; shift += 8) output[offset + shift / 8] = uint8_t(value >> shift)`,
-- by the rounds that are left.
pub put_loop : ℕ → ℕ → List ℕ → ℕ → ℕ → List ℕ
put_loop zero shift output offset value = output
put_loop (suc rounds) shift output offset value =
    put_loop rounds (shift + 8) (set output (offset + shift / 8) (value / 2 ^ shift % 256)) offset
      value

unfoldable pub put_u16 : List ℕ → ℕ → ℕ → List ℕ
put_u16 output offset value =
    set (set output offset (value % 256)) (offset + 1) (value / 2 ^ 8 % 256)

unfoldable pub put_u32 : List ℕ → ℕ → ℕ → List ℕ
put_u32 = put_loop 4 0

unfoldable pub put_u64 : List ℕ → ℕ → ℕ → List ℕ
put_u64 = put_loop 8 0

-- `memcpy(output.data() + offset, bytes, size)`
pub copy_bytes : List ℕ → ℕ → List ℕ → List ℕ
copy_bytes output offset [] = output
copy_bytes output offset (b ∷ bs) = copy_bytes (set output offset b) (offset + 1) bs

pub record SectionData : Type 0 where
  pub kind : ℕ
  pub record_size : ℕ
  pub bytes : List ℕ

-- The new section, and the offset of the record that was added, filled with zeros.
unfoldable pub append_record : SectionData → SectionData × ℕ
append_record section = (
  record section { bytes = section.bytes ++ replicate section.record_size 0 },
  length section.bytes,
)

unfoldable pub record_count : SectionData → ℕ
record_count section = length section.bytes / section.record_size % 2 ^ 32

unfoldable pub append_u32_record : SectionData → ℕ → SectionData
unfolding append_record put_u32
append_u32_record section value =
    let (grown, offset) = append_record section in
    record grown { bytes = put_u32 grown.bytes offset value }

unfoldable pub append_bytes : SectionData → List ℕ → SectionData
append_bytes section bytes = record section { bytes = section.bytes ++ bytes }

abbrev pub max_snapshot_bytes : ℕ
max_snapshot_bytes = 256 * 1024 * 1024

abbrev pub max_strings : ℕ
max_strings = 1 * 1024 * 1024

pub record StringTable : Type 0 where
  pub records : SectionData
  pub bytes : SectionData
  pub values : List (List ℕ)
  pub failed : Bool

-- `values[index].size() == size && memcmp(values[index].data(), data, size) == 0`
unfoldable pub same_bytes : List ℕ → List ℕ → Bool
same_bytes [] [] = true
same_bytes [] (b ∷ bs) = false
same_bytes (a ∷ as') [] = false
same_bytes (a ∷ as') (b ∷ bs) = if a == b then same_bytes as' bs else false

-- The index of the first equal value, counted from `index`.
pub find_value : ℕ → List (List ℕ) → List ℕ → Option ℕ
find_value index [] text = none
find_value index (value ∷ rest) text =
    let later = find_value (index + 1) rest text in
    if same_bytes value text then some index else later

abbrev pub string_byte_offset : ℕ
string_byte_offset = 0

abbrev pub string_byte_length : ℕ
string_byte_length = 8

-- What `intern` does to a text that the table does not hold.
unfoldable pub add_value : StringTable → List ℕ → StringTable × ℕ
add_value table text =
    let byte_offset = length table.bytes.bytes in
    let (records, entry) = append_record table.records in
    let with_offset = put_u64 records.bytes (entry + string_byte_offset) byte_offset in
    let with_length = put_u32 with_offset (entry + string_byte_length) (length text % 2 ^ 32) in
    (
      record table {
        records = record records { bytes = with_length };
        bytes = append_bytes table.bytes text;
        values = table.values ++ (text ∷ []);
      },
      length table.values % 2 ^ 32,
    )

-- The limits that set `failed`.
unfoldable pub at_limit : StringTable → List ℕ → Bool
at_limit table text =
    leb max_strings (length table.values)
    || ltb uint32_max (length text)
    || ltb max_snapshot_bytes (length table.bytes.bytes + length text)

-- `intern`: a null pointer is `none`.
unfoldable pub intern : StringTable → Option (List ℕ) → StringTable × ℕ
intern table none = (table, no_id)
intern table (some text) = elim (find_value 0 table.values text) [
  | some index ↦ (table, index % 2 ^ 32)
  | none ↦
      if at_limit table text then (record table { failed = true }, no_id) else add_value table text
]

-- The record sizes of the 21 sections, in the order of their kinds.
abbrev pub section_sizes : List ℕ
section_sizes =
    16 ∷ 1 ∷ 128 ∷ 4 ∷ 4 ∷ 40 ∷ 8 ∷ 20 ∷ 4 ∷ 1 ∷ 1 ∷ 4 ∷ 1 ∷ 12 ∷ 64 ∷ 32 ∷ 24 ∷ 8 ∷ 16 ∷ 8 ∷ 1 ∷ []

pub empty_sections : ℕ → List ℕ → List SectionData
empty_sections index [] = []
empty_sections index (size ∷ sizes) =
    record { kind = (index + 1) % 2 ^ 16; record_size = size; bytes = [] }
    ∷ empty_sections (index + 1) sizes

unfoldable pub make_sections : List SectionData
unfolding empty_sections
make_sections = empty_sections 0 section_sizes

abbrev pub header_size : ℕ
header_size = 224

abbrev pub section_size : ℕ
section_size = 32

-- The size check: `none` is the resource or record-size error.
pub check_sizes : ℕ → List SectionData → Option ℕ
check_sizes total [] = some total
check_sizes total (item ∷ items) =
    let rest = check_sizes (total + length item.bytes) items in
    if not (length item.bytes % item.record_size == 0)
      || ltb max_snapshot_bytes (total + length item.bytes)
    then none
    else rest

-- The five digests of the header.
pub record Digests : Type 0 where
  pub luau_pin : List ℕ
  pub patchset : List ℕ
  pub frontend_build : List ℕ
  pub ir_enum : List ℕ
  pub layout : List ℕ

-- "LUAUCIR\0"
abbrev pub magic : List ℕ
magic = 76 ∷ 85 ∷ 65 ∷ 85 ∷ 67 ∷ 73 ∷ 82 ∷ 0 ∷ []

-- The words up to the total size, and the digests and counts behind it.
unfoldable pub put_header_front : ℕ → List ℕ → List ℕ
put_header_front total_size output =
    let o₁ = copy_bytes output 0 magic in
    let o₂ = put_u16 o₁ 8 1 in
    let o₃ = put_u16 o₂ 10 header_size in let o₄ = put_u32 o₃ 12 1 in put_u64 o₄ 16 total_size

unfoldable pub put_header_back : Digests → ℕ → ℕ → ℕ → List ℕ → List ℕ
put_header_back digests proto_count string_count section_count output =
    let o₆ = copy_bytes output 24 digests.luau_pin in
    let o₇ = copy_bytes o₆ 56 digests.patchset in
    let o₈ = copy_bytes o₇ 88 digests.frontend_build in
    let o₉ = copy_bytes o₈ 120 digests.ir_enum in
    let o₁₀ = copy_bytes o₉ 152 digests.layout in
    let o₁₁ = put_u32 o₁₀ 184 1 in
    let o₁₂ = put_u32 o₁₁ 188 proto_count in
    let o₁₃ = put_u32 o₁₂ 192 proto_count in
    let o₁₄ = put_u32 o₁₃ 196 string_count in
    let o₁₅ = put_u32 o₁₄ 200 0 in put_u32 o₁₅ 204 (section_count % 2 ^ 32)

unfoldable pub put_header : Digests → ℕ → ℕ → ℕ → ℕ → List ℕ → List ℕ
put_header digests proto_count string_count section_count total_size output =
    put_header_back digests proto_count string_count section_count
      (put_header_front total_size output)

-- The directory entry of one section.
unfoldable pub put_directory : List ℕ → ℕ → SectionData → ℕ → List ℕ
put_directory output directory item payload_offset =
    let o₁ = put_u16 output directory item.kind in
    let o₂ = put_u32 o₁ (directory + 4) item.record_size in
    let o₃ = put_u64 o₂ (directory + 8) payload_offset in
    let o₄ = put_u64 o₃ (directory + 16) (length item.bytes) in
    put_u32 o₄ (directory + 24) (record_count item)

pub put_sections : ℕ → ℕ → List SectionData → List ℕ → List ℕ
put_sections index payload_offset [] output = output
put_sections index payload_offset (item ∷ items) output =
    put_sections (index + 1) (payload_offset + length item.bytes) items
      (put_directory output (header_size + index * section_size) item payload_offset ++ item.bytes)

-- `none` stands for every `return false`: a failed size check, or an image of another size.
unfoldable pub build_wire_image : Digests → List SectionData → ℕ → ℕ → Option (List ℕ)
build_wire_image digests sections proto_count string_count =
    let start = header_size + length sections * section_size in
    elim (check_sizes start sections) [
      | none ↦ none
      | some total_size ↦
          let blank = replicate start 0 in
          let headed =
            put_header digests proto_count string_count (length sections) total_size blank in
          let output = put_sections 0 (length headed) sections headed in
          if length output == total_size then some output else none
    ]
