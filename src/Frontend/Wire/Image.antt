-- ===== src/Frontend/Wire/Image.antt =====
-- `buildWireImage`: the image is as long as its header says, and each directory entry leads to the
-- bytes of its section, one section behind the other.
use luauc.Prelude.{
  ℕ, zero, suc, ◌+◌, ◌*◌, ◌%◌, ◌^◌, ◌≤◌, ◌<◌, ◌≡◌, ◌⊎◌, inl, inr, refl, sym, subst, ◌∙◌, some, List,
  [], ◌∷◌, ◌++◌, arith, length, replicate, All, length-append, length-replicate,
}
use luauc.Frontend.Wire.{
  SectionData, Digests, put_u16, put_u32, copy_bytes, put_header, put_header_front, put_header_back,
  put_directory, put_sections, check_sizes, build_wire_image, header_size, section_size, magic,
  max_snapshot_bytes,
}
use luauc.Frontend.Wire.Bytes.{
  SameOutside, SameOutside-refl, SameOutside-trans, SameOutside-widen, put_u16-SameOutside,
  put_u32-SameOutside, put_u64-SameOutside, copy_bytes-SameOutside, read_le, read_le-SameOutside,
  read_le-put_u64,
}
use luauc.Frontend.Wire.Directory.{
  Grows, Grows-trans, Grows-widen, Grows-append, read_le-Grows, Located, Located-Grows, Fits,
  put_directory-SameOutside, put_directory-Located,
}

-- Each digest has the 32 bytes that `memcpy` copies.
pub record HasDigests (digests : Digests) : Type 0 where
  pub luau_pin_size : length digests.luau_pin ≡ 32
  pub patchset_size : length digests.patchset ≡ 32
  pub frontend_build_size : length digests.frontend_build ≡ 32
  pub ir_enum_size : length digests.ir_enum ≡ 32
  pub layout_size : length digests.layout ≡ 32

-- The bytes of all sections.
abbrev pub payload_size : List SectionData → ℕ
payload_size [] = 0
payload_size (item ∷ items) = length item.bytes + payload_size items

-- Directory entries from `index` on describe the items, whose bytes follow one another from `offset` on.
abbrev pub Placed : List ℕ → ℕ → ℕ → List SectionData → Type 0
Placed image index offset [] = Unit
Placed image index offset (item ∷ items) =
    Located image (header_size + index * section_size) offset item
    × Placed image (index + 1) (offset + length item.bytes) items

put_sections-Grows :
    (items : List SectionData) (index offset : ℕ) (output : List ℕ)
    → Grows
        (header_size + index * section_size)
        (header_size + (index + length items) * section_size)
        output
        (put_sections index offset items output)
unfolding put_sections
put_sections-Grows [] index offset output = record {
  longer = omega arith;
  same_byte = λ j h o. refl;
}
put_sections-Grows (item ∷ items) index offset output =
    Grows-trans
      (Grows-widen (header_size + index * section_size) (header_size + index * section_size + 32)
        (header_size + index * section_size)
        (header_size + (index + suc (length items)) * section_size) (omega arith) (omega arith)
        (Grows-append item.bytes
          (put_directory-SameOutside output (header_size + index * section_size) item offset)))
      (Grows-widen (header_size + (index + 1) * section_size)
        (header_size + (index + 1 + length items) * section_size)
        (header_size + index * section_size)
        (header_size + (index + suc (length items)) * section_size) (omega arith) (omega arith)
        (put_sections-Grows items (index + 1) (offset + length item.bytes) _))

length-put_sections :
    (items : List SectionData) (index offset : ℕ) (output : List ℕ)
    → length (put_sections index offset items output) ≡ length output + payload_size items
unfolding put_sections
length-put_sections [] index offset output = omega arith
length-put_sections (item ∷ items) index offset output =
    let directory = header_size + index * section_size in
    omega (
      arith,
      length-put_sections items (index + 1) (offset + length item.bytes)
          (put_directory output directory item offset ++ item.bytes),
      length-append (put_directory output directory item offset) item.bytes,
      (put_directory-SameOutside output directory item offset).same_length,
    )

put_sections-Placed :
    (items : List SectionData) (index offset : ℕ) (output : List ℕ)
    → offset ≡ length output
    → header_size + (index + length items) * section_size ≤ length output
    → length output + payload_size items < 2 ^ 64
    → All Fits items
    → Placed (put_sections index offset items output) index offset items
unfolding put_sections
put_sections-Placed [] index offset output e r b f = tt
put_sections-Placed (item ∷ items) index offset output e r b (f, fs) =
    let directory = header_size + index * section_size in
    let next = put_directory output directory item offset ++ item.bytes in
    let grown : length next ≡ length output + length item.bytes = omega (
      arith,
      length-append (put_directory output directory item offset) item.bytes,
      (put_directory-SameOutside output directory item offset).same_length,
    ) in
    (
      Located-Grows (omega arith) (omega (arith, grown)) (omega arith)
          (put_sections-Grows items (index + 1) (offset + length item.bytes) next)
          (put_directory-Located output directory item offset (omega arith) f (omega arith) e),
      put_sections-Placed items (index + 1) (offset + length item.bytes) next (omega (arith, grown))
          (omega (arith, grown)) (omega (arith, grown)) fs,
    )

module _ {lo hi : ℕ} {a b : List ℕ} (s : SameOutside lo hi a b) (off : ℕ) where
  then_u16 : (v : ℕ) → lo ≤ off → off + 2 ≤ hi → SameOutside lo hi a (put_u16 b off v)
  then_u16 v p q =
      SameOutside-trans s (SameOutside-widen off (off + 2) lo hi p q (put_u16-SameOutside b off v))

  then_u32 : (v : ℕ) → lo ≤ off → off + 4 ≤ hi → SameOutside lo hi a (put_u32 b off v)
  then_u32 v p q =
      SameOutside-trans s (SameOutside-widen off (off + 4) lo hi p q (put_u32-SameOutside b off v))

  then_bytes :
      (bytes : List ℕ)
      → lo ≤ off
      → off + length bytes ≤ hi
      → SameOutside lo hi a (copy_bytes b off bytes)
  then_bytes bytes p q =
      SameOutside-trans s
        (SameOutside-widen off (off + length bytes) lo hi p q (copy_bytes-SameOutside bytes b off))

-- What stands before the total size in the header.
front_words : (output : List ℕ) → List ℕ
front_words output = put_u32 (put_u16 (put_u16 (copy_bytes output 0 magic) 8 1) 10 header_size) 12 1

front_words-SameOutside : (output : List ℕ) → SameOutside 0 16 output (front_words output)
unfolding front_words
front_words-SameOutside o =
    let s₁ = then_bytes (SameOutside-refl 0 16 o) 0 magic (omega arith) (omega arith) in
    let s₂ = then_u16 s₁ 8 1 (omega arith) (omega arith) in
    let s₃ = then_u16 s₂ 10 header_size (omega arith) (omega arith) in
    then_u32 s₃ 12 1 (omega arith) (omega arith)

put_header_back-SameOutside :
    (digests : Digests) (protos strings sections : ℕ) (output : List ℕ)
    → HasDigests digests
    → SameOutside 24 header_size output (put_header_back digests protos strings sections output)
unfolding put_header_back
put_header_back-SameOutside digests protos strings sections o h =
    let s₆ =
      then_bytes (SameOutside-refl 24 224 o) 24 digests.luau_pin (omega arith) (omega arith) in
    let s₇ = then_bytes s₆ 56 digests.patchset (omega arith) (omega arith) in
    let s₈ = then_bytes s₇ 88 digests.frontend_build (omega arith) (omega arith) in
    let s₉ = then_bytes s₈ 120 digests.ir_enum (omega arith) (omega arith) in
    let s₁₀ = then_bytes s₉ 152 digests.layout (omega arith) (omega arith) in
    let s₁₁ = then_u32 s₁₀ 184 1 (omega arith) (omega arith) in
    let s₁₂ = then_u32 s₁₁ 188 protos (omega arith) (omega arith) in
    let s₁₃ = then_u32 s₁₂ 192 protos (omega arith) (omega arith) in
    let s₁₄ = then_u32 s₁₃ 196 strings (omega arith) (omega arith) in
    let s₁₅ = then_u32 s₁₄ 200 0 (omega arith) (omega arith) in
    then_u32 s₁₅ 204 (sections % 2 ^ 32) (omega arith) (omega arith)

module _ (digests : Digests) (protos strings sections total : ℕ) (output : List ℕ)
    (sizes : HasDigests digests) where
  length-put_header :
      length (put_header digests protos strings sections total output) ≡ length output
  unfolding put_header put_header_front front_words
  length-put_header =
      (put_header_back-SameOutside digests protos strings sections _ sizes).same_length
      ∙ (put_u64-SameOutside (front_words output) 16 total).same_length
      ∙ (front_words-SameOutside output).same_length

  -- The total size in the header survives what is written after it.
  put_header-total :
      header_size ≤ length output
      → total < 2 ^ 64
      → read_le 8 (put_header digests protos strings sections total output) 16 ≡ total
  unfolding put_header put_header_front front_words
  put_header-total r f =
      read_le-SameOutside 8 16 (inl (omega arith))
        (put_header_back-SameOutside digests protos strings sections _ sizes)
      ∙ read_le-put_u64 (front_words output) 16 total
          (omega (arith, (front_words-SameOutside output).same_length)) f

-- The size check adds the sections up, and keeps the image under the limit.
check_sizes-some :
    (items : List SectionData) (start total : ℕ)
    → check_sizes start items ≡ some total
    → (total ≡ start + payload_size items) × ((total ≤ max_snapshot_bytes) ⊎ (total ≡ start))
unfolding check_sizes
check_sizes-some [] start total h = (ground arith, inr (ground arith))
check_sizes-some (item ∷ items) start total h =
    ground (arith, check_sizes-some items (start + length item.bytes) total)

-- The image starts with its header, whose total is the image's length, and the directory leads to
-- the sections.
pub record IsImage (image : List ℕ) (sections : List SectionData) : Type 0 where
  pub total_word : read_le 8 image 16 ≡ length image
  pub size : length image ≡ header_size + length sections * section_size + payload_size sections
  pub placed : Placed image 0 (header_size + length sections * section_size) sections

module _ (digests : Digests) (sections : List SectionData) (protos strings total : ℕ)
    (sizes : HasDigests digests)
    (checked : check_sizes (header_size + length sections * section_size) sections ≡ some total)
    (fits : All Fits sections) (few : length sections < 2 ^ 16) where
  headed : List ℕ
  headed =
      put_header digests protos strings (length sections) total
        (replicate (header_size + length sections * section_size) 0)

  length-headed : length headed ≡ header_size + length sections * section_size
  unfolding headed
  length-headed =
      length-put_header digests protos strings (length sections) total _ sizes
      ∙ length-replicate (header_size + length sections * section_size) 0

  image : List ℕ
  image = put_sections 0 (length headed) sections headed

  length-image : length image ≡ total
  unfolding image
  length-image = omega (
    arith,
    length-put_sections sections 0 (length headed) headed,
    length-headed,
    check_sizes-some sections (header_size + length sections * section_size) total checked,
  )

  total_fits : total < 2 ^ 64
  total_fits = ground (
    arith,
    check_sizes-some sections (header_size + length sections * section_size) total checked,
  )

  image-IsImage : IsImage image sections
  unfolding image headed
  image-IsImage =
      let start = header_size + length sections * section_size in
      let sum = (check_sizes-some sections start total checked).0 in
      record {
        total_word =
            read_le-Grows 8 16 (omega (arith, length-headed)) (inl (omega arith))
              (put_sections-Grows sections 0 (length headed) headed)
            ∙ put_header-total digests protos strings (length sections) total (replicate start 0)
                sizes (omega (arith, length-replicate start (zero))) total_fits
            ∙ sym length-image;
        size = length-image ∙ sum;
        placed =
            subst (λ (t : ℕ). Placed image 0 t sections) length-headed
              (put_sections-Placed sections 0 (length headed) headed refl
                (omega (arith, length-headed)) (omega (arith, length-headed, total_fits)) fits);
      }

  build_wire_image-image : build_wire_image digests sections protos strings ≡ some image
  unfolding build_wire_image image headed
  build_wire_image-image = rw (checked, build_wire_image) (ground (arith, length-image))

-- For digests of 32 bytes and fewer than 2^16 sections that fit the directory's fields, whenever the size
-- check accepts the sections, the image is built: the last test of its length never
-- fails. The image's header gives its length, the image holds the header, the directory and the
-- sections and nothing else, and each directory entry has the kind, the record size, the count and
-- the place of its section, whose bytes stand there, one section right behind the other.
pub build_wire_image-IsImage :
    (digests : Digests) (sections : List SectionData) (protos strings total : ℕ)
    → HasDigests digests
    → check_sizes (header_size + length sections * section_size) sections ≡ some total
    → All Fits sections
    → length sections < 2 ^ 16
    → (image : List ℕ) × (build_wire_image digests sections protos strings ≡ some image)
      × IsImage image sections
build_wire_image-IsImage digests sections protos strings total sizes checked fits few = (
  image digests sections protos strings total sizes checked fits few,
  build_wire_image-image digests sections protos strings total sizes checked fits few,
  image-IsImage digests sections protos strings total sizes checked fits few,
)
