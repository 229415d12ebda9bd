-- ===== src/Frontend/Wire/Runs.antt =====
-- The theorems on the wire image and the string table at concrete inputs.
use luauc.Prelude.{
  ℕ, ◌+◌, ◌*◌, ◌≡◌, ◌≢◌, ◌⊎◌, refl, true, false, some, List, [], ◌∷◌, arith, length, replicate,
  get_elem?,
}
use luauc.Prelude.Words.{no_id}
use luauc.Frontend.Wire.{
  SectionData, Digests, StringTable, intern, find_value, add_value, at_limit, check_sizes,
  build_wire_image, header_size, section_size,
}
use luauc.Frontend.Wire.Strings.{IsCoherent, intern-IsCoherent, intern_twice, intern_keeps}
use luauc.Frontend.Wire.Image.{IsImage, build_wire_image-IsImage}

abbrev some_digests : Digests
some_digests = record {
  luau_pin = replicate 32 1;
  patchset = replicate 32 2;
  frontend_build = replicate 32 3;
  ir_enum = replicate 32 4;
  layout = replicate 32 5;
}

abbrev strings_section : SectionData
strings_section = record { kind = 2; record_size = 1; bytes = 104 ∷ 105 ∷ 33 ∷ [] }

abbrev words_section : SectionData
words_section = record { kind = 4; record_size = 4; bytes = 7 ∷ 0 ∷ 0 ∷ 0 ∷ 9 ∷ 1 ∷ 0 ∷ 0 ∷ [] }

abbrev two_sections : List SectionData
two_sections = strings_section ∷ words_section ∷ []

two_sections-checked :
    check_sizes (header_size + length two_sections * section_size) two_sections ≡ some 299
unfolding check_sizes
two_sections-checked = refl

build_wire_image-IsImage_example :
    (image : List ℕ) × (build_wire_image some_digests two_sections 3 1 ≡ some image)
    × IsImage image two_sections
build_wire_image-IsImage_example =
    build_wire_image-IsImage some_digests two_sections 3 1 299
      (record {
        luau_pin_size = refl;
        patchset_size = refl;
        frontend_build_size = refl;
        ir_enum_size = refl;
        layout_size = refl;
      })
      two_sections-checked
      (
        record { kind_fits = omega arith; width_fits = omega arith; length_fits = omega arith },
        (
          record { kind_fits = omega arith; width_fits = omega arith; length_fits = omega arith },
          tt,
        ),
      )
      (omega arith)

abbrev empty_table : StringTable
empty_table = record {
  records = record { kind = 1; record_size = 16; bytes = [] };
  bytes = record { kind = 2; record_size = 1; bytes = [] };
  values = [];
  failed = false;
}

empty_table-IsCoherent : IsCoherent empty_table
empty_table-IsCoherent = record {
  few = omega arith;
  small = omega arith;
  record_width = refl;
  record_bytes = refl;
  described = λ i value h. cc;
  distinct = λ i j value h g. cc;
}

abbrev hi : List ℕ
hi = 104 ∷ 105 ∷ []

abbrev ho : List ℕ
ho = 104 ∷ 111 ∷ []

abbrev hi_table : StringTable
hi_table = (intern empty_table (some hi)).0

hi_table-IsCoherent : IsCoherent hi_table
hi_table-IsCoherent = intern-IsCoherent empty_table (some hi) empty_table-IsCoherent

intern-IsCoherent_example : IsCoherent (intern hi_table (some ho)).0
intern-IsCoherent_example = intern-IsCoherent hi_table (some ho) hi_table-IsCoherent

intern_twice_example :
    ((get_elem? (intern hi_table (some ho)).0.values (intern hi_table (some ho)).1 ≡ some ho)
      × (intern (intern hi_table (some ho)).0 (some ho) ≡ intern hi_table (some ho)))
    ⊎ ((intern hi_table (some ho) ≡ (record hi_table { failed = true }, no_id))
        × (at_limit hi_table ho ≡ true)
        × ((i : ℕ) → get_elem? hi_table.values i ≢ some ho))
intern_twice_example = intern_twice hi_table ho hi_table-IsCoherent

hi_table-first : get_elem? hi_table.values 0 ≡ some hi
unfolding intern find_value at_limit add_value
hi_table-first = refl

intern_keeps_example : get_elem? (intern hi_table (some ho)).0.values 0 ≡ some hi
intern_keeps_example = intern_keeps hi_table ho 0 hi hi_table-first
