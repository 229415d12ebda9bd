-- ===== src/Frontend/Imports/Runs.antt =====
-- The theorems on decoded imports at a concrete proto.
use luauc.Prelude.{
  ◌/◌, ◌%◌, ◌≡◌, ◌≢◌, refl, true, false, some, List, [], ◌∷◌, length, ◌==◌, if◌then◌else◌,
}
use luauc.Frontend.Imports.{
  Encoding, ProtoCode, ImportDescriptor, decoded, stuck, valid_word, valid_ids, fresh_import,
  record_import, decode_step, decode_loop, decode_import_descriptors,
}
use luauc.Frontend.Imports.Decoded.{
  AllImports, decode_import_descriptors-ne-stuck, decode_import_descriptors-AllImports,
}

-- Opcode 12, in the low byte of a word, is the import of the constant in the high half.
abbrev an_encoding : Encoding
an_encoding = record {
  opcode = λ word. word % 256;
  op_length = λ opcode. if opcode == 12 then 2 else 1;
  operand_d = λ word. some (word / 65536);
  getimport = 12;
}

-- One import of `k[0]`, whose word names the string `k[1]`, between two other instructions.
abbrev a_proto : ProtoCode
a_proto = record { code = 3 ∷ 12 ∷ 0x40100000 ∷ 4 ∷ []; sizek = 2; is_string = λ id. id == 1 }

abbrev its_imports : List ImportDescriptor
its_imports =
    record { present = true; count = 1; id0 = 1; id1 = 0; id2 = 0 }
    ∷ record { present = false; count = 0; id0 = 0; id1 = 0; id2 = 0 }
    ∷ []

a_proto-decoded : decode_import_descriptors an_encoding a_proto ≡ decoded its_imports
unfolding decode_import_descriptors decode_loop decode_step record_import valid_word valid_ids
    fresh_import
a_proto-decoded = refl

decode_import_descriptors-ne-stuck_example : decode_import_descriptors an_encoding a_proto ≢ stuck
decode_import_descriptors-ne-stuck_example = decode_import_descriptors-ne-stuck an_encoding a_proto

decode_import_descriptors-AllImports_example :
    AllImports a_proto its_imports × (length its_imports ≡ 2)
decode_import_descriptors-AllImports_example =
    decode_import_descriptors-AllImports an_encoding a_proto its_imports a_proto-decoded
