-- ===== src/Runtime/Metadata/Runs.antt =====
-- The theorems on the metadata of a proto at a concrete one.
use luauc.Prelude.{◌≡◌, ◌↔◌, refl, true, none, some, arith, ◌==◌, if◌then◌else◌}
use luauc.Prelude.Words.{no_id}
use luauc.Runtime.Metadata.Kind
use luauc.Runtime.Metadata.{
  VmConstant, ProtoMetadata, runtime_layout_sha256, valid_aot_constants, aot_import_aux,
}
use luauc.Runtime.Metadata.Constants.{IsValidPool, valid_aot_constants_iff}
use luauc.Runtime.Metadata.Imports.{CarriesImport, aot_import_aux-fresh_import}
use luauc.Frontend.Imports.{valid_word, fresh_import}

-- The import of the string constant 1.
abbrev an_import : VmConstant
an_import = record {
  kind = Kind.import;
  reserved0 = 0;
  reserved1 = 0;
  reserved2 = 0;
  payload0 = 0;
  payload1 = 1;
  payload2 = 0;
}

abbrev a_string : VmConstant
a_string = record {
  kind = Kind.string;
  reserved0 = 0;
  reserved1 = 0;
  reserved2 = 0;
  payload0 = 64;
  payload1 = 5;
  payload2 = 0;
}

abbrev a_metadata : ProtoMetadata
a_metadata = record {
  abi_version = 1;
  struct_size = 88;
  layout_sha256 = runtime_layout_sha256;
  entry = 1;
  function_id = 0;
  parent_id = no_id;
  flags = 1;
  num_params = 0;
  nups = 0;
  is_vararg = 1;
  max_stack_size = 2;
  constants = some (λ id. if id == 0 then an_import else a_string);
  constant_count = 2;
  constant_items = some (λ index. record { key = 1; value = no_id });
  constant_item_count = 1;
  coverage_sites = none;
  coverage_site_count = 0;
  coverage_line_count = 0;
}

valid_aot_constants_iff_example :
    (valid_aot_constants 1000 a_metadata ≡ true) ↔ IsValidPool 1000 a_metadata
valid_aot_constants_iff_example = valid_aot_constants_iff 1000 a_metadata

a_word-valid : valid_word 0x40100000 ≡ true
unfolding valid_word
a_word-valid = refl

an_import-CarriesImport : CarriesImport a_metadata an_import (fresh_import 0x40100000)
unfolding fresh_import
an_import-CarriesImport = record {
  count = refl;
  inside = omega arith;
  first = record { key_id = refl; no_value = refl; inside = omega arith; string = refl };
  second = λ l. absurd (omega arith);
  third = λ l. absurd (omega arith);
}

aot_import_aux-fresh_import_example : aot_import_aux a_metadata an_import ≡ 0x40100000
aot_import_aux-fresh_import_example =
    aot_import_aux-fresh_import a_metadata an_import 0x40100000 a_word-valid an_import-CarriesImport
