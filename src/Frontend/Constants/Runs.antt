-- ===== src/Frontend/Constants/Runs.antt =====
-- A table constant with one entry at a concrete pool of constants.
use luauc.Prelude.{
  replicate, ℕ, zero, suc, ◌≡◌, refl, true, false, some, none, [], ◌∷◌, List, get_elem?, arith,
  ◌==◌, if◌then◌else◌,
}
use luauc.Frontend.Wire.{SectionData, StringTable, same_bytes, append_record}
use luauc.Frontend.Imports.{ImportDescriptor, no_import}
use luauc.Runtime.Metadata.{ProtoMetadata, no_constant}
use luauc.Frontend.Constants.{
  number, string, no_key, string_key, LoaderTable, LoaderConstant, scalar, table, TableItem,
  same_table_scalar, local_scalar_constant_id, is_serializable_table_scalar, keyed_item, node_item,
  node_items, insert_item, sort_items, has_duplicate, supported_shape, table_items, boolean,
}
use luauc.Frontend.Constants.Records.{
  serialized, serialize_scalar, serialize_vm_constant, put_byte, put_word,
}
use luauc.Frontend.Constants.Kinds.{IsRecorded, serialize_vm_constant-IsRecorded}
use luauc.Frontend.Constants.Named.{constant_kind}
use luauc.Frontend.Constants.Named.{IsPool}
use luauc.Frontend.Constants.Templates.{IsTemplate, table_items-IsTemplate}

-- Two nodes: one with the key "a" and the number of the bits 9, and an empty one.
abbrev a_table : LoaderTable
a_table = record {
  metatable = false;
  sizearray = 0;
  has_node = true;
  lsizenode = 1;
  node =
      record { key = string_key (97 ∷ []); val = number 9 }
      ∷ record { key = no_key; val = number 0 }
      ∷ [];
}

abbrev some_constants : List LoaderConstant
some_constants = scalar (number 9) ∷ scalar (string (97 ∷ [])) ∷ table a_table ∷ []

abbrev no_imports : List ImportDescriptor
no_imports = no_import ∷ no_import ∷ no_import ∷ []

abbrev kind_at : ℕ → ℕ
kind_at i = if i == 0 then 2 else (if i == 1 then 4 else 7)

abbrev some_metadata : ProtoMetadata
some_metadata = record {
  abi_version = 1;
  struct_size = 88;
  layout_sha256 = [];
  entry = 1;
  function_id = 0;
  parent_id = 0;
  flags = 0;
  num_params = 0;
  nups = 0;
  is_vararg = 0;
  max_stack_size = 2;
  constants = some (λ i. record no_constant { kind = kind_at i });
  constant_count = 3;
  constant_items = none;
  constant_item_count = 0;
  coverage_sites = none;
  coverage_site_count = 0;
  coverage_line_count = 0;
}

kinds_of :
    (i : ℕ) (constant : LoaderConstant)
    → get_elem? some_constants i ≡ some constant
    → kind_at i ≡ constant_kind constant
kinds_of zero constant h = ground (arith, h)
kinds_of (suc zero) constant h = ground (arith, h)
kinds_of (suc (suc zero)) constant h = ground (arith, h)
kinds_of (suc (suc (suc i))) constant h = cc

some_metadata-IsPool : IsPool some_constants no_imports some_metadata
some_metadata-IsPool = record {
  count = refl;
  kinds = λ i constant import h g a. kinds_of i constant h;
}

abbrev one_item : List TableItem
one_item = record { key = 1; value = 0 } ∷ []

one_item-serialized : table_items some_constants no_imports a_table ≡ some one_item
unfolding table_items supported_shape node_items node_item keyed_item local_scalar_constant_id
    same_table_scalar same_bytes is_serializable_table_scalar sort_items insert_item has_duplicate
one_item-serialized = refl

table_items-IsTemplate_example : IsTemplate some_constants no_imports a_table some_metadata one_item
table_items-IsTemplate_example =
    table_items-IsTemplate some_constants no_imports a_table some_metadata one_item
      some_metadata-IsPool one_item-serialized

-- A section of constants with one record, and an empty one of items.
abbrev one_constant : SectionData
one_constant = record { kind = 6; record_size = 40; bytes = replicate 40 3 }

abbrev no_items : SectionData
no_items = record { kind = 7; record_size = 8; bytes = [] }

abbrev no_strings : StringTable
no_strings = record { records = no_items; bytes = no_items; values = []; failed = false }

abbrev two_constants : SectionData
two_constants = put_word (put_byte (append_record one_constant).0 40 1) 44 1

two_constants-written :
    serialize_vm_constant some_constants no_imports []
      (scalar (boolean true))
      none
      one_constant
      no_items
      no_strings
    ≡ serialized two_constants no_items no_strings
unfolding serialize_vm_constant serialize_scalar append_record
two_constants-written = refl

serialize_vm_constant-IsRecorded_example : IsRecorded 40 1 one_constant.bytes two_constants.bytes
serialize_vm_constant-IsRecorded_example =
    serialize_vm_constant-IsRecorded some_constants no_imports [] (scalar (boolean true)) none
      one_constant no_items two_constants no_items no_strings no_strings (omega arith)
      two_constants-written
