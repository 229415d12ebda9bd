-- ===== src/Runtime/Program/Runs.antt =====
-- The theorems on pushed programs at a concrete one: two modules, the first with one inner function.
use luauc.Prelude.{
  ℕ, ◌<◌, ◌≡◌, refl, true, false, none, some, [], ◌∷◌, arith, map, get_or, ◌==◌, if◌then◌else◌,
}
use luauc.Prelude.Words.{no_id}
use luauc.Runtime.Metadata.{
  ProtoMetadata, ModuleMetadata, runtime_layout_sha256, same_layout, for_all, valid_aot_constants,
  valid_proto_head, valid_proto_coverage, valid_aot_proto, valid_aot_module,
}
use luauc.Runtime.Program.{
  ProgramMetadata, no_source, used_modules, valid_header, valid_module_table, valid_module_at,
  valid_modules, is_module_root, is_root, valid_proto_at, valid_program, name_protos, child_arrays,
}
use luauc.Runtime.Program.Build.{Machine}
use luauc.Runtime.Program.Answers.{Answers}
use luauc.Runtime.Metadata.Kind
use luauc.Runtime.Program.Sources.{Finishes, name_protos-Finishes}
use luauc.Runtime.Program.Children.{
  children_from, Descends, child_arrays-children_from, valid_program-Descends,
}

-- Protos 0 and 2 are roots, and proto 1 is a child of proto 0.
abbrev proto : ℕ → ProtoMetadata
proto id = record {
  abi_version = 1;
  struct_size = 88;
  layout_sha256 = runtime_layout_sha256;
  entry = 1;
  function_id = id;
  parent_id = if id == 1 then 0 else no_id;
  flags = if id == 1 then 0 else 1;
  num_params = 0;
  nups = 0;
  is_vararg = 1;
  max_stack_size = 2;
  constants = none;
  constant_count = 0;
  constant_items = none;
  constant_item_count = 0;
  coverage_sites = none;
  coverage_site_count = 0;
  coverage_line_count = 0;
}

abbrev a_module : ℕ → ModuleMetadata
a_module id = record {
  abi_version = 1;
  struct_size = 56;
  layout_sha256 = runtime_layout_sha256;
  module_id = id;
  root_proto_id = if id == 0 then 0 else 2;
  source_name = some (λ index. 64);
  source_name_size = 5;
}

abbrev a_program : ProgramMetadata
a_program = record {
  abi_version = 1;
  struct_size = 68;
  layout_sha256 = runtime_layout_sha256;
  protos = some proto;
  proto_count = 3;
  root_proto_id = 0;
  flags = 0;
  modules = some a_module;
  module_count = 2;
  entry_module_id = 0;
}

a_program-valid : valid_program 1000 (some (64 ∷ [])) a_program ≡ true
unfolding valid_program valid_header no_source valid_module_table valid_modules valid_module_at
    valid_proto_at used_modules is_root is_module_root for_all valid_aot_module valid_aot_proto
    valid_proto_head valid_proto_coverage valid_aot_constants same_layout
a_program-valid = refl

a_program-modules : 0 < used_modules a_program
unfolding used_modules
a_program-modules = omega arith

name_protos-Finishes_example : Finishes a_program 3 0 (name_protos a_program)
name_protos-Finishes_example =
    name_protos-Finishes 1000 (some (64 ∷ [])) a_program a_program-valid a_program-modules

child_arrays-children_from_example :
    get_or (child_arrays a_program) 0 [] ≡ map some (children_from a_program 3 0 0)
child_arrays-children_from_example =
    child_arrays-children_from 1000 (some (64 ∷ [])) a_program a_program-valid 0 (omega arith)

valid_program-Descends_example : Descends a_program 1
valid_program-Descends_example =
    valid_program-Descends 1000 (some (64 ∷ [])) a_program 1 a_program-valid (omega arith)

-- The root proto has a closure constant that names itself, which is no child of it.
abbrev stray_program : ProgramMetadata
stray_program = record a_program {
  protos = some (λ id. record (proto id) {
    constants =
        if id == 0
        then some (λ index. record {
          kind = Kind.closure;
          reserved0 = 0;
          reserved1 = 0;
          reserved2 = 0;
          payload0 = 0;
          payload1 = 0;
          payload2 = 0;
        })
        else none;
    constant_count = if id == 0 then 1 else 0;
  });
}

abbrev a_machine : Machine
a_machine = record {
  foreign_destroy = false;
  stack_room = λ slots. true;
  published = false;
  safe_env = true;
  balanced = λ proto constant. true;
}
