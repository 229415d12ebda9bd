-- ===== src/Runtime/Program.antt =====
-- `luauc_runtime_v1_push_program` of runtime/src/call_frame.cpp: the validation of a linked
-- program, and the forest of protos that it builds, with their sources and their children.
pub mod Validation
pub mod Sources
pub mod Children
pub mod Build
pub mod Templates
pub mod Answers
mod Runs
use luauc.Prelude.{
  ℕ, zero, suc, ◌+◌, ◌-◌, ◌≡◌, Bool, true, false, not, ◌&&◌, ◌||◌, Option, none, some, List, [],
  ◌∷◌, arith, ltb, leb, ◌==◌, if◌then◌else◌, length, get_or, set, replicate, map,
}
use luauc.Prelude.Words.{int_max, no_id}
use luauc.Runtime.Metadata.{
  ProtoMetadata, ModuleMetadata, is_null, at, for_all, same_layout, runtime_layout_sha256,
  valid_aot_proto, valid_aot_module, aot_abi,
}

-- `LuaucRuntimeProgramV1`
pub record ProgramMetadata : Type 0 where
  pub abi_version : ℕ
  pub struct_size : ℕ
  pub layout_sha256 : List ℕ
  pub protos : Option (ℕ → ProtoMetadata)
  pub proto_count : ℕ
  pub root_proto_id : ℕ
  pub flags : ℕ
  pub modules : Option (ℕ → ModuleMetadata)
  pub module_count : ℕ
  pub entry_module_id : ℕ

abbrev pub aot_program_size : ℕ
aot_program_size = 68

abbrev pub aot_program_legacy_size : ℕ
aot_program_legacy_size = 56

-- `LUAUC_AOT_PROTO_V1_ROOT`
abbrev pub root_flag : ℕ
root_flag = 1

abbrev pub no_module : ModuleMetadata
no_module = record {
  abi_version = 0;
  struct_size = 0;
  layout_sha256 = [];
  module_id = 0;
  root_proto_id = 0;
  source_name = none;
  source_name_size = 0;
}

abbrev pub no_proto : ProtoMetadata
no_proto = record {
  abi_version = 0;
  struct_size = 0;
  layout_sha256 = [];
  entry = 0;
  function_id = 0;
  parent_id = 0;
  flags = 0;
  num_params = 0;
  nups = 0;
  is_vararg = 0;
  max_stack_size = 0;
  constants = none;
  constant_count = 0;
  constant_items = none;
  constant_item_count = 0;
  coverage_sites = none;
  coverage_site_count = 0;
  coverage_line_count = 0;
}

abbrev pub proto_at : ProgramMetadata → ℕ → ProtoMetadata
proto_at program id = at no_proto program.protos id

abbrev pub module_at : ProgramMetadata → ℕ → ModuleMetadata
module_at program id = at no_module program.modules id

abbrev pub module_root : ProgramMetadata → ℕ → ℕ
module_root program id = (module_at program id).root_proto_id

-- `hasExtendedProgram ? program->module_count : 0`
unfoldable pub used_modules : ProgramMetadata → ℕ
used_modules program = if program.struct_size == aot_program_size then program.module_count else 0

-- The caller's chunk name: `!source || sourceSize == 0`.
unfoldable pub no_source : Option (List ℕ) → Bool
no_source none = true
no_source (some []) = true
no_source (some (b ∷ bs)) = false

unfoldable pub valid_header : Option (List ℕ) → ProgramMetadata → Bool
valid_header source program = not (
    no_source source
    || is_null program.protos
    || not (program.abi_version == aot_abi)
    || (not (program.struct_size == aot_program_size)
        && not (program.struct_size == aot_program_legacy_size))
    || program.proto_count == 0
    || ltb int_max program.proto_count
    || leb program.proto_count program.root_proto_id
    || not (program.flags == 0)
    || not (same_layout program.layout_sha256 runtime_layout_sha256))

unfoldable pub valid_module_table : ProgramMetadata → Bool
unfolding used_modules
valid_module_table program = not (
    (used_modules program == 0
      && program.struct_size == aot_program_size
      && (not (is_null program.modules) || not (program.entry_module_id == 0)))
    || (not (used_modules program == 0)
        && (is_null program.modules
            || ltb (int_max - 8) (used_modules program)
            || leb (used_modules program) program.entry_module_id)))

-- The module at `id`, whose root stands behind that of the module before it.
unfoldable pub valid_module_at : ProgramMetadata → ℕ → Bool
valid_module_at program id =
    valid_aot_module (module_at program id)
    && (module_at program id).module_id == id
    && ltb (module_root program id) program.proto_count
    && not (
        (id == 0 && not (module_root program id == 0))
        || (not (id == 0) && leb (module_root program id) (module_root program (id - 1))))

unfoldable pub valid_modules : ProgramMetadata → Bool
valid_modules program =
    if used_modules program == 0
    then true
    else for_all (used_modules program) 0 (valid_module_at program)
      && program.root_proto_id == module_root program program.entry_module_id

-- The inner loop over the modules: does one of them have the root `id`?
pub is_module_root : ProgramMetadata → ℕ → ℕ → ℕ → Bool → Bool
is_module_root program zero module_id id found = found
is_module_root program (suc rounds) module_id id found =
    is_module_root program rounds (module_id + 1) id (found || module_root program module_id == id)

unfoldable pub is_root : ProgramMetadata → ℕ → Bool
is_root program id =
    if used_modules program == 0
    then id == program.root_proto_id
    else is_module_root program (used_modules program) 0 id false

unfoldable pub valid_proto_at : ℕ → ProgramMetadata → ℕ → Bool
valid_proto_at max_string program id =
    let metadata = proto_at program id in
    let root = is_root program id in
    valid_aot_proto max_string (some metadata)
    && metadata.function_id == id
    && metadata.flags == (if root then root_flag else 0)
    && not (root && not (metadata.nups == 0))
    && (if root then metadata.parent_id == no_id else ltb metadata.parent_id id)

-- Every test up to the first effect on the virtual machine.
unfoldable pub valid_program : ℕ → Option (List ℕ) → ProgramMetadata → Bool
valid_program max_string source program =
    valid_header source program
    && valid_module_table program
    && valid_modules program
    && for_all program.proto_count 0 (valid_proto_at max_string program)

-- The name of a chunk: the caller's, or that of a module.
pub data SourceName : Type 0 where
  given : SourceName
  of_module : ℕ → SourceName

pub data PushError : Type 0 where
  no_owning_module : ℕ → PushError
  unpublished_source : PushError
  child_limit : PushError
  not_direct_child : ℕ → PushError
  unbalanced_import : ℕ → PushError

-- The protos' names in order, with the modules seen, or the error.
pub data Naming : Type 0 where
  named : List SourceName → ℕ → Naming
  nameless : PushError → Naming

abbrev pub named_first : SourceName → Naming → Naming
named_first name (named names seen) = named (name ∷ names) seen
named_first name (nameless error) = nameless error

-- `sourceModuleId < moduleCount && modules[sourceModuleId].root_proto_id == id`
unfoldable pub starts_module : ProgramMetadata → ℕ → ℕ → Bool
starts_module program source_module_id id =
    not (used_modules program == 0)
    && ltb source_module_id (used_modules program)
    && module_root program source_module_id == id

-- The loop over the protos that picks the source names, by the rounds that are left.
pub name_loop : ProgramMetadata → ℕ → ℕ → ℕ → Option SourceName → Naming
name_loop program zero id seen name = named [] seen
name_loop program (suc rounds) id seen name =
    let fresh = name_loop program rounds (id + 1) (seen + 1) (some (of_module seen)) in
    let kept = name_loop program rounds (id + 1) seen name in
    if starts_module program seen id
    then named_first (of_module seen) fresh
    else (elim name [ none ↦ nameless (no_owning_module id) | some s ↦ named_first s kept ])

unfoldable pub name_protos : ProgramMetadata → Naming
name_protos program =
    name_loop program program.proto_count 0 0
      (if used_modules program == 0 then some given else none)

-- `childCounts[parent]++` for each proto with a parent.
pub count_loop : ProgramMetadata → ℕ → ℕ → List ℕ → List ℕ
count_loop program zero id counts = counts
count_loop program (suc rounds) id counts =
    let parent = (proto_at program id).parent_id in
    count_loop program rounds (id + 1)
      (if parent == no_id then counts else set counts parent (get_or counts parent 0 + 1))

-- The loop that fills the arrays of children: `protos[parent]->p[childCounts[parent]++] =
-- protos[id]`.
pub fill_loop : ProgramMetadata → ℕ → ℕ → List ℕ → List (List (Option ℕ)) → List (List (Option ℕ))
fill_loop program zero id counts children = children
fill_loop program (suc rounds) id counts children =
    let parent = (proto_at program id).parent_id in
    let slot = get_or counts parent 0 in
    fill_loop program rounds (id + 1)
      (if parent == no_id then counts else set counts parent (slot + 1))
      (if parent == no_id
        then children
        else set children parent (set (get_or children parent []) slot (some id)))

unfoldable pub child_counts : ProgramMetadata → List ℕ
child_counts program = count_loop program program.proto_count 0 (replicate program.proto_count 0)

-- The loop over the protos that allocates an array of the counted size, not yet written, and then
-- clears the count: `childCounts[id] = 0`.
pub allocate_loop : List ℕ → List (List (Option ℕ)) × List ℕ
allocate_loop [] = ([], [])
allocate_loop (count ∷ counts) =
    let (children, cleared) = allocate_loop counts in (replicate count none ∷ children, 0 ∷ cleared)

-- The arrays, filled from the counts that the allocation has cleared.
unfoldable pub child_arrays : ProgramMetadata → List (List (Option ℕ))
child_arrays program =
    let (children, cleared) = allocate_loop (child_counts program) in
    fill_loop program program.proto_count 0 cleared children
