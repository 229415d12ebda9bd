-- ===== src/Runtime/Metadata.antt =====
-- The immutable metadata that the linker emits, and its validation in runtime/src/call_frame.cpp:
-- `validAotConstants`, `validAotProto`, `validAotModule`, `aotImportAux`.
-- A pointer to an array is `none` when it is null, and otherwise the memory behind it.
pub mod Kind
pub mod Constants
pub mod Imports
mod Runs
use Prim.Native.Nat.{bit_or}
use Kind
use luauc.Prelude.{
  ℕ, zero, suc, ◌+◌, ◌-◌, ◌*◌, ◌%◌, ◌^◌, ◌≡◌, Bool, true, false, not, ◌&&◌, ◌||◌, Option, none,
  some, List, [], ◌∷◌, arith, ltb, leb, ◌==◌, if◌then◌else◌, length,
}
use luauc.Prelude.Words.{int_max, uint32_max, no_id}

-- `LuaucRuntimeVmConstantV1`
pub record VmConstant : Type 0 where
  pub kind : ℕ
  pub reserved0 : ℕ
  pub reserved1 : ℕ
  pub reserved2 : ℕ
  pub payload0 : ℕ
  pub payload1 : ℕ
  pub payload2 : ℕ

-- `LuaucRuntimeVmConstantItemV1`
pub record VmConstantItem : Type 0 where
  pub key : ℕ
  pub value : ℕ

-- `LuaucRuntimeCoverageSiteV1`
pub record CoverageSite : Type 0 where
  pub line : ℕ
  pub reserved : ℕ

-- `LuaucRuntimeProtoV1`. `entry` is the function's index in the table, 0 for none.
pub record ProtoMetadata : Type 0 where
  pub abi_version : ℕ
  pub struct_size : ℕ
  pub layout_sha256 : List ℕ
  pub entry : ℕ
  pub function_id : ℕ
  pub parent_id : ℕ
  pub flags : ℕ
  pub num_params : ℕ
  pub nups : ℕ
  pub is_vararg : ℕ
  pub max_stack_size : ℕ
  pub constants : Option (ℕ → VmConstant)
  pub constant_count : ℕ
  pub constant_items : Option (ℕ → VmConstantItem)
  pub constant_item_count : ℕ
  pub coverage_sites : Option (ℕ → CoverageSite)
  pub coverage_site_count : ℕ
  pub coverage_line_count : ℕ

-- `LuaucRuntimeModuleV1`
pub record ModuleMetadata : Type 0 where
  pub abi_version : ℕ
  pub struct_size : ℕ
  pub layout_sha256 : List ℕ
  pub module_id : ℕ
  pub root_proto_id : ℕ
  pub source_name : Option (ℕ → ℕ)
  pub source_name_size : ℕ

abbrev pub aot_abi : ℕ
aot_abi = 1

abbrev pub aot_proto_size : ℕ
aot_proto_size = 88

abbrev pub aot_module_size : ℕ
aot_module_size = 56

abbrev pub is_null {ℓ} : {A : Type ℓ} → Option A → Bool
is_null none = true
is_null (some a) = false

-- `pointer[index]`; a null pointer is never read where the source guards it by the count.
abbrev pub at {ℓ} : {A : Type ℓ} → A → Option (ℕ → A) → ℕ → A
at a none index = a
at a (some pointer) index = pointer index

abbrev pub no_constant : VmConstant
no_constant = record {
  kind = 0;
  reserved0 = 0;
  reserved1 = 0;
  reserved2 = 0;
  payload0 = 0;
  payload1 = 0;
  payload2 = 0;
}

abbrev pub constant_at : ProtoMetadata → ℕ → VmConstant
constant_at metadata id = at no_constant metadata.constants id

abbrev pub item_at : ProtoMetadata → ℕ → VmConstantItem
item_at metadata index = at (record { key = 0; value = 0 }) metadata.constant_items index

abbrev pub site_at : ProtoMetadata → ℕ → CoverageSite
site_at metadata id = at (record { line = 0; reserved = 0 }) metadata.coverage_sites id

-- `for (index = start; index < start + rounds; ++index) if (!test(index)) return false; return true;`
unfoldable pub for_all : ℕ → ℕ → (ℕ → Bool) → Bool
for_all zero start test = true
for_all (suc rounds) start test = test start && for_all rounds (start + 1) test

unfoldable pub same_layout : List ℕ → List ℕ → Bool
same_layout [] [] = true
same_layout [] (b ∷ bs) = false
same_layout (a ∷ as') [] = false
same_layout (a ∷ as') (b ∷ bs) = a == b && same_layout as' bs

unfoldable pub materializable_scalar_constant_kind : ℕ → Bool
materializable_scalar_constant_kind kind =
    kind == Kind.nil
    || kind == Kind.boolean
    || kind == Kind.number
    || kind == Kind.vector
    || kind == Kind.string
    || kind == Kind.integer

-- One entry of a table constant: a string key, and a scalar value or none.
unfoldable pub valid_item : ProtoMetadata → VmConstantItem → Bool
valid_item metadata item =
    if leb metadata.constant_count item.key
      || not ((constant_at metadata item.key).kind == Kind.string)
    then false
    else not (
        not (item.value == no_id)
        && (leb metadata.constant_count item.value
            || not (materializable_scalar_constant_kind (constant_at metadata item.value).kind)))

-- The body of the loop over the constants; `true` goes on with the next. `max_string` is the
-- virtual machine's `MAXSSIZE`.
unfoldable pub valid_constant : ℕ → ProtoMetadata → VmConstant → Bool
valid_constant max_string metadata constant =
    if not (constant.reserved0 == 0)
      || not (constant.reserved1 == 0)
      || not (constant.reserved2 == 0)
      || ltb Kind.class_shape constant.kind
    then false
    else if constant.kind == Kind.boolean && ltb 1 constant.payload0
    then false
    else if constant.kind == Kind.string
        && (ltb max_string constant.payload1
            || (not (constant.payload1 == 0) && constant.payload0 == 0))
    then false
    else if not (constant.kind == Kind.table)
    then true
    else if ltb int_max constant.payload1
        || ltb metadata.constant_item_count constant.payload0
        || ltb (metadata.constant_item_count - constant.payload0) constant.payload1
    then false
    else for_all constant.payload1 0
        (λ offset. valid_item metadata (item_at metadata (constant.payload0 + offset)))

abbrev pub differ : Bool → Bool → Bool
differ true b = not b
differ false b = b

unfoldable pub valid_aot_constants : ℕ → ProtoMetadata → Bool
valid_aot_constants max_string metadata =
    if differ (is_null metadata.constants) (metadata.constant_count == 0)
      || differ (is_null metadata.constant_items) (metadata.constant_item_count == 0)
      || ltb int_max metadata.constant_count
      || ltb int_max metadata.constant_item_count
    then false
    else for_all metadata.constant_count 0
        (λ id. valid_constant max_string metadata (constant_at metadata id))

unfoldable pub valid_site : ProtoMetadata → CoverageSite → Bool
valid_site metadata site = site.reserved == 0 && ltb site.line metadata.coverage_line_count

-- `luauc_runtime_v1_layout_sha256`
abbrev pub runtime_layout_sha256 : List ℕ
runtime_layout_sha256 =
    0x42 ∷ 0x5d ∷ 0x38 ∷ 0xd7 ∷ 0x5e ∷ 0xf9 ∷ 0xf4 ∷ 0xe2 ∷ 0x66 ∷ 0x93 ∷ 0xa6 ∷ 0x90 ∷ 0xe0 ∷ 0x85
    ∷ 0x7f ∷ 0x90 ∷ 0x2a ∷ 0xa7 ∷ 0x6f ∷ 0x1c ∷ 0x18 ∷ 0x56 ∷ 0x19 ∷ 0x6a ∷ 0xc3 ∷ 0x0d ∷ 0xc6
    ∷ 0x23 ∷ 0x6e ∷ 0xa4 ∷ 0xc4 ∷ 0x96 ∷ []

-- What `validAotProto` asks before it looks at the coverage sites.
unfoldable pub valid_proto_head : ℕ → ProtoMetadata → Bool
valid_proto_head max_string metadata = not (
    not (metadata.abi_version == aot_abi)
    || not (metadata.struct_size == aot_proto_size)
    || metadata.entry == 0
    || ltb metadata.max_stack_size metadata.num_params
    || ltb 1 metadata.is_vararg
    || not (valid_aot_constants max_string metadata)
    || not (same_layout metadata.layout_sha256 runtime_layout_sha256))

unfoldable pub valid_proto_coverage : ProtoMetadata → Bool
valid_proto_coverage metadata =
    if differ (is_null metadata.coverage_sites) (metadata.coverage_site_count == 0)
      || differ (metadata.coverage_site_count == 0) (metadata.coverage_line_count == 0)
      || ltb int_max metadata.coverage_site_count
      || ltb int_max metadata.coverage_line_count
    then false
    else for_all metadata.coverage_site_count 0 (λ id. valid_site metadata (site_at metadata id))

unfoldable pub valid_aot_proto : ℕ → Option ProtoMetadata → Bool
valid_aot_proto max_string none = false
valid_aot_proto max_string (some metadata) =
    if valid_proto_head max_string metadata then valid_proto_coverage metadata else false

unfoldable pub valid_aot_module : ModuleMetadata → Bool
valid_aot_module module' =
    module'.abi_version == aot_abi
    && module'.struct_size == aot_module_size
    && not (is_null module'.source_name)
    && ltb 1 module'.source_name_size
    && leb module'.source_name_size int_max
    && (at 0 module'.source_name 0 == b'@' || at 0 module'.source_name 0 == b'=')
    && same_layout module'.layout_sha256 runtime_layout_sha256

-- The loop of `aotImportAux`, by the rounds that are left; `none` is the early `return UINT32_MAX`.
pub import_aux_loop : ProtoMetadata → VmConstant → ℕ → ℕ → ℕ → Option ℕ
import_aux_loop metadata constant zero offset aux = some aux
import_aux_loop metadata constant (suc rounds) offset aux =
    let item = item_at metadata (constant.payload0 + offset) in
    let rest =
      import_aux_loop metadata constant rounds (offset + 1)
        (bit_or aux (item.key * 2 ^ (20 - offset * 10) % 2 ^ 32)) in
    if not (item.value == no_id)
      || leb 1024 item.key
      || leb metadata.constant_count item.key
      || not ((constant_at metadata item.key).kind == Kind.string)
    then none
    else rest

abbrev pub or_max : Option ℕ → ℕ
or_max none = uint32_max
or_max (some aux) = aux

unfoldable pub aot_import_aux : ProtoMetadata → VmConstant → ℕ
aot_import_aux metadata constant =
    if constant.payload1 == 0
      || ltb 3 constant.payload1
      || ltb metadata.constant_item_count constant.payload0
      || ltb (metadata.constant_item_count - constant.payload0) constant.payload1
    then uint32_max
    else or_max (
        import_aux_loop metadata constant constant.payload1 0 (constant.payload1 * 2 ^ 30 % 2 ^ 32))
