-- ===== src/Frontend/Constants.antt =====
-- The constants of a proto in the snapshot, of frontend/frontend_adapter.cpp: `sameTableScalar`,
-- `localScalarConstantId`, `serializeTableConstant` and `serializeVmConstant`. A constant of the virtual
-- machine is seen by its type and its bits; a failed serialisation drops the sections with the snapshot.
mod Named
mod Sorted
mod Templates
mod Kinds
mod Runs
pub mod Records
use luauc.Prelude.{
  ℕ, zero, suc, ◌+◌, ◌*◌, ◌%◌, ◌^◌, Bool, true, false, not, ◌&&◌, ◌||◌, Option, none, some, List,
  [], ◌∷◌, arith, ltb, leb, ◌==◌, if◌then◌else◌, length, set, take,
}
use luauc.Prelude.Words.{uint32_max, no_id}
use luauc.Frontend.Wire.{
  SectionData, StringTable, append_record, record_count, put_u32, put_u64, same_bytes, intern,
  max_strings, max_snapshot_bytes,
}
use luauc.Frontend.Imports.{ImportDescriptor}
use luauc.Frontend.Protos.{ProtoRef, proto_id}

-- A number, an integer and the lanes of a vector are seen by their bits.
pub data Scalar : Type 0 where
  nil : Scalar
  boolean : Bool → Scalar
  number : ℕ → Scalar
  integer : ℕ → Scalar
  vector : List ℕ → Scalar
  string : List ℕ → Scalar
  compound : Scalar

-- The key of a table's node: none, a dead one, a string, or another value.
pub data NodeKey : Type 0 where
  no_key dead_key : NodeKey
  string_key : List ℕ → NodeKey
  other_key : NodeKey

pub record LuaNode : Type 0 where
  pub key : NodeKey
  pub val : Scalar

pub record LoaderTable : Type 0 where
  pub metatable : Bool
  pub sizearray : ℕ
  pub has_node : Bool
  pub lsizenode : ℕ
  pub node : List LuaNode

pub data LoaderConstant : Type 0 where
  scalar : Scalar → LoaderConstant
  table : LoaderTable → LoaderConstant
  function : ℕ → LoaderConstant
  unknown : LoaderConstant

abbrev pub scalar_of : LoaderConstant → Scalar
scalar_of (scalar value) = value
scalar_of _ = compound

unfoldable pub is_serializable_table_scalar : Scalar → Bool
is_serializable_table_scalar compound = false
is_serializable_table_scalar _ = true

abbrev pub same_bool : Bool → Bool → Bool
same_bool true b = b
same_bool false b = not b

unfoldable pub same_table_scalar : Scalar → Scalar → Bool
same_table_scalar nil nil = true
same_table_scalar (boolean a) (boolean b) = same_bool a b
same_table_scalar (number a) (number b) = a == b
same_table_scalar (integer a) (integer b) = a == b
same_table_scalar (vector a) (vector b) = same_bytes a b
same_table_scalar (string a) (string b) = same_bytes a b
same_table_scalar _ _ = false

-- The index of the first constant that is no import and has the value, counted from `index`; there is an
-- import descriptor for each constant.
unfoldable pub local_scalar_constant_id :
    ℕ → List LoaderConstant → List ImportDescriptor → Scalar → Option ℕ
local_scalar_constant_id index [] imports wanted = none
local_scalar_constant_id index (constant ∷ constants) [] wanted = none
local_scalar_constant_id index (constant ∷ constants) (import ∷ imports) wanted =
    let later = local_scalar_constant_id (index + 1) constants imports wanted in
    if not import.present && same_table_scalar (scalar_of constant) wanted
    then some index
    else later

pub record TableItem : Type 0 where
  pub key : ℕ
  pub value : ℕ

-- `nvalue(&node.val) == 0.0`: the bits of zero with either sign.
unfoldable pub is_zero_number : Scalar → Bool
is_zero_number (number bits) = bits == 0 || bits == 2 ^ 63
is_zero_number _ = false

pub data NodeResult : Type 0 where
  skipped rejected : NodeResult
  entry : TableItem → NodeResult

-- The item of a node with a string key.
unfoldable pub keyed_item :
    List LoaderConstant → List ImportDescriptor → List ℕ → Scalar → NodeResult
keyed_item constants imports text value =
    elim (local_scalar_constant_id 0 constants imports (string text)) [
      | none ↦ rejected
      | some key ↦
          if not (is_serializable_table_scalar value)
          then rejected
          else (elim (local_scalar_constant_id 0 constants imports value) [
            | some id ↦ entry (record { key = key; value = id })
            | none ↦
                if is_zero_number value
                then entry (record { key = key; value = no_id })
                else rejected
          ])
    ]

unfoldable pub node_item : List LoaderConstant → List ImportDescriptor → LuaNode → NodeResult
node_item constants imports node = elim node.key [
  | no_key ↦ skipped
  | dead_key ↦ rejected
  | other_key ↦ rejected
  | string_key text ↦ keyed_item constants imports text node.val
]

abbrev pub add_result : NodeResult → Option (List TableItem) → Option (List TableItem)
add_result skipped rest = rest
add_result rejected rest = none
add_result (entry item) none = none
add_result (entry item) (some items) = some (item ∷ items)

-- The loop over the nodes.
unfoldable pub node_items :
    List LoaderConstant → List ImportDescriptor → List LuaNode → Option (List TableItem)
node_items constants imports [] = some []
node_items constants imports (node ∷ nodes) =
    add_result (node_item constants imports node) (node_items constants imports nodes)

-- `std::sort` by key.
unfoldable pub insert_item : TableItem → List TableItem → List TableItem
insert_item item [] = item ∷ []
insert_item item (first ∷ rest) =
    let later = insert_item item rest in
    if leb item.key first.key then item ∷ first ∷ rest else first ∷ later

unfoldable pub sort_items : List TableItem → List TableItem
sort_items [] = []
sort_items (item ∷ items) = insert_item item (sort_items items)

unfoldable pub has_duplicate : List TableItem → Bool
has_duplicate [] = false
has_duplicate (item ∷ []) = false
has_duplicate (item ∷ next ∷ items) =
    let later = has_duplicate (next ∷ items) in if item.key == next.key then true else later

unfoldable pub supported_shape : LoaderTable → Bool
supported_shape t =
    not (t.metatable || not (t.sizearray == 0) || not t.has_node || leb 31 t.lsizenode)
    && not (ltb max_strings (2 ^ t.lsizenode))

-- The items of a table constant, or an error.
unfoldable pub table_items :
    List LoaderConstant → List ImportDescriptor → LoaderTable → Option (List TableItem)
table_items constants imports t =
    if not (supported_shape t) then none else (elim (node_items constants imports t.node) [
      | none ↦ none
      | some items ↦ if has_duplicate (sort_items items) then none else some (sort_items items)
    ])
