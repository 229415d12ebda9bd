-- ===== src/Frontend/Constants/Named.antt =====
-- What the id of a constant says of the constant, and when the runtime accepts an item.
use luauc.Prelude.{
  ℕ, suc, ◌+◌, ◌≡◌, ◌⊎◌, inl, inr, refl, true, false, not, ◌&&◌, some, List, [], ◌∷◌, arith, length,
  get_elem?, Bool-cases,
}
use luauc.Prelude.Words.{no_id}
use luauc.Frontend.Imports.{ImportDescriptor}
use luauc.Runtime.Metadata.{
  ProtoMetadata, VmConstantItem, constant_at, materializable_scalar_constant_kind,
}
use luauc.Frontend.Constants.{
  Scalar, nil, boolean, number, integer, vector, string, compound, LoaderConstant, scalar, table,
  function, unknown, scalar_of, same_table_scalar, local_scalar_constant_id, TableItem,
  is_zero_number,
}

-- The kind that `serializeVmConstant` writes for a constant.
abbrev pub scalar_kind : Scalar → ℕ
scalar_kind nil = 0
scalar_kind (boolean b) = 1
scalar_kind (number bits) = 2
scalar_kind (vector lanes) = 3
scalar_kind (string text) = 4
scalar_kind (integer bits) = 5
scalar_kind compound = 9

abbrev pub constant_kind : LoaderConstant → ℕ
constant_kind (scalar value) = scalar_kind value
constant_kind (table t) = 7
constant_kind (function proto) = 8
constant_kind unknown = 9

-- The metadata of the proto has its constants, with the kinds that were written, and imports apart.
pub record IsPool (constants : List LoaderConstant) (imports : List ImportDescriptor)
    (metadata : ProtoMetadata) : Type 0 where
  pub count : metadata.constant_count ≡ length constants
  pub kinds :
      (i : ℕ) (constant : LoaderConstant) (import : ImportDescriptor)
      → get_elem? constants i ≡ some constant
      → get_elem? imports i ≡ some import
      → import.present ≡ false
      → (constant_at metadata i).kind ≡ constant_kind constant

-- Constant `id` is no import and has the value.
pub record Names (constants : List LoaderConstant) (imports : List ImportDescriptor) (id : ℕ)
    (wanted : Scalar) : Type 0 where
  pub constant : LoaderConstant
  pub import : ImportDescriptor
  pub at_id : get_elem? constants id ≡ some constant
  pub import_at : get_elem? imports id ≡ some import
  pub absent : import.present ≡ false
  pub same : same_table_scalar (scalar_of constant) wanted ≡ true

pub local_scalar_constant_id-from :
    (index id : ℕ) (constants : List LoaderConstant) (imports : List ImportDescriptor)
    (wanted : Scalar)
    → local_scalar_constant_id index constants imports wanted ≡ some id
    → (i : ℕ) × (id ≡ index + i) × Names constants imports i wanted
unfolding local_scalar_constant_id
local_scalar_constant_id-from index id [] imports wanted h = cc
local_scalar_constant_id-from index id (c ∷ constants) [] wanted h = cc
local_scalar_constant_id-from index id (c ∷ constants) (d ∷ imports) wanted h =
    elim (Bool-cases (not d.present && same_table_scalar (scalar_of c) wanted)) [
      | inl e ↦ (
        0,
        ground (arith, e),
        record {
          constant = c;
          import = d;
          at_id = refl;
          import_at = refl;
          absent = ground (arith, e);
          same = ground (arith, e);
        },
      )
      | inr e ↦
          let (i, at, n) =
            local_scalar_constant_id-from (index + 1) id constants imports wanted
              (ground (arith, e)) in
          (
            suc i,
            omega (arith, at),
            record {
              constant = n.constant;
              import = n.import;
              at_id = n.at_id;
              import_at = n.import_at;
              absent = n.absent;
              same = n.same;
            },
          )
    ]

pub local_scalar_constant_id-Names :
    (constants : List LoaderConstant) (imports : List ImportDescriptor) (wanted : Scalar) (id : ℕ)
    → local_scalar_constant_id 0 constants imports wanted ≡ some id
    → Names constants imports id wanted
local_scalar_constant_id-Names constants imports wanted id h =
    let (i, at, n) = local_scalar_constant_id-from 0 id constants imports wanted h in
    let same : i ≡ id = omega (arith, at) in rw (← same) n

-- A constant that has the value of a string is a string, and one that has a serializable value is scalar.
pub string_kind :
    (constant : LoaderConstant) (text : List ℕ)
    → same_table_scalar (scalar_of constant) (string text) ≡ true
    → constant_kind constant ≡ 4
unfolding same_table_scalar
string_kind (scalar nil) text h = cc
string_kind (scalar (boolean b)) text h = cc
string_kind (scalar (number bits)) text h = cc
string_kind (scalar (integer bits)) text h = cc
string_kind (scalar (vector lanes)) text h = cc
string_kind (scalar (string other)) text h = refl
string_kind (scalar compound) text h = cc
string_kind (table t) text h = cc
string_kind (function proto) text h = cc
string_kind unknown text h = cc

pub same_table_scalar-compound : (wanted : Scalar) → same_table_scalar compound wanted ≡ false
unfolding same_table_scalar
same_table_scalar-compound wanted = refl

pub scalar_kinds :
    (constant : LoaderConstant) (wanted : Scalar)
    → same_table_scalar (scalar_of constant) wanted ≡ true
    → materializable_scalar_constant_kind (constant_kind constant) ≡ true
unfolding materializable_scalar_constant_kind
scalar_kinds (scalar nil) wanted h = refl
scalar_kinds (scalar (boolean b)) wanted h = refl
scalar_kinds (scalar (number bits)) wanted h = refl
scalar_kinds (scalar (integer bits)) wanted h = refl
scalar_kinds (scalar (vector lanes)) wanted h = refl
scalar_kinds (scalar (string other)) wanted h = refl
scalar_kinds (scalar compound) wanted h =
    absurd (ground (arith, h, same_table_scalar-compound wanted))
scalar_kinds (table t) wanted h = absurd (ground (arith, h, same_table_scalar-compound wanted))
scalar_kinds (function proto) wanted h =
    absurd (ground (arith, h, same_table_scalar-compound wanted))
scalar_kinds unknown wanted h = absurd (ground (arith, h, same_table_scalar-compound wanted))

-- The runtime's view of an item.
abbrev pub runtime_item : TableItem → VmConstantItem
runtime_item item = record { key = item.key; value = item.value }

-- The item is that of an entry: its key names the text, and its value names the value, or is `no_id` in
-- place of the number zero.
abbrev pub IsItem :
    List LoaderConstant → List ImportDescriptor → List ℕ → Scalar → TableItem → Type 0
IsItem constants imports text value item =
    Names constants imports item.key (string text)
    × (Names constants imports item.value value
        ⊎ ((item.value ≡ no_id) × (is_zero_number value ≡ true)))
