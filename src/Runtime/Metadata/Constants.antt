-- ===== src/Runtime/Metadata/Constants.antt =====
-- `validAotConstants` accepts exactly the constant pools that the runtime can materialise without a
-- read outside the pool or the items.
use luauc.Prelude.{
  ℕ, zero, suc, ◌+◌, ◌≤◌, ◌<◌, ◌≡◌, ◌↔◌, ◌⊎◌, inl, inr, refl, Bool, true, false, arith, ◌==◌,
  Bool-cases,
}
use luauc.Prelude.Words.{int_max, no_id}
use luauc.Runtime.Metadata.Kind
use luauc.Runtime.Metadata.{
  VmConstant, VmConstantItem, ProtoMetadata, is_null, constant_at, item_at, for_all, differ,
  materializable_scalar_constant_kind, valid_item, valid_constant, valid_aot_constants,
}

pub for_all→each :
    (rounds start : ℕ) (test : ℕ → Bool)
    → for_all rounds start test ≡ true
    → (i : ℕ) → start ≤ i
    → i < start + rounds
    → test i ≡ true
unfolding for_all
for_all→each zero start test h i l u = absurd (omega arith)
for_all→each (suc rounds) start test h i l u = elim (Bool-cases (start == i)) [
  | inl e ↦ let same : start ≡ i = ground arith in ground (arith, same)
  | inr e ↦ for_all→each rounds (start + 1) test (ground arith) i (ground arith) (omega arith)
]

pub each→for_all :
    (rounds start : ℕ) (test : ℕ → Bool)
    → ((i : ℕ) → start ≤ i → i < start + rounds → test i ≡ true)
    → for_all rounds start test ≡ true
unfolding for_all
each→for_all zero start test h = refl
each→for_all (suc rounds) start test h = ground (
  arith,
  h start (omega arith) (omega arith),
  each→for_all rounds (start + 1) test (λ i l u. h i (omega arith) (omega arith)),
)

module _ (metadata : ProtoMetadata) where
  -- A key among the string constants, and a scalar constant or none as the value.
  pub record IsValidItem (item : VmConstantItem) : Type 0 where
    pub key_inside : item.key < metadata.constant_count
    pub key_string : (constant_at metadata item.key).kind ≡ Kind.string
    pub value_scalar :
        (item.value ≡ no_id)
        ⊎ ((item.value < metadata.constant_count)
            × ((constant_at metadata item.value).kind ≤ Kind.integer))

  -- A slice of the items, each of them valid.
  pub record IsValidTable (constant : VmConstant) : Type 0 where
    pub few : constant.payload1 ≤ int_max
    pub inside : constant.payload0 + constant.payload1 ≤ metadata.constant_item_count
    pub items :
        (offset : ℕ)
        → offset < constant.payload1
        → IsValidItem (item_at metadata (constant.payload0 + offset))

  pub record IsValidConstant (max_string : ℕ) (constant : VmConstant) : Type 0 where
    pub reserved : (constant.reserved0 ≡ 0) × (constant.reserved1 ≡ 0) × (constant.reserved2 ≡ 0)
    pub known : constant.kind ≤ Kind.class_shape
    pub boolean : constant.kind ≡ Kind.boolean → constant.payload0 ≤ 1
    pub string :
        constant.kind ≡ Kind.string
        → (constant.payload1 ≤ max_string) × ((constant.payload1 ≡ 0) ⊎ (0 < constant.payload0))
    pub table : constant.kind ≡ Kind.table → IsValidTable constant

  valid_item-IsValidItem :
      (item : VmConstantItem) → valid_item metadata item ≡ true → IsValidItem item
  unfolding valid_item materializable_scalar_constant_kind
  valid_item-IsValidItem item h = record {
    key_inside = ground arith;
    key_string = ground arith;
    value_scalar = ground arith;
  }

  IsValidItem-valid_item :
      (item : VmConstantItem) → IsValidItem item → valid_item metadata item ≡ true
  unfolding valid_item materializable_scalar_constant_kind
  IsValidItem-valid_item item v = ground arith

  valid_constant-IsValidConstant :
      (max_string : ℕ) (constant : VmConstant)
      → valid_constant max_string metadata constant ≡ true
      → IsValidConstant max_string constant
  unfolding valid_constant
  valid_constant-IsValidConstant max_string constant h = record {
    reserved = (ground arith, ground arith, ground arith);
    known = ground arith;
    boolean = λ e. ground arith;
    string = λ e. (ground arith, ground arith);
    table = λ e. record {
      few = ground arith;
      inside = ground arith;
      items = λ offset l. valid_item-IsValidItem _ (
          for_all→each constant.payload1 0
            (λ offset. valid_item metadata (item_at metadata (constant.payload0 + offset)))
            (ground arith) offset (omega arith) (omega arith));
    };
  }

  IsValidConstant-valid_constant :
      (max_string : ℕ) (constant : VmConstant)
      → IsValidConstant max_string constant
      → valid_constant max_string metadata constant ≡ true
  unfolding valid_constant
  IsValidConstant-valid_constant max_string constant v =
      elim (Bool-cases (constant.kind == Kind.table)) [
        | inl e ↦
            let t = v.table (ground arith) in
            let items =
              each→for_all constant.payload1 0
                (λ offset. valid_item metadata (item_at metadata (constant.payload0 + offset)))
                (λ i l u. IsValidItem-valid_item _ (t.items i (omega arith))) in
            let is_table : constant.kind ≡ 7 = ground arith in
            ground (arith, is_table, t.few, t.inside, items)
        | inr e ↦ ground (arith, v.boolean, v.string)
      ]

-- A pool and a list of items that are null exactly when empty, and not too long.
pub record IsValidPool (max_string : ℕ) (metadata : ProtoMetadata) : Type 0 where
  pub constants_null : is_null metadata.constants ≡ (metadata.constant_count == 0)
  pub items_null : is_null metadata.constant_items ≡ (metadata.constant_item_count == 0)
  pub few_constants : metadata.constant_count ≤ int_max
  pub few_items : metadata.constant_item_count ≤ int_max
  pub each :
      (id : ℕ)
      → id < metadata.constant_count
      → IsValidConstant metadata max_string (constant_at metadata id)

differ-false : (a b : Bool) → differ a b ≡ false → a ≡ b
differ-false true true h = refl
differ-false true false h = cc
differ-false false true h = cc
differ-false false false h = refl

differ_same : (a b : Bool) → a ≡ b → differ a b ≡ false
differ_same true b h = ground arith
differ_same false b h = ground arith

module _ (max_string : ℕ) (metadata : ProtoMetadata) where
  abbrev test : ℕ → Bool
  test id = valid_constant max_string metadata (constant_at metadata id)

  valid_aot_constants-IsValidPool :
      valid_aot_constants max_string metadata ≡ true → IsValidPool max_string metadata
  unfolding valid_aot_constants
  valid_aot_constants-IsValidPool h = record {
    constants_null = differ-false _ _ (ground arith);
    items_null = differ-false _ _ (ground arith);
    few_constants = ground arith;
    few_items = ground arith;
    each = λ id l.
        valid_constant-IsValidConstant metadata max_string _ (
          for_all→each metadata.constant_count 0 test (ground arith) id (omega arith)
            (omega arith));
  }

  IsValidPool-valid_aot_constants :
      IsValidPool max_string metadata → valid_aot_constants max_string metadata ≡ true
  unfolding valid_aot_constants
  IsValidPool-valid_aot_constants v =
      let checked =
        each→for_all metadata.constant_count 0 test (λ i l u.
          IsValidConstant-valid_constant metadata max_string _ (v.each i (omega arith))) in
      ground (
        arith,
        checked,
        v.few_constants,
        v.few_items,
        differ_same _ _ v.constants_null,
        differ_same _ _ v.items_null,
      )

  -- The validation accepts exactly the well-formed pools: arrays null exactly when empty, counts below
  -- the limit, known kinds with clear reserved bytes, Boolean and string payloads in range, and tables
  -- whose slice lies in the items, with string keys of the pool and with scalar values of the pool or none.
  pub valid_aot_constants_iff :
      (valid_aot_constants max_string metadata ≡ true) ↔ IsValidPool max_string metadata
  valid_aot_constants_iff = (valid_aot_constants-IsValidPool, IsValidPool-valid_aot_constants)
