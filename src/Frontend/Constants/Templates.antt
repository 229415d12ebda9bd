-- ===== src/Frontend/Constants/Templates.antt =====
-- The items of a table constant name the entries of the table, and the runtime's validation accepts them.
use luauc.Prelude.{
  ℕ, ◌<◌, ◌≡◌, ◌≢◌, ◌⊎◌, inl, inr, refl, ap, ◌∙◌, true, Option, none, some, List, [], ◌∷◌, arith,
  All, get_elem?-lt, Option-cases,
}
use luauc.Prelude.Words.{no_id}
use luauc.Frontend.Imports.{ImportDescriptor}
use luauc.Runtime.Metadata.{
  ProtoMetadata, constant_at, valid_item, materializable_scalar_constant_kind,
}
use luauc.Frontend.Constants.{
  Scalar, string, NodeKey, no_key, dead_key, string_key, other_key, LuaNode, LoaderTable,
  LoaderConstant, local_scalar_constant_id, TableItem, NodeResult, skipped, rejected, entry,
  keyed_item, node_item, add_result, node_items, sort_items, table_items,
}
use luauc.Frontend.Constants.Named.{
  IsPool, Names, constant_kind, local_scalar_constant_id-Names, string_kind, scalar_kinds,
  runtime_item, IsItem,
}
use luauc.Frontend.Constants.Sorted.{
  IsIn, IsAscending, sort_items-IsIn, sort_items-All, sort_items-IsSorted, distinct-IsAscending,
}

-- Each node is empty, or has a string key and an item.
abbrev pub AreCovered :
    List LoaderConstant → List ImportDescriptor → List LuaNode → List TableItem → Type 0
AreCovered constants imports [] items = Unit
AreCovered constants imports (node ∷ nodes) items =
    ((node.key ≡ no_key)
      ⊎ ((text : List ℕ) × (item : TableItem) × (node.key ≡ string_key text)
          × IsIn item items
          × IsItem constants imports text node.val item))
    × AreCovered constants imports nodes items

abbrev AreValid : ProtoMetadata → List TableItem → Type 0
AreValid metadata items =
    All (λ (item : TableItem). valid_item metadata (runtime_item item) ≡ true) items

module _ (constants : List LoaderConstant) (imports : List ImportDescriptor) where
  keyed_item-IsItem :
      (text : List ℕ) (value : Scalar) (item : TableItem)
      → keyed_item constants imports text value ≡ entry item
      → IsItem constants imports text value item
  unfolding keyed_item
  keyed_item-IsItem text value item h =
      elim (Option-cases (local_scalar_constant_id 0 constants imports (string text))) [
        | inl n ↦ absurd (ground (arith, n))
        | inr (key, k) ↦ elim (Option-cases (local_scalar_constant_id 0 constants imports value)) [
          | inl n ↦
              let made : record { key = key; value = no_id } ≡ item = ground (arith, k, n) in
              rw (← made) (
                local_scalar_constant_id-Names constants imports (string text) key k,
                inr (refl, ground (arith, k, n)),
              )
          | inr (id, v) ↦
              let made : record { key = key; value = id } ≡ item = ground (arith, k, v) in
              rw (← made) (
                local_scalar_constant_id-Names constants imports (string text) key k,
                inl (local_scalar_constant_id-Names constants imports value id v),
              )
        ]
      ]

  Names-valid :
      (metadata : ProtoMetadata) (id : ℕ) (wanted : Scalar)
      → IsPool constants imports metadata
      → (n : Names constants imports id wanted)
      → (id < metadata.constant_count) × ((constant_at metadata id).kind ≡ constant_kind n.constant)
  Names-valid metadata id wanted pool n = (
    omega (arith, pool.count, get_elem?-lt constants id n.at_id),
    pool.kinds id n.constant n.import n.at_id n.import_at n.absent,
  )

  IsItem-valid :
      (metadata : ProtoMetadata) (text : List ℕ) (value : Scalar) (item : TableItem)
      → IsPool constants imports metadata
      → IsItem constants imports text value item
      → valid_item metadata (runtime_item item) ≡ true
  unfolding valid_item
  IsItem-valid metadata text value item pool (k, inl v) =
      let (key, kind) = Names-valid metadata item.key (string text) pool k in
      let (id, other) = Names-valid metadata item.value value pool v in
      let material = scalar_kinds v.constant value v.same in
      let is_string = string_kind k.constant text k.same in
      let at_key : (constant_at metadata item.key).kind ≡ 4 = kind ∙ is_string in
      let at_value : materializable_scalar_constant_kind (constant_at metadata item.value).kind
          ≡ true =
        ap materializable_scalar_constant_kind other ∙ material in
      ground (arith, key, id, at_key, at_value)
  IsItem-valid metadata text value item pool (k, inr (e, z)) =
      let (key, kind) = Names-valid metadata item.key (string text) pool k in
      let is_string = string_kind k.constant text k.same in
      let at_key : (constant_at metadata item.key).kind ≡ 4 = kind ∙ is_string in
      ground (arith, key, at_key, e)

  keyed_item-ne-skipped :
      (text : List ℕ) (value : Scalar) → keyed_item constants imports text value ≢ skipped
  unfolding keyed_item
  keyed_item-ne-skipped text value h =
      elim (Option-cases (local_scalar_constant_id 0 constants imports (string text))) [
        | inl n ↦ ground (arith, n)
        | inr (key, k) ↦ elim (Option-cases (local_scalar_constant_id 0 constants imports value)) [
          | inl n ↦ ground (arith, k, n)
          | inr (id, v) ↦ ground (arith, k, v)
        ]
      ]

  node_item-skipped :
      (key : NodeKey) (value : Scalar)
      → node_item constants imports (record { key = key; val = value }) ≡ skipped
      → key ≡ no_key
  unfolding node_item
  node_item-skipped no_key value h = refl
  node_item-skipped dead_key value h = cc
  node_item-skipped other_key value h = cc
  node_item-skipped (string_key text) value h = absurd (keyed_item-ne-skipped text value h)

  node_item-entry :
      (key : NodeKey) (value : Scalar) (item : TableItem)
      → node_item constants imports (record { key = key; val = value }) ≡ entry item
      → (text : List ℕ) × (key ≡ string_key text) × IsItem constants imports text value item
  unfolding node_item
  node_item-entry no_key value item h = cc
  node_item-entry dead_key value item h = cc
  node_item-entry other_key value item h = cc
  node_item-entry (string_key text) value item h = (text, refl, keyed_item-IsItem text value item h)

  added :
      (r : NodeResult) (rest : Option (List TableItem)) (items : List TableItem)
      → add_result r rest ≡ some items
      → ((r ≡ skipped) × (rest ≡ some items))
        ⊎ ((item : TableItem) × (others : List TableItem) × (r ≡ entry item)
            × (rest ≡ some others)
            × (items ≡ item ∷ others))
  added skipped rest items h = inl (refl, h)
  added rejected rest items h = cc
  added (entry item) none items h = cc
  added (entry item) (some others) items h = inr (item, others, refl, refl, ground arith)

  node_items-AreValid :
      (metadata : ProtoMetadata) (nodes : List LuaNode) (items : List TableItem)
      → IsPool constants imports metadata
      → node_items constants imports nodes ≡ some items
      → AreValid metadata items
  unfolding node_items
  node_items-AreValid metadata [] items pool h =
      let same : [] ≡ items = ground arith in rw (← same) tt
  node_items-AreValid metadata (node ∷ nodes) items pool h =
      elim (added (node_item constants imports node) (node_items constants imports nodes) items h) [
        | inl (s, r) ↦ node_items-AreValid metadata nodes items pool r
        | inr (item, others, e, r, made) ↦
            let (text, key, is_item) = node_item-entry node.key node.val item e in
            rw made (
              IsItem-valid metadata text node.val item pool is_item,
              node_items-AreValid metadata nodes others pool r,
            )
      ]

  node_items-AreCovered :
      (nodes : List LuaNode) (items all_items : List TableItem)
      → ((item : TableItem) → IsIn item items → IsIn item all_items)
      → node_items constants imports nodes ≡ some items
      → AreCovered constants imports nodes all_items
  unfolding node_items
  node_items-AreCovered [] items all_items f h = tt
  node_items-AreCovered (node ∷ nodes) items all_items f h =
      elim (added (node_item constants imports node) (node_items constants imports nodes) items h) [
        | inl (s, r) ↦ (
          inl (node_item-skipped node.key node.val s),
          node_items-AreCovered nodes items all_items f r,
        )
        | inr (item, others, e, r, made) ↦
            let (text, key, is_item) = node_item-entry node.key node.val item e in
            (
              inr (text, item, key, f item (rw made (inl refl)), is_item),
              node_items-AreCovered nodes others all_items (λ other m. f other (rw made (inr m))) r,
            )
      ]

-- The items of a table template: the runtime's validation accepts each of them, their keys ascend, and every
-- node is empty or has an item that names its key and its value.
pub record IsTemplate (constants : List LoaderConstant) (imports : List ImportDescriptor)
    (t : LoaderTable) (metadata : ProtoMetadata) (items : List TableItem) : Type 0 where
  pub valid : AreValid metadata items
  pub ascending : IsAscending items
  pub covered : AreCovered constants imports t.node items

-- When the frontend serializes a table constant, every node of the table that is not empty has an item that names
-- its key and its value among the constants, or no value in place of the number zero; the keys ascend, and in
-- metadata with the constants' kinds the runtime's validation accepts each item.
pub table_items-IsTemplate :
    (constants : List LoaderConstant) (imports : List ImportDescriptor) (t : LoaderTable)
    (metadata : ProtoMetadata) (items : List TableItem)
    → IsPool constants imports metadata
    → table_items constants imports t ≡ some items
    → IsTemplate constants imports t metadata items
unfolding table_items
table_items-IsTemplate constants imports t metadata items pool h =
    elim (Option-cases (node_items constants imports t.node)) [
      | inl n ↦ absurd (ground (arith, n))
      | inr (found, e) ↦
          let made : items ≡ sort_items found = ground (arith, e) in
          rw made (record {
            valid =
                sort_items-All
                  (λ (item : TableItem). valid_item metadata (runtime_item item) ≡ true) found
                  (node_items-AreValid constants imports metadata t.node found pool e);
            ascending =
                distinct-IsAscending (sort_items found) (sort_items-IsSorted found)
                  (ground (arith, e));
            covered =
                node_items-AreCovered constants imports t.node found (sort_items found)
                  (λ item m. sort_items-IsIn item found m) e;
          })
    ]
