-- ===== src/Runtime/Metadata/Imports.antt =====
-- `aotImportAux` rebuilds the very descriptor word that frontend/frontend_adapter.cpp decoded.
use Prim.Native.Nat.{bit_or}
use luauc.Prelude.{
  ℕ, suc, ◌+◌, ◌-◌, ◌*◌, ◌/◌, ◌%◌, ◌^◌, ◌≤◌, ◌<◌, ◌≡◌, ◌⊎◌, inl, inr, sym, subst, ◌∙◌, true, some,
  arith, ap, lt→ltb,
}
use luauc.Prelude.Words.{no_id}
use luauc.Prelude.Bits.{bit_or-shifted, bit_and-ones}
use luauc.Frontend.Imports.{
  ImportDescriptor, word_count, word_id0, word_id1, word_id2, valid_word, fresh_import,
}
use luauc.Runtime.Metadata.Kind
use luauc.Runtime.Metadata.{
  VmConstant, ProtoMetadata, constant_at, item_at, import_aux_loop, aot_import_aux,
}

pack_one :
    (c a : ℕ)
    → c ≤ 3
    → a < 1024
    → bit_or (c * 2 ^ 30 % 2 ^ 32) (a * 2 ^ 20 % 2 ^ 32) ≡ c * 2 ^ 30 + a * 2 ^ 20
pack_one c a hc ha =
    let count : c * 2 ^ 30 % 2 ^ 32 ≡ c * 2 ^ 30 = omega arith in
    let id : a * 2 ^ 20 % 2 ^ 32 ≡ a * 2 ^ 20 = omega arith in
    rw (count, id) (bit_or-shifted 30 c (a * 2 ^ 20) (omega arith))

pack_two :
    (c a b : ℕ)
    → c ≤ 3
    → a < 1024
    → b < 1024
    → bit_or (bit_or (c * 2 ^ 30 % 2 ^ 32) (a * 2 ^ 20 % 2 ^ 32)) (b * 2 ^ 10 % 2 ^ 32)
      ≡ c * 2 ^ 30 + a * 2 ^ 20 + b * 2 ^ 10
pack_two c a b hc ha hb =
    let id : b * 2 ^ 10 % 2 ^ 32 ≡ b * 2 ^ 10 = omega arith in
    let high : c * 2 ^ 30 + a * 2 ^ 20 ≡ (c * 2 ^ 10 + a) * 2 ^ 20 = omega arith in
    rw (pack_one c a hc ha, id, high)
      (bit_or-shifted 20 (c * 2 ^ 10 + a) (b * 2 ^ 10) (omega arith))

pack_three :
    (c a b e : ℕ)
    → c ≤ 3
    → a < 1024
    → b < 1024
    → e < 1024
    → bit_or
        (bit_or (bit_or (c * 2 ^ 30 % 2 ^ 32) (a * 2 ^ 20 % 2 ^ 32)) (b * 2 ^ 10 % 2 ^ 32))
        (e * 2 ^ 0 % 2 ^ 32)
      ≡ c * 2 ^ 30 + a * 2 ^ 20 + b * 2 ^ 10 + e
pack_three c a b e hc ha hb he =
    let id : e * 2 ^ 0 % 2 ^ 32 ≡ e = omega arith in
    let high : c * 2 ^ 30 + a * 2 ^ 20 + b * 2 ^ 10 ≡ (c * 2 ^ 20 + a * 2 ^ 10 + b) * 2 ^ 10 =
      omega arith in
    rw (pack_two c a b hc ha hb, id, high)
      (bit_or-shifted 10 (c * 2 ^ 20 + a * 2 ^ 10 + b) e (omega arith))

-- An item that carries the id of a string constant of the pool, and no value.
pub record CarriesId (metadata : ProtoMetadata) (index id : ℕ) : Type 0 where
  pub key_id : (item_at metadata index).key ≡ id
  pub no_value : (item_at metadata index).value ≡ no_id
  pub inside : id < metadata.constant_count
  pub string : (constant_at metadata id).kind ≡ Kind.string

-- The constant carries a decoded import: its count, and an item for each id in order.
pub record CarriesImport (metadata : ProtoMetadata) (constant : VmConstant) (d : ImportDescriptor)
    : Type 0 where
  pub count : constant.payload1 ≡ d.count
  pub inside : constant.payload0 + constant.payload1 ≤ metadata.constant_item_count
  pub first : CarriesId metadata (constant.payload0 + 0) d.id0
  pub second : 2 ≤ d.count → CarriesId metadata (constant.payload0 + 1) d.id1
  pub third : 3 ≤ d.count → CarriesId metadata (constant.payload0 + 2) d.id2

-- One round over an item that carries an id.
aux_round :
    (metadata : ProtoMetadata) (constant : VmConstant) (rounds offset aux id : ℕ)
    → CarriesId metadata (constant.payload0 + offset) id
    → id < 1024
    → import_aux_loop metadata constant (suc rounds) offset aux
      ≡ import_aux_loop metadata constant rounds
          (offset + 1)
          (bit_or aux (id * 2 ^ (20 - offset * 10) % 2 ^ 32))
unfolding import_aux_loop
aux_round metadata constant rounds offset aux id c narrow =
    rw c.key_id (ground (arith, c.no_value, c.inside, c.string))

module _ (metadata : ProtoMetadata) (constant : VmConstant) where
  aux_of_loop :
      (n aux : ℕ)
      → constant.payload1 ≡ n
      → 1 ≤ n
      → n ≤ 3
      → constant.payload0 + n ≤ metadata.constant_item_count
      → import_aux_loop metadata constant n 0 (n * 2 ^ 30 % 2 ^ 32) ≡ some aux
      → aot_import_aux metadata constant ≡ aux
  unfolding aot_import_aux
  aux_of_loop n aux e l u inside h =
      let loop =
        subst (λ (t : ℕ). import_aux_loop metadata constant t 0 (t * 2 ^ 30 % 2 ^ 32) ≡ some aux)
          (sym e) h in
      ground (arith, loop)

  module _ (a b c : ℕ) (ha : a < 1024) (hb : b < 1024) (hc : c < 1024) where
    loop_one :
        CarriesId metadata (constant.payload0 + 0) a
        → import_aux_loop metadata constant 1 0 (1 * 2 ^ 30 % 2 ^ 32)
          ≡ some (1 * 2 ^ 30 + a * 2 ^ 20)
    unfolding import_aux_loop
    loop_one first =
        aux_round metadata constant 0 0 _ a first ha ∙ ap some (pack_one 1 a (omega arith) ha)

    loop_two :
        CarriesId metadata (constant.payload0 + 0) a
        → CarriesId metadata (constant.payload0 + 1) b
        → import_aux_loop metadata constant 2 0 (2 * 2 ^ 30 % 2 ^ 32)
          ≡ some (2 * 2 ^ 30 + a * 2 ^ 20 + b * 2 ^ 10)
    unfolding import_aux_loop
    loop_two first second =
        aux_round metadata constant 1 0 _ a first ha
        ∙ aux_round metadata constant 0 1 _ b second hb
        ∙ ap some (pack_two 2 a b (omega arith) ha hb)

    loop_three :
        CarriesId metadata (constant.payload0 + 0) a
        → CarriesId metadata (constant.payload0 + 1) b
        → CarriesId metadata (constant.payload0 + 2) c
        → import_aux_loop metadata constant 3 0 (3 * 2 ^ 30 % 2 ^ 32)
          ≡ some (3 * 2 ^ 30 + a * 2 ^ 20 + b * 2 ^ 10 + c)
    unfolding import_aux_loop
    loop_three first second third =
        aux_round metadata constant 2 0 _ a first ha
        ∙ aux_round metadata constant 1 1 _ b second hb
        ∙ aux_round metadata constant 0 2 _ c third hc
        ∙ ap some (pack_three 3 a b c (omega arith) ha hb hc)

-- The descriptor word of an import, with its unused bits clear.
word_parts :
    (d : ℕ)
    → valid_word d ≡ true
    → ((word_count d ≡ 1) × (d ≡ 1 * 2 ^ 30 + word_id0 d * 2 ^ 20))
      ⊎ ((word_count d ≡ 2) × (d ≡ 2 * 2 ^ 30 + word_id0 d * 2 ^ 20 + word_id1 d * 2 ^ 10))
      ⊎ ((word_count d ≡ 3)
          × (d ≡ 3 * 2 ^ 30 + word_id0 d * 2 ^ 20 + word_id1 d * 2 ^ 10 + word_id2 d))
unfolding valid_word
word_parts d h = ground (
  arith,
  bit_and-ones 10 (d / 2 ^ 20),
  bit_and-ones 10 (d / 2 ^ 10),
  bit_and-ones 10 d,
  bit_and-ones 20 d,
)

module _ (d : ℕ) where
  id0_narrow : word_id0 d < 1024
  id0_narrow = omega (arith, bit_and-ones 10 (d / 2 ^ 20))

  id1_narrow : word_id1 d < 1024
  id1_narrow = omega (arith, bit_and-ones 10 (d / 2 ^ 10))

  id2_narrow : word_id2 d < 1024
  id2_narrow = omega (arith, bit_and-ones 10 d)

-- The import word survives the way from the bytecode through the metadata to the virtual machine: if
-- a constant of valid metadata carries what was decoded from a valid word, the runtime rebuilds that word.
pub aot_import_aux-fresh_import :
    (metadata : ProtoMetadata) (constant : VmConstant) (descriptor : ℕ)
    → valid_word descriptor ≡ true
    → CarriesImport metadata constant (fresh_import descriptor)
    → aot_import_aux metadata constant ≡ descriptor
unfolding fresh_import
aot_import_aux-fresh_import metadata constant descriptor valid c =
    elim (word_parts descriptor valid) [
      | inl (n, e) ↦
          let count : constant.payload1 ≡ 1 = omega (arith, c.count) in
          aux_of_loop metadata constant 1 _ count (omega arith) (omega arith)
            (omega (arith, c.inside))
            (loop_one metadata constant _ 0 0 (id0_narrow descriptor) (omega arith) (omega arith)
              c.first)
          ∙ sym e
      | inr (inl (n, e)) ↦
          let count : constant.payload1 ≡ 2 = omega (arith, c.count) in
          let more : 1 < descriptor / 2 ^ 30 = omega arith in
          let second = rw (lt→ltb 1 _ more) at (c.second (omega arith)) in
          aux_of_loop metadata constant 2 _ count (omega arith) (omega arith)
            (omega (arith, c.inside))
            (loop_two metadata constant _ _ 0 (id0_narrow descriptor) (id1_narrow descriptor)
              (omega arith) c.first second)
          ∙ sym e
      | inr (inr (n, e)) ↦
          let count : constant.payload1 ≡ 3 = omega (arith, c.count) in
          let more : 1 < descriptor / 2 ^ 30 = omega arith in
          let most : 2 < descriptor / 2 ^ 30 = omega arith in
          let second = rw (lt→ltb 1 _ more) at (c.second (omega arith)) in
          let third = rw (lt→ltb 2 _ most) at (c.third (omega arith)) in
          aux_of_loop metadata constant 3 _ count (omega arith) (omega arith)
            (omega (arith, c.inside))
            (loop_three metadata constant _ _ _ (id0_narrow descriptor) (id1_narrow descriptor)
              (id2_narrow descriptor) c.first second third)
          ∙ sym e
    ]
