-- ===== src/Frontend/Imports.antt =====
-- `decodeImportDescriptors` of frontend/frontend_adapter.cpp: the words of a proto's bytecode are
-- walked, and each GETIMPORT instruction gives the import descriptor of its cache constant.
pub mod Decoded
mod Runs
use Prim.Native.Nat.{bit_and}
use luauc.Prelude.{
  ℕ, zero, suc, ◌+◌, ◌-◌, ◌*◌, ◌/◌, ◌%◌, ◌^◌, ◌≡◌, Bool, true, false, not, ◌&&◌, ◌||◌, Option, none,
  some, List, [], ◌∷◌, arith, ltb, leb, ◌==◌, if◌then◌else◌, length, get_or, set, replicate,
}

-- What the loop asks of Luau's instruction encoding: the opcode of a word, the length of an
-- instruction (0 for a length that is not positive), the D operand (`none` if it is negative), and
-- the opcode GETIMPORT.
pub record Encoding : Type 0 where
  pub opcode : ℕ → ℕ
  pub op_length : ℕ → ℕ
  pub operand_d : ℕ → Option ℕ
  pub getimport : ℕ

-- The parts of a `Proto` that the loop reads; `is_string` is `ttisstring` of a constant.
pub record ProtoCode : Type 0 where
  pub code : List ℕ
  pub sizek : ℕ
  pub is_string : ℕ → Bool

pub record ImportDescriptor : Type 0 where
  pub present : Bool
  pub count : ℕ
  pub id0 : ℕ
  pub id1 : ℕ
  pub id2 : ℕ

abbrev pub no_import : ImportDescriptor
no_import = record { present = false; count = 0; id0 = 0; id1 = 0; id2 = 0 }

pub data ImportError : Type 0 where
  invalid_bytecode invalid_length invalid_descriptor non_string conflicting : ImportError

-- `stuck` is no result of the code: the loop ran out of fuel.
pub data Decoding : Type 0 where
  decoded : List ImportDescriptor → Decoding
  failed : ImportError → Decoding
  stuck : Decoding

-- One GETIMPORT: the imports with it recorded, or the error.
pub data Recording : Type 0 where
  recorded : List ImportDescriptor → Recording
  refused : ImportError → Recording

abbrev pub word_count : ℕ → ℕ
word_count descriptor = descriptor / 2 ^ 30

abbrev pub word_id0 : ℕ → ℕ
word_id0 descriptor = bit_and (descriptor / 2 ^ 20) 1023

abbrev pub word_id1 : ℕ → ℕ
word_id1 descriptor = bit_and (descriptor / 2 ^ 10) 1023

abbrev pub word_id2 : ℕ → ℕ
word_id2 descriptor = bit_and descriptor 1023

abbrev pub unused_mask : ℕ → ℕ
unused_mask count = if count == 1 then 0x000f_ffff else if count == 2 then 0x0000_03ff else 0

-- The range check of the descriptor word.
unfoldable pub valid_word : ℕ → Bool
valid_word descriptor = not (
    ltb (word_count descriptor) 1
    || ltb 3 (word_count descriptor)
    || not (bit_and descriptor (unused_mask (word_count descriptor)) == 0))

-- `stringConstants[index] >= sizek || !ttisstring(&k[stringConstants[index]])` fails for no id in use.
unfoldable pub valid_ids : ProtoCode → ℕ → Bool
valid_ids proto descriptor =
    let good = λ (id : ℕ). ltb id proto.sizek && proto.is_string id in
    good (word_id0 descriptor)
    && (ltb (word_count descriptor) 2 || good (word_id1 descriptor))
    && (ltb (word_count descriptor) 3 || good (word_id2 descriptor))

-- The descriptor with the ids that `count` says; the others stay 0.
unfoldable pub fresh_import : ℕ → ImportDescriptor
fresh_import descriptor = record {
  present = true;
  count = word_count descriptor % 256;
  id0 = word_id0 descriptor;
  id1 = if ltb 1 (word_count descriptor) then word_id1 descriptor else 0;
  id2 = if ltb 2 (word_count descriptor) then word_id2 descriptor else 0;
}

unfoldable pub agrees : ImportDescriptor → ℕ → Bool
agrees known descriptor =
    known.count == word_count descriptor
    && known.id0 == word_id0 descriptor
    && (ltb (word_count descriptor) 2 || known.id1 == word_id1 descriptor)
    && (ltb (word_count descriptor) 3 || known.id2 == word_id2 descriptor)

-- The body of `if (opcode == LOP_GETIMPORT)` behind the test of the length.
unfoldable pub record_import : ProtoCode → List ImportDescriptor → Option ℕ → ℕ → Recording
record_import proto imports none descriptor = refused invalid_descriptor
record_import proto imports (some cache) descriptor =
    if leb proto.sizek cache || not (valid_word descriptor)
    then refused invalid_descriptor
    else if not (valid_ids proto descriptor)
    then refused non_string
    else if (get_or imports cache no_import).present
    then if agrees (get_or imports cache no_import) descriptor
      then recorded imports
      else refused conflicting
    else recorded (set imports cache (fresh_import descriptor))

-- What one instruction at `pc` does to the imports.
unfoldable pub decode_step : Encoding → ProtoCode → List ImportDescriptor → ℕ → Recording
decode_step enc proto imports pc =
    let instruction = get_or proto.code pc 0 in
    let opcode = enc.opcode instruction in
    let op_length = enc.op_length opcode in
    if op_length == 0 || ltb (length proto.code) (pc + op_length)
    then refused invalid_bytecode
    else if opcode == enc.getimport
    then if not (op_length == 2)
      then refused invalid_length
      else record_import proto imports (enc.operand_d instruction) (get_or proto.code (pc + 1) 0)
    else recorded imports

pub decode_loop : Encoding → ProtoCode → ℕ → ℕ → List ImportDescriptor → Decoding
decode_loop enc proto zero pc imports =
    if ltb pc (length proto.code) then stuck else decoded imports
decode_loop enc proto (suc fuel) pc imports =
    let next = pc + enc.op_length (enc.opcode (get_or proto.code pc 0)) in
    if ltb pc (length proto.code)
    then (elim (decode_step enc proto imports pc) [
      | refused error ↦ failed error
      | recorded imports' ↦ decode_loop enc proto fuel next imports'
    ])
    else decoded imports

-- The instructions are one word long at least, so `sizecode` rounds are enough.
unfoldable pub decode_import_descriptors : Encoding → ProtoCode → Decoding
decode_import_descriptors enc proto =
    decode_loop enc proto (length proto.code) 0 (replicate proto.sizek no_import)
