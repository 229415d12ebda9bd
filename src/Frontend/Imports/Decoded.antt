-- ===== src/Frontend/Imports/Decoded.antt =====
-- What a decoded import is, and that decoding ends.
use luauc.Prelude.{
  ℕ, zero, suc, ◌+◌, ◌/◌, ◌^◌, ◌≤◌, ◌<◌, ◌≡◌, ◌≢◌, ◌⊎◌, inl, inr, refl, ◌∙◌, true, ◌&&◌, Option,
  none, some, List, arith, ltb, ◌==◌, length, get_or, set, replicate, Bool-cases, lt→ltb,
  get_or-set, length-set, length-replicate,
}
use luauc.Prelude.Bits.{bit_and-ones}
use luauc.Frontend.Imports.{
  Encoding, ProtoCode, ImportDescriptor, no_import, decoded, stuck, Recording, recorded, refused,
  valid_word, valid_ids, fresh_import, record_import, decode_step, decode_loop,
  decode_import_descriptors,
}

Recording-cases :
    (r : Recording)
    → ((imports : List ImportDescriptor) × (r ≡ recorded imports)) ⊎ ((e : _) × (r ≡ refused e))
Recording-cases (recorded imports) = inl (imports, refl)
Recording-cases (refused e) = inr (e, refl)

step_advances :
    (enc : Encoding) (proto : ProtoCode) (imports : List ImportDescriptor) (pc : ℕ)
    {imports' : List ImportDescriptor}
    → decode_step enc proto imports pc ≡ recorded imports'
    → 0 < enc.op_length (enc.opcode (get_or proto.code pc 0))
unfolding decode_step
step_advances enc proto imports pc h = ground arith

decode_loop-ne-stuck :
    (enc : Encoding) (proto : ProtoCode) (fuel pc : ℕ) (imports : List ImportDescriptor)
    → length proto.code ≤ pc + fuel
    → decode_loop enc proto fuel pc imports ≢ stuck
unfolding decode_loop
decode_loop-ne-stuck enc proto zero pc imports h = ground arith
decode_loop-ne-stuck enc proto (suc fuel) pc imports h =
    elim (Bool-cases (ltb pc (length proto.code))) [
      | inr e ↦ rw e (λ p. cc)
      | inl e ↦ elim (Recording-cases (decode_step enc proto imports pc)) [
        | inr (x, s) ↦ rw (e, s) (λ p. cc)
        | inl (imports', s) ↦
            rw (e, s)
              (decode_loop-ne-stuck enc proto fuel
                (pc + enc.op_length (enc.opcode (get_or proto.code pc 0))) imports'
                (omega (arith, step_advances enc proto imports pc s)))
      ]
    ]

-- The walk over the bytecode ends for every code, well formed or not.
pub decode_import_descriptors-ne-stuck :
    (enc : Encoding) (proto : ProtoCode) → decode_import_descriptors enc proto ≢ stuck
unfolding decode_import_descriptors
decode_import_descriptors-ne-stuck enc proto =
    decode_loop-ne-stuck enc proto (length proto.code) 0 (replicate proto.sizek no_import)
      (omega arith)

-- An id that names a string constant of the proto.
pub record IsStringId (proto : ProtoCode) (id : ℕ) : Type 0 where
  pub inside : id < proto.sizek
  pub narrow : id < 1024
  pub string : proto.is_string id ≡ true

-- One to three ids of string constants, the rest cleared.
pub record IsImport (proto : ProtoCode) (d : ImportDescriptor) : Type 0 where
  pub some_ids : 1 ≤ d.count
  pub few_ids : d.count ≤ 3
  pub first : IsStringId proto d.id0
  pub second : 2 ≤ d.count → IsStringId proto d.id1
  pub third : 3 ≤ d.count → IsStringId proto d.id2
  pub no_second : d.count ≤ 1 → d.id1 ≡ 0
  pub no_third : d.count ≤ 2 → d.id2 ≡ 0

fresh_import-IsImport :
    (proto : ProtoCode) (descriptor : ℕ)
    → valid_word descriptor ≡ true
    → valid_ids proto descriptor ≡ true
    → IsImport proto (fresh_import descriptor)
unfolding valid_word valid_ids fresh_import
fresh_import-IsImport proto descriptor w v =
    let n₀ = bit_and-ones 10 (descriptor / 2 ^ 20) in
    let n₁ = bit_and-ones 10 (descriptor / 2 ^ 10) in
    let n₂ = bit_and-ones 10 descriptor in
    record {
      some_ids = ground arith;
      few_ids = ground arith;
      first = record { inside = ground arith; narrow = omega (arith, n₀); string = ground arith };
      second = λ h.
          let more : 1 < descriptor / 2 ^ 30 = ground arith in
          rw (lt→ltb 1 _ more)
            (record { inside = ground arith; narrow = omega (arith, n₁); string = ground arith });
      third = λ h.
          let more : 2 < descriptor / 2 ^ 30 = ground arith in
          rw (lt→ltb 2 _ more)
            (record { inside = ground arith; narrow = omega (arith, n₂); string = ground arith });
      no_second = λ h. ground arith;
      no_third = λ h. ground arith;
    }

-- Every import that is present is well formed.
abbrev pub AllImports : ProtoCode → List ImportDescriptor → Type 0
AllImports proto imports =
    (i : ℕ)
    → (get_or imports i no_import).present ≡ true
    → IsImport proto (get_or imports i no_import)

recorded_result :
    (proto : ProtoCode) (imports : List ImportDescriptor) (cache : ℕ) (descriptor : ℕ)
    (imports' : List ImportDescriptor)
    → record_import proto imports (some cache) descriptor ≡ recorded imports'
    → (imports' ≡ imports)
      ⊎ ((imports' ≡ set imports cache (fresh_import descriptor))
          × (valid_word descriptor ≡ true)
          × (valid_ids proto descriptor ≡ true))
unfolding record_import
recorded_result proto imports cache descriptor imports' h = ground arith

set-AllImports :
    (proto : ProtoCode) (imports : List ImportDescriptor) (cache : ℕ) (d : ImportDescriptor)
    → AllImports proto imports
    → IsImport proto d
    → AllImports proto (set imports cache d)
set-AllImports proto imports cache d all new i p =
    elim (Bool-cases (cache == i && ltb i (length imports))) [
      | inl e ↦ rw (get_or-set imports cache i d no_import, e) new
      | inr e ↦
          rw (get_or-set imports cache i d no_import, e)
            (all i (rw (get_or-set imports cache i d no_import, e) at p))
    ]

record_import-AllImports :
    (proto : ProtoCode) (imports : List ImportDescriptor) (cache : Option ℕ) (descriptor : ℕ)
    (imports' : List ImportDescriptor)
    → AllImports proto imports
    → record_import proto imports cache descriptor ≡ recorded imports'
    → AllImports proto imports' × (length imports' ≡ length imports)
record_import-AllImports proto imports none descriptor imports' all h = unfold record_import in cc
record_import-AllImports proto imports (some cache) descriptor imports' all h =
    elim (recorded_result proto imports cache descriptor imports' h) [
      | inl e ↦ rw e (all, refl)
      | inr (e, w, v) ↦ rw e (
        set-AllImports proto imports cache (fresh_import descriptor) all
            (fresh_import-IsImport proto descriptor w v),
        length-set imports cache (fresh_import descriptor),
      )
    ]

decode_step-AllImports :
    (enc : Encoding) (proto : ProtoCode) (imports : List ImportDescriptor) (pc : ℕ)
    (imports' : List ImportDescriptor)
    → AllImports proto imports
    → decode_step enc proto imports pc ≡ recorded imports'
    → AllImports proto imports' × (length imports' ≡ length imports)
unfolding decode_step
decode_step-AllImports enc proto imports pc imports' all h = elim (kept) [
  | inl e ↦ rw e (all, refl)
  | inr r ↦
      record_import-AllImports proto imports (enc.operand_d (get_or proto.code pc 0))
        (get_or proto.code (pc + 1) 0) imports' all r
]
  where
    kept :
        (imports' ≡ imports)
        ⊎ (record_import proto imports
              (enc.operand_d (get_or proto.code pc 0))
              (get_or proto.code (pc + 1) 0)
            ≡ recorded imports')
    kept = ground arith

decode_loop-AllImports :
    (enc : Encoding) (proto : ProtoCode) (fuel pc : ℕ) (imports result : List ImportDescriptor)
    → AllImports proto imports
    → decode_loop enc proto fuel pc imports ≡ decoded result
    → AllImports proto result × (length result ≡ length imports)
unfolding decode_loop
decode_loop-AllImports enc proto zero pc imports result all h =
    let same : result ≡ imports = ground arith in rw same (all, refl)
decode_loop-AllImports enc proto (suc fuel) pc imports result all h =
    elim (Bool-cases (ltb pc (length proto.code))) [
      | inr e ↦ let same : result ≡ imports = ground arith in rw same (all, refl)
      | inl e ↦ elim (Recording-cases (decode_step enc proto imports pc)) [
        | inr (x, s) ↦ absurd (cc (rw (e, s) at h))
        | inl (imports', s) ↦
            let (all', same) = decode_step-AllImports enc proto imports pc imports' all s in
            let (all'', kept) =
              decode_loop-AllImports enc proto fuel
                (pc + enc.op_length (enc.opcode (get_or proto.code pc 0))) imports' result all'
                (rw (e, s) at h) in
            (all'', kept ∙ same)
      ]
    ]

blank-AllImports : (proto : ProtoCode) (n : ℕ) → AllImports proto (replicate n no_import)
blank-AllImports proto zero i p = cc
blank-AllImports proto (suc n) zero p = cc
blank-AllImports proto (suc n) (suc i) p = blank-AllImports proto n i p

-- When decoding succeeds there is one entry for each constant of the proto, and each entry that is
-- present has one to three ids, each below 1024 and the id of a string constant, and zeros behind them.
pub decode_import_descriptors-AllImports :
    (enc : Encoding) (proto : ProtoCode) (imports : List ImportDescriptor)
    → decode_import_descriptors enc proto ≡ decoded imports
    → AllImports proto imports × (length imports ≡ proto.sizek)
unfolding decode_import_descriptors
decode_import_descriptors-AllImports enc proto imports h =
    let (all, size) =
      decode_loop-AllImports enc proto (length proto.code) 0 (replicate proto.sizek no_import)
        imports (blank-AllImports proto proto.sizek) h in
    (all, size ∙ length-replicate proto.sizek no_import)
