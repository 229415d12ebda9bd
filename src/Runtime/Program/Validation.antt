-- ===== src/Runtime/Program/Validation.antt =====
-- What the validation of a program establishes.
use luauc.Prelude.{ℕ, suc, ◌-◌, ◌≤◌, ◌<◌, ◌≡◌, ◌⊎◌, ap, true, false, Option, List, arith}
use luauc.Prelude.Words.{int_max, no_id}
use luauc.Runtime.Metadata.{for_all}
use luauc.Runtime.Metadata.Constants.{for_all→each}
use luauc.Runtime.Program.{
  ProgramMetadata, proto_at, module_root, used_modules, valid_header, valid_module_table,
  valid_module_at, valid_modules, is_root, valid_proto_at, valid_program,
}

-- The roots of the modules: the first is proto 0, they rise, and they are protos of the program.
pub record HasRoots (program : ProgramMetadata) : Type 0 where
  pub first : module_root program 0 ≡ 0
  pub rising :
      (k : ℕ) → suc k < used_modules program → module_root program k < module_root program (suc k)
  pub below : (k : ℕ) → k < used_modules program → module_root program k < program.proto_count

module _ (max_string : ℕ) (caller : Option (List ℕ)) (program : ProgramMetadata)
    (valid : valid_program max_string caller program ≡ true) where
  valid_parts :
      (valid_header caller program ≡ true)
      × (valid_module_table program ≡ true)
      × (valid_modules program ≡ true)
      × (for_all program.proto_count 0 (valid_proto_at max_string program) ≡ true)
  unfolding valid_program
  valid_parts = (ground arith, ground arith, ground arith, ground arith)

  pub few_protos : program.proto_count ≤ int_max
  unfolding valid_header
  few_protos = let h = valid_parts.0 in ground arith

  valid_each_module :
      0 < used_modules program
      → (k : ℕ) → k < used_modules program
      → valid_module_at program k ≡ true
  unfolding valid_modules
  valid_each_module some_modules k l =
      let h = valid_parts.2 in
      for_all→each (used_modules program) 0 (valid_module_at program) (ground arith) k (omega arith)
        (omega arith)

  pub valid_program-HasRoots : 0 < used_modules program → HasRoots program
  unfolding valid_module_at
  valid_program-HasRoots some_modules = record {
    first = let h = valid_each_module some_modules 0 some_modules in ground arith;
    rising = λ k l.
        let h = valid_each_module some_modules (suc k) l in
        let before : suc k - 1 ≡ k = omega arith in ground (arith, ap (module_root program) before);
    below = λ k l. let h = valid_each_module some_modules k l in ground arith;
  }

  valid_each_proto :
      (id : ℕ) → id < program.proto_count → valid_proto_at max_string program id ≡ true
  valid_each_proto id l =
      for_all→each program.proto_count 0 (valid_proto_at max_string program) valid_parts.3 id
        (omega arith) (omega arith)

  -- A root has no parent, and any other proto stands behind its parent.
  pub parent_of :
      (id : ℕ)
      → id < program.proto_count
      → ((is_root program id ≡ true) × ((proto_at program id).parent_id ≡ no_id))
        ⊎ ((is_root program id ≡ false) × ((proto_at program id).parent_id < id))
  unfolding valid_proto_at
  parent_of id l = let h = valid_each_proto id l in ground arith

  -- A proto has the function id of its place.
  pub function_id_of : (id : ℕ) → id < program.proto_count → (proto_at program id).function_id ≡ id
  unfolding valid_proto_at
  function_id_of id l = let h = valid_each_proto id l in ground arith
