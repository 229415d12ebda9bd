-- ===== src/Runtime/Program/Answers.antt =====
-- What `luauc_runtime_v1_push_program` answers: after the validation only a closure constant that
-- names no direct child, or a look-up that leaves an unbalanced stack, raises an error.
use luauc.Prelude.{ℕ, ◌+◌, ◌<◌, ◌≡◌, ◌≢◌, true, false, Option, List, ◌==◌, if◌then◌else◌}
use luauc.Prelude.Words.{uint32_max}
use luauc.Runtime.Metadata.Kind
use luauc.Runtime.Metadata.{ProtoMetadata, constant_at, aot_import_aux}
use luauc.Runtime.Program.{
  ProgramMetadata, SourceName, not_direct_child, unbalanced_import, named, proto_at, used_modules,
  child_arrays, name_protos, valid_program,
}
use luauc.Runtime.Program.Build.{Machine, Templates, Push, internal_error, raised, pushed}
use luauc.Runtime.Program.Templates.{constant_of, IsClosure, IsChild, IsBlamed, all_closures}

-- Constant `id` is an import with an encoding, and the global environment is safe, so that it is
-- looked up.
pub record IsLooked (machine : Machine) (metadata : ProtoMetadata) (id : ℕ) : Type 0 where
  pub inside : id < metadata.constant_count
  pub is_import : (constant_at metadata id).kind ≡ Kind.import
  pub encoded : aot_import_aux metadata (constant_at metadata id) ≢ uint32_max
  pub safe : machine.safe_env ≡ true

-- The look-up of some import of a proto leaves the stack unbalanced.
pub record IsUnbalanced (machine : Machine) (program : ProgramMetadata) (id : ℕ) : Type 0 where
  pub proto : ℕ
  pub known : proto < program.proto_count
  pub looked : IsLooked machine (proto_at program proto) id
  pub uneven : machine.balanced proto id ≡ false

abbrev pub AllBalanced : Machine → ProgramMetadata → Type 0
AllBalanced machine program =
    (proto id : ℕ)
    → proto < program.proto_count
    → IsLooked machine (proto_at program proto) id
    → machine.balanced proto id ≡ true

abbrev pub AllChildren : ProgramMetadata → Type 0
AllChildren program =
    (parent id : ℕ)
    → parent < program.proto_count
    → IsClosure program parent id
    → IsChild program parent (constant_of program parent id).payload0

-- The call passes every test before its first effect.
pub record IsAccepted (max_string : ℕ) (machine : Machine) (caller : Option (List ℕ))
    (program : ProgramMetadata) : Type 0 where
  pub valid : valid_program max_string caller program ≡ true
  pub unowned : machine.foreign_destroy ≡ false
  pub room :
      machine.stack_room (if used_modules program == 0 then 1 else used_modules program + 8) ≡ true
  pub first : 0 < used_modules program → machine.published ≡ false

-- The answers of the call, each with all that leads to it.
pub data Answers (max_string : ℕ) (machine : Machine) (caller : Option (List ℕ))
    (program : ProgramMetadata) : Push → Type 0 where
  refused :
      ¬ IsAccepted max_string machine caller program
      → Answers max_string machine caller program internal_error
  uneven :
      {id : ℕ}
      → IsAccepted max_string machine caller program
      → IsUnbalanced machine program id
      → Answers max_string machine caller program (raised (unbalanced_import id))
  blamed :
      {child : ℕ}
      → IsAccepted max_string machine caller program
      → AllBalanced machine program
      → IsBlamed program child
      → Answers max_string machine caller program (raised (not_direct_child child))
  whole :
      {names : List SourceName}
      → IsAccepted max_string machine caller program
      → AllBalanced machine program
      → AllChildren program
      → name_protos program ≡ named names (used_modules program)
      → Answers max_string machine caller program
          (pushed names (child_arrays program) (all_closures program program.proto_count 0))
